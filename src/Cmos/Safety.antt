-- ===== src/Cmos/Safety.antt =====
-- No access leaves the 128 bytes of the CMOS RAM, once a register has been selected.
use lvmm.Base.{ℕ, ◌≤◌, ◌<◌, ◌≡◌, refl, List, [], ◌∷◌, Option, none, some, arith, length, length-set}
use lvmm.Base.Bits.{bit_and-ones}
use lvmm.IoDev.{Reply, Outcome, first}
use lvmm.Cmos.Registers.{data_value-some, data_value-out}
use lvmm.Cmos.Constants.{cmos_mem_size, pio_port_cmos_index}
use lvmm.Cmos.Defs.{Tm, Cmos, new_cmos, cmos_read, store_data, cmos_write}

pub record IsValid (c : Cmos) : Type 0 where
  pub selected : c.index < cmos_mem_size
  pub sized : length c.mem ≡ cmos_mem_size

-- An access of the guest; a read has the time at which it is made.
pub data Access : Type 0 where
  read : Tm → ℕ → List ℕ → ℕ → Access
  write : ℕ → List ℕ → ℕ → Access

unfoldable pub access : Access → Cmos → Outcome Cmos
access (read now port buf size) c = cmos_read now c port buf size
access (write port buf size) c = cmos_write c port buf size

-- A sequence of accesses, and the device after it; `none` if one of them leaves the array.
unfoldable pub run : List Access → Cmos → Option Cmos
run [] c = some c
run (a ∷ rest) c = elim (access a c) [ none ↦ none | some r ↦ run rest r.dev ]

-- The access stays inside the array and leaves a valid device.
abbrev pub Done : Outcome Cmos → Type 0
Done none = ⊥
Done (some r) = IsValid r.dev

pub read-Done :
    (now : Tm) (c : Cmos) (port : ℕ) (buf : List ℕ) (size : ℕ)
    → IsValid c
    → Done (cmos_read now c port buf size)
unfolding cmos_read
read-Done now c port buf size v = ground (arith, data_value-some now c (omega arith))

pub write-Done :
    (c : Cmos) (port : ℕ) (buf : List ℕ) (size : ℕ) → IsValid c → Done (cmos_write c port buf size)
unfolding cmos_write store_data
write-Done c port buf size v =
    ground (arith, bit_and-ones 7 (first buf), length-set c.mem c.index (first buf))

access-Done : (a : Access) (c : Cmos) → IsValid c → Done (access a c)
unfolding access
access-Done (read now port buf size) c v = read-Done now c port buf size v
access-Done (write port buf size) c v = write-Done c port buf size v

Done-some : (o : Outcome Cmos) → Done o → (r : Reply Cmos) × (o ≡ some r) × IsValid r.dev
Done-some none d = absurd d
Done-some (some r) d = (r, refl, d)

-- From a device whose selected register lies in the array, every sequence of reads and writes, at
-- any port, of any size and bytes, stays inside the array, and the device stays so.
pub run-IsValid :
    (accesses : List Access) (c : Cmos)
    → IsValid c
    → (c' : Cmos) × (run accesses c ≡ some c') × IsValid c'
unfolding run
run-IsValid [] c v = (c, refl, v)
run-IsValid (a ∷ rest) c v =
    let (r, e, w) = Done-some (access a c) (access-Done a c v) in
    rw (e, run) (run-IsValid rest r.dev w)

-- A device as it is constructed, whatever byte its register holds, takes any sequence of accesses
-- that begins with a one-byte write to the index port.
pub fresh-run-IsValid :
    (leftover : ℕ) (buf : List ℕ) (accesses : List Access)
    → (c : Cmos) × (run (write pio_port_cmos_index buf 1 ∷ accesses) (new_cmos leftover) ≡ some c)
      × IsValid c
unfolding run access cmos_write new_cmos
fresh-run-IsValid leftover buf accesses =
    run-IsValid accesses _
      (record { selected = ground (arith, bit_and-ones 7 (first buf)); sized = refl })

-- On a device as constructed whose leftover register is 128 or more, a one-byte read of the data
-- port reads outside the array.
pub fresh-read_faults :
    (now : Tm) (leftover : ℕ) (buf : List ℕ)
    → 128 ≤ leftover
    → cmos_read now (new_cmos leftover) 0x71 buf 1 ≡ none
unfolding cmos_read new_cmos
fresh-read_faults now leftover buf h = rw (data_value-out now (new_cmos leftover) h h)
