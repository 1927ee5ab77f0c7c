-- ===== src/Exit/Strings.antt =====
-- String I/O: an exit with a `count` above 1 hands every iteration the same data pointer.
use mathlib.Core.List.{append-nil, append_assoc}
use lvmm.Base.{
  ℕ, zero, suc, ◌≡◌, refl, false, List, [], ◌∷◌, ◌++◌, Option, none, some, arith, ltb, pos,
  is_nonzero, Bool-cases, inl, inr, ◌∙◌, Option-cases, replicate,
}
use lvmm.IoDev.{put_first}
use lvmm.Cmos.{cmos_read, cmos_write}
use lvmm.Com1.{
  Com1, com1_read, com1_write, read_rbr, write_thr, is_dlab_set, in_loopback, tx_enabled,
}
use lvmm.Pio.{
  Device, post, cmos, com1, Handler, default_pio, do_nothing_pio, reset_generator_out, read, write,
  slot, Table, pio_port_num,
}
use lvmm.Exit.Defs.{
  Machine, Now, Called, device_read, device_write, call, io_out, handler, Io, io_call, io_loop, io,
  run_once,
}

-- The bytes behind the first.
abbrev pub rest_of : List ℕ → List ℕ
rest_of [] = []
rest_of (b ∷ bs) = bs

rest_of-put_first : (buf : List ℕ) (v : ℕ) → rest_of (put_first buf v) ≡ rest_of buf
rest_of-put_first [] v = refl
rest_of-put_first (b ∷ bs) v = refl

-- A call that returns leaves the bytes behind the first.
abbrev KeepsRest : List ℕ → Option Called → Type 0
KeepsRest buf none = Unit
KeepsRest buf (some r) = rest_of r.buf ≡ rest_of buf

device_read-KeepsRest :
    (now : Now) (d : Device) (m : Machine) (port : ℕ) (buf : List ℕ) (size : ℕ)
    → KeepsRest buf (device_read now d m port buf size)
unfolding device_read cmos_read com1_read read_rbr
device_read-KeepsRest now post m port buf size = refl
device_read-KeepsRest now cmos m port buf size = grind (arith, rest_of-put_first)
device_read-KeepsRest now com1 m port buf size = grind (arith, rest_of-put_first)

device_write-KeepsRest :
    (now : Now) (d : Device) (m : Machine) (port : ℕ) (buf : List ℕ) (size : ℕ)
    → KeepsRest buf (device_write now d m port buf size)
unfolding device_write cmos_write
device_write-KeepsRest now post m port buf size = refl
device_write-KeepsRest now cmos m port buf size = ground arith
device_write-KeepsRest now com1 m port buf size = refl

call-KeepsRest :
    (now : Now) (f : Handler) (m : Machine) (port : ℕ) (buf : List ℕ) (size : ℕ)
    → KeepsRest buf (call now f m port buf size)
unfolding call
call-KeepsRest now default_pio m port buf size = refl
call-KeepsRest now do_nothing_pio m port buf size = refl
call-KeepsRest now reset_generator_out m port buf size = refl
call-KeepsRest now (read d) m port buf size = device_read-KeepsRest now d m port buf size
call-KeepsRest now (write d) m port buf size = device_write-KeepsRest now d m port buf size

io_call-KeepsRest :
    (now : Now) (t : Table) (a : Io) (m : Machine) (buf : List ℕ)
    → KeepsRest buf (io_call now t a m buf)
unfolding io_call
io_call-KeepsRest now t a m buf = elim (Bool-cases (ltb a.port pio_port_num)) [
  | inr out ↦ rw out tt
  | inl inside ↦ rw inside (elim (Option-cases (handler (t a.port) a.direction)) [
    | inl none_there ↦ rw none_there tt
    | inr (f, e) ↦ rw e (call-KeepsRest now f m a.port buf a.size)
  ])
]

KeepsRest-trans :
    (buf buf' : List ℕ)
    → rest_of buf' ≡ rest_of buf
    → (o : Option Called) → KeepsRest buf' o
    → KeepsRest buf o
KeepsRest-trans buf buf' e none k = tt
KeepsRest-trans buf buf' e (some r) k = k ∙ e

io_loop-KeepsRest :
    (n : ℕ) (now : Now) (t : Table) (a : Io) (m : Machine) (buf : List ℕ)
    → KeepsRest buf (io_loop n now t a m buf)
unfolding io_loop
io_loop-KeepsRest zero now t a m buf = refl
io_loop-KeepsRest (suc n) now t a m buf = elim (Option-cases (io_call now t a m buf)) [
  | inl e ↦ rw (e, KeepsRest) tt
  | inr (r, e) ↦
      let kept : rest_of r.buf ≡ rest_of buf = rw e at (io_call-KeepsRest now t a m buf) in
      rw (e, KeepsRest)
        (elim (Bool-cases (is_nonzero r.ret)) [
          | inl stop ↦ rw stop kept
          | inr on ↦
              rw on (KeepsRest-trans buf r.buf kept _ (io_loop-KeepsRest n now t a r.machine r.buf))
        ])
]

-- Whatever the port, the direction, the size and the count, an I/O exit changes at most the first
-- of
-- the bytes that the access hands over: a wide or repeated input leaves the others as they were.
pub run_once-rest_of :
    (now : Now) (t : Table) (a : Io) (m : Machine) {r : Called}
    → run_once now t (io a) m ≡ some r
    → rest_of r.buf ≡ rest_of a.buf
unfolding run_once
run_once-rest_of now t a m h = rw h at (io_loop-KeepsRest a.count now t a m a.buf)

-- A byte that goes out on the serial port, with the transmit interrupt disabled.
abbrev pub Plain : Com1 → Type 0
Plain c = (is_dlab_set c ≡ false) × (in_loopback c ≡ false) × (tx_enabled c ≡ false)

-- An output of single bytes to the serial port's data port.
abbrev pub com1_out : ℕ → List ℕ → Io
com1_out count buf = record { port = 0x3F8; direction = io_out; size = 1; count = count; buf = buf }

-- The machine after `n` sends of `b`.
abbrev pub sent : Machine → ℕ → ℕ → Machine
sent m n b = record m { host = record m.host { stdout = m.host.stdout ++ replicate n b } }

module _ (now : Now) (t : Table) (k b : ℕ) (bs : List ℕ) where
  com1_out_call :
      (m : Machine)
      → now.sys.write_errno ≡ none
      → t 0x3F8 ≡ slot (read com1) (write com1)
      → Plain m.uart
      → io_call now t (com1_out k (b ∷ bs)) m (b ∷ bs)
        ≡ some (record { machine = sent m 1 b; buf = b ∷ bs; ret = pos 0 })
  unfolding io_call call com1_write write_thr
  com1_out_call m works served plain = rw served (ground arith)

  com1_out_loop :
      (n : ℕ) (m : Machine)
      → now.sys.write_errno ≡ none
      → t 0x3F8 ≡ slot (read com1) (write com1)
      → Plain m.uart
      → io_loop n now t (com1_out k (b ∷ bs)) m (b ∷ bs)
        ≡ some (record { machine = sent m n b; buf = b ∷ bs; ret = pos 0 })
  unfolding io_loop
  com1_out_loop zero m works served plain = ground (arith, append-nil m.host.stdout)
  com1_out_loop (suc n) m works served plain =
      rw (com1_out_call m works served plain, io_loop)
        (rw (com1_out_loop n (sent m 1 b) works served plain)
          (ground (arith, append_assoc m.host.stdout (b ∷ []) (replicate n b))))

-- A string output of `n` bytes to the serial port prints the first byte `n` times, whatever the
-- other
-- bytes are: with DLAB and loopback clear, the transmit interrupt disabled, the port served by the
-- device and the host taking each byte.
pub run_once-repeats :
    (now : Now) (t : Table) (n b : ℕ) (bs : List ℕ) (m : Machine)
    → now.sys.write_errno ≡ none
    → t 0x3F8 ≡ slot (read com1) (write com1)
    → Plain m.uart
    → run_once now t (io (com1_out n (b ∷ bs))) m
      ≡ some (record { machine = sent m n b; buf = b ∷ bs; ret = pos 0 })
unfolding run_once
run_once-repeats now t n b bs m works served plain =
    com1_out_loop now t n b bs n m works served plain
