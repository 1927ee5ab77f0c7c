-- ===== src/Cmos/Storage.antt =====
-- The CMOS RAM as a map from register numbers to bytes.
use lvmm.Base.{
  ℕ, ◌<◌, ◌≡◌, Bool, ◌&&◌, not, [], ◌∷◌, Option, none, some, arith, set, get_elem?-set, ◌==◌,
  if◌then◌else◌, inl, inr, bit_and, Bool-cases,
}
use lvmm.Base.Bits.{bit_and-ones}
use lvmm.IoDev.{first}
use lvmm.Cmos.Registers.{is_clock_register, data_value-stored, data_value-clock}
use lvmm.Cmos.Constants.{cmos_reg_stat_d}
use lvmm.Cmos.Defs.{Tm, Cmos, data_value, cmos_read, store_data, cmos_write}
use lvmm.Cmos.Safety.{IsValid, write, access, run}

-- Select register `r` through port 0x70, then write or read its byte through port 0x71.
unfoldable pub store : ℕ → ℕ → Cmos → Option Cmos
store r v c = run (write 0x70 (r ∷ []) 1 ∷ write 0x71 (v ∷ []) 1 ∷ []) c

unfoldable pub load : Tm → ℕ → Cmos → Option ℕ
load now r c = elim (run (write 0x70 (r ∷ []) 1 ∷ []) c) [
  | none ↦ none
  | some c' ↦ elim (cmos_read now c' 0x71 (0 ∷ []) 1) [
    | none ↦ none
    | some reply ↦ some (first reply.buf)
  ]
]

-- Whether a store of `v` to `r` shows in later loads: not at a clock register, and a zero at the
-- shutdown register is dropped.
abbrev pub sticks : ℕ → ℕ → Bool
sticks r v = not (is_clock_register r) && not (r == 15 && v == 0)

select_lem : (r v : ℕ) (c : Cmos) → r < 128 → bit_and r 0b0111_1111 ≡ r
select_lem r v c h = omega (arith, bit_and-ones 7 r)

pub load_lem :
    (now : Tm) (r : ℕ) (c : Cmos) → r < 128 → load now r c ≡ data_value now (record c { index = r })
unfolding load run access cmos_write cmos_read
load_lem now r c h = ground (arith, select_lem r 0 c)

store_lem : (r v : ℕ) (c : Cmos) → r < 128 → store r v c ≡ store_data (record c { index = r }) v
unfolding store run access cmos_write
store_lem r v c h = ground (arith, select_lem r v c)

-- The device after a store.
abbrev stored : ℕ → ℕ → Cmos → Cmos
stored r v c =
    if r == 15 && v == 0
    then record c { index = cmos_reg_stat_d }
    else record c { mem = set c.mem r v; index = cmos_reg_stat_d }

store-some : (r v : ℕ) (c : Cmos) → IsValid c → r < 128 → store r v c ≡ some (stored r v c)
store-some r v c h k = rw (store_lem r v c k) (unfold store_data in ground arith)

abbrev at_register : ℕ → Cmos → Cmos
at_register j c = record c { index = j }

load-stored :
    (r v : ℕ) (c : Cmos) (now : Tm) (j : ℕ)
    → IsValid c
    → r < 128
    → data_value now (at_register j (stored r v c))
      ≡ (if sticks r v && j == r then some v else data_value now (at_register j c))
load-stored r v c now j h k = elim (Bool-cases (is_clock_register j)) [
  | inl e ↦ ground (arith, data_value-clock now (at_register j (stored r v c)) (at_register j c) e)
  | inr e ↦ ground (
    arith,
    data_value-stored now (at_register j (stored r v c)) e,
    data_value-stored now (at_register j c) e,
    get_elem?-set c.mem r j v,
  )
]

-- On a valid device a store to any of the 128 registers succeeds, and every later load gives what
-- was stored where it stuck, and elsewhere what it gave before.
pub load-store :
    (r v : ℕ) (c : Cmos)
    → IsValid c
    → r < 128
    → (c' : Cmos) × (store r v c ≡ some c')
      × ((now : Tm) (j : ℕ)
          → j < 128
          → load now j c' ≡ (if sticks r v && j == r then some v else load now j c))
load-store r v c h k = (
  stored r v c,
  store-some r v c h k,
  λ now j l. rw (load_lem now j (stored r v c) l, load_lem now j c l) (load-stored r v c now j h k),
)
