-- ===== src/Cmos/Registers.antt =====
-- Which registers the clock answers for, and which are bytes of the array.
use lvmm.Base.{
  ℕ, ◌≤◌, ◌<◌, ◌≡◌, Bool, true, false, ◌||◌, none, some, arith, length, get_elem?, get_elem?-lt,
  get_elem?-ge, ◌==◌, Option-cases, inl, inr,
}
use lvmm.Cmos.Constants.{cmos_mem_size}
use lvmm.Cmos.Defs.{Tm, Cmos, reg_value, data_value}

-- The registers of the clock and of its status, which are computed and never stored.
abbrev pub is_clock_register : ℕ → Bool
is_clock_register r =
    r == 0
    || r == 2
    || r == 4
    || r == 6
    || r == 7
    || r == 8
    || r == 9
    || r == 10
    || r == 11
    || r == 12
    || r == 13
    || r == 50

pub reg_value-stored : (now : Tm) (r : ℕ) → is_clock_register r ≡ false → reg_value now r ≡ none
unfolding reg_value
reg_value-stored now r h = ground arith

pub data_value-stored :
    (now : Tm) (c : Cmos)
    → is_clock_register c.index ≡ false
    → data_value now c ≡ get_elem? c.mem c.index
unfolding data_value
data_value-stored now c h = ground (arith, reg_value-stored now c.index h)

-- A computed register does not depend on the array.
pub data_value-clock :
    (now : Tm) (c d : Cmos)
    → is_clock_register c.index ≡ true
    → d.index ≡ c.index
    → data_value now c ≡ data_value now d
unfolding data_value reg_value
data_value-clock now c d h e = ground arith

pub data_value-out :
    (now : Tm) (c : Cmos)
    → cmos_mem_size ≤ c.index
    → length c.mem ≤ c.index
    → data_value now c ≡ none
data_value-out now c h k = ground (arith, data_value-stored now c, get_elem?-ge c.mem c.index k)

pub data_value-some :
    (now : Tm) (c : Cmos) → c.index < length c.mem → (v : ℕ) × (data_value now c ≡ some v)
unfolding data_value
data_value-some now c h = elim (Option-cases (reg_value now c.index)) [
  | inl e ↦ rw (e, data_value) (get_elem?-lt c.mem c.index h)
  | inr (w, e) ↦ (w, rw (e, data_value))
]
