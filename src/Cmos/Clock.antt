-- ===== src/Cmos/Clock.antt =====
-- The clock registers, which are read in binary-coded decimal.
use lvmm.Base.{
  ℕ, ◌+◌, ◌*◌, ◌/◌, ◌%◌, ◌≤◌, ◌<◌, ◌≡◌, refl, Bool, true, ◌&&◌, some, arith, ◌==◌, ltb, leb,
}
use lvmm.Base.Bits.{holds_below, holds_below-elim}
use lvmm.Cmos.Defs.{Tm, Cmos, bin_to_bcd, bcd_byte, reg_value, data_value}
use lvmm.Cmos.Storage.{load, load_lem}

-- The number that two decimal digits in a byte stand for.
abbrev pub from_bcd : ℕ → ℕ
from_bcd b = b / 16 * 10 + b % 16

-- A byte with a decimal digit in each half that stands for `v`.
abbrev pub IsBcd : ℕ → ℕ → Type 0
IsBcd b v = (b / 16 ≤ 9) × (b % 16 ≤ 9) × (from_bcd b ≡ v)

abbrev two_digits : ℕ → Bool
two_digits v =
    let b = bin_to_bcd v in leb (b / 16) 9 && leb (b % 16) 9 && from_bcd b == v && ltb b 256

bcd_table : holds_below 100 two_digits ≡ true
unfolding holds_below bin_to_bcd
bcd_table = refl

-- Every number up to 99 is encoded by its two decimal digits.
pub bin_to_bcd-IsBcd : (v : ℕ) → v ≤ 99 → IsBcd (bin_to_bcd v) v
bin_to_bcd-IsBcd v h = ground (arith, holds_below-elim 100 two_digits v bcd_table (omega arith))

bcd_byte-IsBcd : (v : ℕ) → v ≤ 99 → IsBcd (bcd_byte v) v
bcd_byte-IsBcd v h =
    let fits : v % 256 ≡ v = omega arith in rw fits (ground (arith, bin_to_bcd-IsBcd v h))

-- The ranges that `localtime_r` keeps to, for a year before 10000.
pub record IsLocal (now : Tm) : Type 0 where
  pub sec : now.tm_sec ≤ 60
  pub min : now.tm_min ≤ 59
  pub hour : now.tm_hour ≤ 23
  pub wday : now.tm_wday ≤ 6
  pub mday : now.tm_mday ≤ 31
  pub mon : now.tm_mon ≤ 11
  pub year : now.tm_year < 8100

-- Reading register `r` gives a byte that encodes `v`.
abbrev pub Shows : Tm → Cmos → ℕ → ℕ → Type 0
Shows now c r v = (b : ℕ) × (load now r c ≡ some b) × IsBcd b v

shows :
    (now : Tm) (c : Cmos) (r v : ℕ)
    → r < 128
    → v ≤ 99
    → data_value now (record c { index = r }) ≡ some (bcd_byte v)
    → Shows now c r v
shows now c r v h k e = (bcd_byte v, rw (load_lem now r c h) e, bcd_byte-IsBcd v k)

-- The clock registers show the host's local time in BCD: the seconds, minutes, hours, day of the
-- week (Sunday is 0), day of the month, and the month counted from 0; the century and the year
-- registers together give the calendar year.
pub load-clock :
    (now : Tm) (c : Cmos)
    → IsLocal now
    → Shows now c 0x00 now.tm_sec
      × Shows now c 0x02 now.tm_min
      × Shows now c 0x04 now.tm_hour
      × Shows now c 0x06 now.tm_wday
      × Shows now c 0x07 now.tm_mday
      × Shows now c 0x08 now.tm_mon
      × ((century year : ℕ) × Shows now c 0x32 century
          × Shows now c 0x09 year
          × (century * 100 + year ≡ now.tm_year + 1900))
unfolding data_value reg_value
load-clock now c l = (
  shows now c 0x00 now.tm_sec (omega arith) (omega arith) refl,
  shows now c 0x02 now.tm_min (omega arith) (omega arith) refl,
  shows now c 0x04 now.tm_hour (omega arith) (omega arith) refl,
  shows now c 0x06 now.tm_wday (omega arith) (omega arith) refl,
  shows now c 0x07 now.tm_mday (omega arith) (omega arith) refl,
  shows now c 0x08 now.tm_mon (omega arith) (omega arith) refl,
  (
    (now.tm_year + 1900) / 100,
    now.tm_year % 100,
    shows now c 0x32 ((now.tm_year + 1900) / 100) (omega arith) (omega arith) refl,
    shows now c 0x09 (now.tm_year % 100) (omega arith) (omega arith) refl,
    omega arith,
  ),
)
