-- ===== src/Cmos/Defs.antt =====
-- `CMOS::Read` and `CMOS::Write`. The host's local time is an argument of a read.
use lvmm.Base.{
  ℕ, ◌+◌, ◌*◌, ◌/◌, ◌%◌, ◌^◌, bit_and, bit_or, ◌&&◌, not, List, Option, none, some, ltb, ◌==◌,
  if◌then◌else◌, pos, get_elem?, set, replicate, length,
}
use lvmm.Cmos.Constants.{
  pio_port_cmos_index, pio_port_cmos_data, cmos_index_mask, cmos_mem_size, cmos_reg_sec,
  cmos_reg_min, cmos_reg_hour, cmos_reg_weekd, cmos_reg_mday, cmos_reg_month, cmos_reg_year,
  cmos_reg_stat_a, cmos_reg_stat_b, cmos_reg_stat_c, cmos_reg_stat_d, cmos_reg_shutdown,
  cmos_reg_century, cmos_reg_stat_a_avl, cmos_reg_stat_a_dv1, cmos_reg_stat_a_rs2,
  cmos_reg_stat_a_rs1, cmos_reg_stat_b_24h, cmos_reg_stat_d_vrb, cmos_dt_max,
}
use lvmm.IoDev.{Outcome, first, put_first}

unfoldable pub bin_to_bcd : ℕ → ℕ
bin_to_bcd bin = if ltb cmos_dt_max bin then 1 else bit_or (bin / 10 * 2 ^ 4) (bin % 10)

-- What `localtime_r` fills in, for a host clock that is not set before 1900.
pub record Tm : Type 0 where
  pub tm_sec : ℕ
  pub tm_min : ℕ
  pub tm_hour : ℕ
  pub tm_mday : ℕ
  pub tm_mon : ℕ
  pub tm_year : ℕ
  pub tm_wday : ℕ

pub record Cmos : Type 0 where
  pub index : ℕ  -- uint8_t
  pub mem : List ℕ  -- uint8_t data[CMOS_MEM_SIZE]

-- The constructor clears `data` and leaves `index` with whatever byte stands there.
unfoldable pub new_cmos : ℕ → Cmos
new_cmos leftover = record { index = leftover; mem = replicate cmos_mem_size 0 }

-- `bin_to_bcd(static_cast<uint8_t>(n))` as it is stored into a `char`.
abbrev pub bcd_byte : ℕ → ℕ
bcd_byte n = bin_to_bcd (n % 256) % 256

-- The inner `switch` on `index`; `none` is its `default`.
unfoldable pub reg_value : Tm → ℕ → Option ℕ
reg_value now index =
    if index == cmos_reg_sec
    then some (bcd_byte now.tm_sec)
    else if index == cmos_reg_min
    then some (bcd_byte now.tm_min)
    else if index == cmos_reg_hour
    then some (bcd_byte now.tm_hour)
    else if index == cmos_reg_weekd
    then some (bcd_byte now.tm_wday)
    else if index == cmos_reg_mday
    then some (bcd_byte now.tm_mday)
    else if index == cmos_reg_month
    then some (bcd_byte now.tm_mon)
    else if index == cmos_reg_year
    then some (bcd_byte (now.tm_year % 100))
    else if index == cmos_reg_stat_a
    then some (
        bit_or (bit_or (bit_or cmos_reg_stat_a_avl cmos_reg_stat_a_dv1) cmos_reg_stat_a_rs2)
          cmos_reg_stat_a_rs1)
    else if index == cmos_reg_stat_b
    then some cmos_reg_stat_b_24h
    else if index == cmos_reg_stat_c
    then some 0
    else if index == cmos_reg_stat_d
    then some cmos_reg_stat_d_vrb
    else if index == cmos_reg_century
    then some (bcd_byte ((now.tm_year + 1900) / 100))
    else none

unfoldable pub data_value : Tm → Cmos → Option ℕ
data_value now c = elim (reg_value now c.index) [ some v ↦ some v | none ↦ get_elem? c.mem c.index ]

unfoldable pub cmos_read : Tm → Cmos → ℕ → List ℕ → ℕ → Outcome Cmos
cmos_read now c port buf size =
    if not (size == 1)
    then some (record { dev = c; buf = buf; ret = pos 1 })
    else if port == pio_port_cmos_index
    then some (record { dev = c; buf = put_first buf c.index; ret = pos 0 })
    else if port == pio_port_cmos_data
    then elim (data_value now c) [
      | none ↦ none
      | some v ↦ some (record {
        dev = record c { index = cmos_reg_stat_d };
        buf = put_first buf v;
        ret = pos 0;
      })
    ]
    else some (record { dev = c; buf = buf; ret = pos 1 })

unfoldable pub store_data : Cmos → ℕ → Option Cmos
store_data c v =
    if c.index == cmos_reg_shutdown && v == 0
    then some (record c { index = cmos_reg_stat_d })
    else if ltb c.index (length c.mem)
    then some (record c { mem = set c.mem c.index v; index = cmos_reg_stat_d })
    else none

unfoldable pub cmos_write : Cmos → ℕ → List ℕ → ℕ → Outcome Cmos
cmos_write c port buf size =
    if not (size == 1)
    then some (record { dev = c; buf = buf; ret = pos 1 })
    else if port == pio_port_cmos_index
    then some (record {
      dev = record c { index = bit_and (first buf) cmos_index_mask };
      buf = buf;
      ret = pos 0;
    })
    else if port == pio_port_cmos_data
    then elim (store_data c (first buf)) [
      | none ↦ none
      | some c' ↦ some (record { dev = c'; buf = buf; ret = pos 0 })
    ]
    else some (record { dev = c; buf = buf; ret = pos 1 })
