-- ===== src/Cmos/Constants.antt =====
-- The ports, the registers and their values (include/cmos.hpp).
use lvmm.Base.{ℕ, ◌+◌, ◌*◌, ◌^◌}

abbrev pub pio_port_cmos_start : ℕ
pio_port_cmos_start = 0x70

abbrev pub pio_port_cmos_size : ℕ
pio_port_cmos_size = 0x2

abbrev pub pio_port_cmos_index : ℕ
pio_port_cmos_index = pio_port_cmos_start

abbrev pub pio_port_cmos_data : ℕ
pio_port_cmos_data = pio_port_cmos_start + 1

abbrev pub cmos_index_mask : ℕ
cmos_index_mask = 0b0111_1111

abbrev pub cmos_mem_size : ℕ
cmos_mem_size = 128

abbrev pub cmos_reg_sec : ℕ
cmos_reg_sec = 0x00

abbrev pub cmos_reg_min : ℕ
cmos_reg_min = 0x02

abbrev pub cmos_reg_hour : ℕ
cmos_reg_hour = 0x04

abbrev pub cmos_reg_weekd : ℕ
cmos_reg_weekd = 0x06

abbrev pub cmos_reg_mday : ℕ
cmos_reg_mday = 0x07

abbrev pub cmos_reg_month : ℕ
cmos_reg_month = 0x08

abbrev pub cmos_reg_year : ℕ
cmos_reg_year = 0x09

abbrev pub cmos_reg_stat_a : ℕ
cmos_reg_stat_a = 0x0A

abbrev pub cmos_reg_stat_b : ℕ
cmos_reg_stat_b = 0x0B

abbrev pub cmos_reg_stat_c : ℕ
cmos_reg_stat_c = 0x0C

abbrev pub cmos_reg_stat_d : ℕ
cmos_reg_stat_d = 0x0D

abbrev pub cmos_reg_shutdown : ℕ
cmos_reg_shutdown = 0x0F

abbrev pub cmos_reg_century : ℕ
cmos_reg_century = 0x32

abbrev pub cmos_reg_stat_a_avl : ℕ
cmos_reg_stat_a_avl = 0 * 2 ^ 7

abbrev pub cmos_reg_stat_a_dv1 : ℕ
cmos_reg_stat_a_dv1 = 0b010 * 2 ^ 4

abbrev pub cmos_reg_stat_a_rs2 : ℕ
cmos_reg_stat_a_rs2 = 1 * 2 ^ 2

abbrev pub cmos_reg_stat_a_rs1 : ℕ
cmos_reg_stat_a_rs1 = 1 * 2 ^ 1

abbrev pub cmos_reg_stat_b_24h : ℕ
cmos_reg_stat_b_24h = 1 * 2 ^ 1

abbrev pub cmos_reg_stat_d_vrb : ℕ
cmos_reg_stat_d_vrb = 1 * 2 ^ 7

abbrev pub cmos_dt_max : ℕ
cmos_dt_max = 99
