-- ===== src/Com1/Constants.antt =====
-- The interrupt, the ports and the bits of the registers.
use lvmm.Base.{ℕ, ◌+◌}

abbrev pub com1_irq : ℕ
com1_irq = 4

abbrev pub pio_port_com1_start : ℕ
pio_port_com1_start = 0x3F8

abbrev pub pio_port_com1_size : ℕ
pio_port_com1_size = 0x8

abbrev pub pio_port_com1_thr_rbr_dll : ℕ
pio_port_com1_thr_rbr_dll = pio_port_com1_start

abbrev pub pio_port_com1_ier_dlh : ℕ
pio_port_com1_ier_dlh = pio_port_com1_start + 1

abbrev pub pio_port_com1_iir_fcr : ℕ
pio_port_com1_iir_fcr = pio_port_com1_start + 2

abbrev pub pio_port_com1_lcr : ℕ
pio_port_com1_lcr = pio_port_com1_start + 3

abbrev pub pio_port_com1_mcr : ℕ
pio_port_com1_mcr = pio_port_com1_start + 4

abbrev pub pio_port_com1_lsr : ℕ
pio_port_com1_lsr = pio_port_com1_start + 5

abbrev pub pio_port_com1_msr : ℕ
pio_port_com1_msr = pio_port_com1_start + 6

abbrev pub pio_port_com1_sr : ℕ
pio_port_com1_sr = pio_port_com1_start + 7

abbrev pub reg_dll_9600 : ℕ
reg_dll_9600 = 0x0C

abbrev pub reg_ier_writable_mask : ℕ
reg_ier_writable_mask = 0b0000_1111

abbrev pub reg_ier_data_avl_mask : ℕ
reg_ier_data_avl_mask = 0b0000_0001

abbrev pub reg_dlh_9600 : ℕ
reg_dlh_9600 = 0x00

abbrev pub reg_lcr_dlab : ℕ
reg_lcr_dlab = 0b1000_0000

abbrev pub reg_lsr_temt : ℕ
reg_lsr_temt = 0b0100_0000

abbrev pub reg_lsr_thre : ℕ
reg_lsr_thre = 0b0010_0000

abbrev pub reg_fcr_enable : ℕ
reg_fcr_enable = 0b0000_0001

abbrev pub reg_iir_no_int_pend : ℕ
reg_iir_no_int_pend = 0b0000_0001

abbrev pub reg_iir_fifo_16550a : ℕ
reg_iir_fifo_16550a = 0b1100_0000

abbrev pub reg_mcr_dtr : ℕ
reg_mcr_dtr = 0b0000_0001

abbrev pub reg_mcr_rts : ℕ
reg_mcr_rts = 0b0000_0010

abbrev pub reg_mcr_out1 : ℕ
reg_mcr_out1 = 0b0000_0100

abbrev pub reg_mcr_out2 : ℕ
reg_mcr_out2 = 0b0000_1000

abbrev pub reg_mcr_loop : ℕ
reg_mcr_loop = 0b0001_0000

abbrev pub reg_msr_cts : ℕ
reg_msr_cts = 0b0001_0000

abbrev pub reg_msr_dsr : ℕ
reg_msr_dsr = 0b0010_0000

abbrev pub reg_msr_ri : ℕ
reg_msr_ri = 0b0100_0000

abbrev pub reg_msr_dcd : ℕ
reg_msr_dcd = 0b1000_0000
