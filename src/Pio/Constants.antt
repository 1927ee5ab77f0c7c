-- ===== src/Pio/Constants.antt =====
-- The ports that `initPIOHandler` serves.
use lvmm.Base.{ℕ}

abbrev pub pio_port_alt_delay_start : ℕ
pio_port_alt_delay_start = 0xED

abbrev pub pio_port_alt_delay_end : ℕ
pio_port_alt_delay_end = 0xEE

abbrev pub pio_port_com4_start : ℕ
pio_port_com4_start = 0x2E8

abbrev pub pio_port_com4_end : ℕ
pio_port_com4_end = 0x2F0

abbrev pub pio_port_com2_start : ℕ
pio_port_com2_start = 0x2F8

abbrev pub pio_port_com2_end : ℕ
pio_port_com2_end = 0x300

abbrev pub pio_port_vga_0_start : ℕ
pio_port_vga_0_start = 0x3B0

abbrev pub pio_port_vga_0_end : ℕ
pio_port_vga_0_end = 0x3BC

abbrev pub pio_port_vga_1_start : ℕ
pio_port_vga_1_start = 0x3C0

abbrev pub pio_port_vga_1_end : ℕ
pio_port_vga_1_end = 0x3E0

abbrev pub pio_port_com3_start : ℕ
pio_port_com3_start = 0x3E8

abbrev pub pio_port_com3_end : ℕ
pio_port_com3_end = 0x3F0

abbrev pub pio_port_rst_gen_start : ℕ
pio_port_rst_gen_start = 0xCF9

abbrev pub pio_port_rst_gen_end : ℕ
pio_port_rst_gen_end = 0xCFA

abbrev pub pio_port_unknown_1_start : ℕ
pio_port_unknown_1_start = 0xCFA

abbrev pub pio_port_unknown_1_end : ℕ
pio_port_unknown_1_end = 0xCFC

abbrev pub pio_port_unknown_2_start : ℕ
pio_port_unknown_2_start = 0xCFE

abbrev pub pio_port_unknown_2_end : ℕ
pio_port_unknown_2_end = 0xCFF

abbrev pub pio_port_pci_config_addr_start : ℕ
pio_port_pci_config_addr_start = 0x0CF8

abbrev pub pio_port_pci_config_addr_end : ℕ
pio_port_pci_config_addr_end = 0x0CF9

abbrev pub pio_port_pci_config_data_start : ℕ
pio_port_pci_config_data_start = 0x0CFC

abbrev pub pio_port_pci_config_data_end : ℕ
pio_port_pci_config_data_end = 0x0CFD

abbrev pub pio_port_pci_csam2_start : ℕ
pio_port_pci_csam2_start = 0xC000

abbrev pub pio_port_pci_csam2_end : ℕ
pio_port_pci_csam2_end = 0xD000

abbrev pub pio_port_post_start : ℕ
pio_port_post_start = 0x80

abbrev pub pio_port_post_size : ℕ
pio_port_post_size = 0xA0
