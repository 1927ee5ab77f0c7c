-- ===== src/Pci/Defs.antt =====
-- src/pci.cpp: the getters of the address register and its two port handlers. A data pointer is
-- the buffer that it points to; a handler returns the new state or buffer and the `int`.
use lvmm.Base.{
  ℕ, ◌/◌, ◌%◌, ◌^◌, bit_and, Bool, List, if◌then◌else◌, ◌==◌, not, ℤ, pos, le_word, set, take,
}

abbrev pub pci_addr_size : ℕ
pci_addr_size = 4

abbrev pub pci_addr_offset_mask : ℕ
pci_addr_offset_mask = 0x0000_00FC

abbrev pub pci_addr_func_mask : ℕ
pci_addr_func_mask = 0x0000_0700

abbrev pub pci_addr_dev_mask : ℕ
pci_addr_dev_mask = 0x0000_F800

abbrev pub pci_addr_bus_mask : ℕ
pci_addr_bus_mask = 0x00FF_0000

abbrev pub pci_addr_func_bit : ℕ
pci_addr_func_bit = 8

abbrev pub pci_addr_dev_bit : ℕ
pci_addr_dev_bit = 11

abbrev pub pci_addr_bus_bit : ℕ
pci_addr_bus_bit = 16

abbrev pub pci_addr_enable_bit : ℕ
pci_addr_enable_bit = 31

pub record Pci : Type 0 where
  pub addr : ℕ  -- uint32_t

unfoldable pub is_addr_enable : Pci → Bool
is_addr_enable p = bit_and (p.addr / 2 ^ pci_addr_enable_bit) 1 == 1

unfoldable pub get_offset : Pci → ℕ
get_offset p = bit_and p.addr pci_addr_offset_mask

unfoldable pub get_func : Pci → ℕ
get_func p = bit_and p.addr pci_addr_func_mask / 2 ^ pci_addr_func_bit

unfoldable pub get_dev : Pci → ℕ
get_dev p = bit_and p.addr pci_addr_dev_mask / 2 ^ pci_addr_dev_bit

unfoldable pub get_bus : Pci → ℕ
get_bus p = bit_and p.addr pci_addr_bus_mask / 2 ^ pci_addr_bus_bit

-- The `uint32_t` at the data pointer, read as x86 does.
abbrev pub word_at : List ℕ → ℕ
word_at bytes = le_word (take 4 bytes)

-- `*data_ptr = *addr_ptr` stores the low byte of the word into the first byte.
unfoldable pub config_addr_in : Pci → List ℕ → ℕ → List ℕ × ℤ
config_addr_in p bytes size =
    if not (size == pci_addr_size)
    then (bytes, pos 1)
    else (set bytes 0 (word_at bytes % 256), pos 0)

unfoldable pub config_addr_out : Pci → List ℕ → ℕ → Pci × ℤ
config_addr_out p bytes size =
    if not (size == pci_addr_size) then (p, pos 1) else (record p { addr = word_at bytes }, pos 0)
