-- ===== src/Boot/Params.antt =====
-- `boot_params` of include/boot.hpp, its bytes, and `add_e820_entry` of src/boot.cpp.
use lvmm.Base.{
  ℕ, ◌+◌, ◌-◌, ◌*◌, ◌%◌, List, [], ◌∷◌, ◌++◌, Option, none, some, ltb, if◌then◌else◌, replicate,
  set, le_bytes,
}
use lvmm.Boot.Header.{SetupHeader, setup_header_size, header_bytes, read_header}

abbrev pub boot_edd_mbr_sig_max : ℕ
boot_edd_mbr_sig_max = 16

abbrev pub boot_e820_map_max : ℕ
boot_e820_map_max = 128

abbrev pub boot_e820_type_ram : ℕ
boot_e820_type_ram = 1

abbrev pub boot_e820_type_reserved : ℕ
boot_e820_type_reserved = 2

pub record E820entry : Type 0 where
  pub addr : ℕ
  pub size : ℕ
  pub kind : ℕ

abbrev pub new_e820entry : E820entry
new_e820entry = record { addr = 0; size = 0; kind = 0 }

pub record BootParams : Type 0 where
  pub padding0 : List ℕ
  pub e820_entries : ℕ
  pub edd_buf_entries : ℕ
  pub edd_mbr_sig_buf_entries : ℕ
  pub kbd_status : ℕ
  pub padding1 : List ℕ
  pub header : SetupHeader
  pub padding2 : List ℕ
  pub edd_mbr_sig_buf : List ℕ
  pub e820map : List E820entry

-- The initial values; those of the header are all 0.
abbrev pub new_boot_params : BootParams
new_boot_params = record {
  padding0 = replicate 0x1e8 0;
  e820_entries = 0;
  edd_buf_entries = 0;
  edd_mbr_sig_buf_entries = 0;
  kbd_status = 0;
  padding1 = replicate 5 0;
  header = read_header [];
  padding2 = replicate (0x290 - 0x1f1 - setup_header_size) 0;
  edd_mbr_sig_buf = replicate boot_edd_mbr_sig_max 0;
  e820map = replicate boot_e820_map_max new_e820entry;
}

unfoldable pub e820entry_bytes : E820entry → List ℕ
e820entry_bytes e = le_bytes 8 e.addr ++ le_bytes 8 e.size ++ le_bytes 4 e.kind

unfoldable pub e820map_bytes : List E820entry → List ℕ
unfolding e820entry_bytes
e820map_bytes [] = []
e820map_bytes (e ∷ es) = e820entry_bytes e ++ e820map_bytes es

unfoldable pub words_bytes : List ℕ → List ℕ
words_bytes [] = []
words_bytes (w ∷ ws) = le_bytes 4 w ++ words_bytes ws

unfoldable pub boot_params_bytes : BootParams → List ℕ
boot_params_bytes bp =
    bp.padding0
    ++ le_bytes 1 bp.e820_entries
    ++ le_bytes 1 bp.edd_buf_entries
    ++ le_bytes 1 bp.edd_mbr_sig_buf_entries
    ++ le_bytes 1 bp.kbd_status
    ++ bp.padding1
    ++ header_bytes bp.header
    ++ bp.padding2
    ++ words_bytes bp.edd_mbr_sig_buf
    ++ e820map_bytes bp.e820map

-- `sizeof(boot_params)`.
abbrev pub boot_params_size : ℕ
boot_params_size = 0x2d0 + 20 * boot_e820_map_max

-- `add_e820_entry`; `none` is a write past the end of the map.
unfoldable pub add_e820_entry : ℕ → ℕ → ℕ → BootParams → Option BootParams
add_e820_entry addr size kind bp =
    if ltb bp.e820_entries boot_e820_map_max
    then some (record bp {
      e820map = set bp.e820map bp.e820_entries (record { addr = addr; size = size; kind = kind });
      e820_entries = (bp.e820_entries + 1) % 256;
    })
    else none
