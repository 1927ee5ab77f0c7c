-- ===== src/Boot/Header.antt =====
-- The packed setup header of include/boot.hpp and its methods in src/boot.cpp.
use lvmm.Base.{
  ℕ, ◌+◌, ◌*◌, ◌^◌, List, ◌++◌, ◌==◌, if◌then◌else◌, take, drop, le_bytes, le_word, ℤ, pos,
}

pub record SetupHeader : Type 0 where
  pub setup_sects : ℕ
  pub root_flags : ℕ
  pub sys_size : ℕ
  pub ram_size : ℕ
  pub vid_mode : ℕ
  pub root_dev : ℕ
  pub boot_flag : ℕ
  pub jump : ℕ
  pub header : ℕ
  pub version : ℕ
  pub realmode_swtch : ℕ
  pub start_sys_seg : ℕ
  pub kernel_version : ℕ
  pub type_of_loader : ℕ
  pub loadflags : ℕ
  pub setup_move_size : ℕ
  pub code32_start : ℕ
  pub ramdisk_image : ℕ
  pub ramdisk_size : ℕ
  pub bootsect_kludge : ℕ
  pub heap_end_ptr : ℕ
  pub ext_loader_ver : ℕ
  pub ext_loader_type : ℕ
  pub cmd_line_ptr : ℕ
  pub initrd_addr_max : ℕ
  pub kernel_alignmnet : ℕ
  pub relocatable_kernel : ℕ
  pub min_alignment : ℕ
  pub xloadflags : ℕ
  pub cmdline_size : ℕ
  pub hardware_subarch : ℕ
  pub hardware_subarch_data : ℕ
  pub paylopad_offset : ℕ
  pub payload_length : ℕ
  pub setup_data : ℕ
  pub pref_address : ℕ
  pub init_size : ℕ
  pub handover_offset : ℕ
  pub kernel_info_offset : ℕ

-- `sizeof(setup_header)`.
abbrev pub setup_header_size : ℕ
setup_header_size = 123

abbrev pub boot_hdr_magic : ℕ
boot_hdr_magic = b'S' * 2 ^ 24 + b'r' * 2 ^ 16 + b'd' * 2 ^ 8 + b'H'

-- The field of `w` bytes at `offset`.
abbrev pub field : ℕ → ℕ → List ℕ → ℕ
field w offset bytes = le_word (take w (drop offset bytes))

-- The header that is read over the bytes of the structure.
unfoldable pub read_header : List ℕ → SetupHeader
read_header bytes = record {
  setup_sects = field 1 0 bytes;
  root_flags = field 2 1 bytes;
  sys_size = field 4 3 bytes;
  ram_size = field 2 7 bytes;
  vid_mode = field 2 9 bytes;
  root_dev = field 2 11 bytes;
  boot_flag = field 2 13 bytes;
  jump = field 2 15 bytes;
  header = field 4 17 bytes;
  version = field 2 21 bytes;
  realmode_swtch = field 4 23 bytes;
  start_sys_seg = field 2 27 bytes;
  kernel_version = field 2 29 bytes;
  type_of_loader = field 1 31 bytes;
  loadflags = field 1 32 bytes;
  setup_move_size = field 2 33 bytes;
  code32_start = field 4 35 bytes;
  ramdisk_image = field 4 39 bytes;
  ramdisk_size = field 4 43 bytes;
  bootsect_kludge = field 4 47 bytes;
  heap_end_ptr = field 2 51 bytes;
  ext_loader_ver = field 1 53 bytes;
  ext_loader_type = field 1 54 bytes;
  cmd_line_ptr = field 4 55 bytes;
  initrd_addr_max = field 4 59 bytes;
  kernel_alignmnet = field 4 63 bytes;
  relocatable_kernel = field 1 67 bytes;
  min_alignment = field 1 68 bytes;
  xloadflags = field 2 69 bytes;
  cmdline_size = field 4 71 bytes;
  hardware_subarch = field 4 75 bytes;
  hardware_subarch_data = field 8 79 bytes;
  paylopad_offset = field 4 87 bytes;
  payload_length = field 4 91 bytes;
  setup_data = field 8 95 bytes;
  pref_address = field 8 103 bytes;
  init_size = field 4 111 bytes;
  handover_offset = field 4 115 bytes;
  kernel_info_offset = field 4 119 bytes;
}

unfoldable pub header_bytes : SetupHeader → List ℕ
header_bytes h =
    le_bytes 1 h.setup_sects
    ++ le_bytes 2 h.root_flags
    ++ le_bytes 4 h.sys_size
    ++ le_bytes 2 h.ram_size
    ++ le_bytes 2 h.vid_mode
    ++ le_bytes 2 h.root_dev
    ++ le_bytes 2 h.boot_flag
    ++ le_bytes 2 h.jump
    ++ le_bytes 4 h.header
    ++ le_bytes 2 h.version
    ++ le_bytes 4 h.realmode_swtch
    ++ le_bytes 2 h.start_sys_seg
    ++ le_bytes 2 h.kernel_version
    ++ le_bytes 1 h.type_of_loader
    ++ le_bytes 1 h.loadflags
    ++ le_bytes 2 h.setup_move_size
    ++ le_bytes 4 h.code32_start
    ++ le_bytes 4 h.ramdisk_image
    ++ le_bytes 4 h.ramdisk_size
    ++ le_bytes 4 h.bootsect_kludge
    ++ le_bytes 2 h.heap_end_ptr
    ++ le_bytes 1 h.ext_loader_ver
    ++ le_bytes 1 h.ext_loader_type
    ++ le_bytes 4 h.cmd_line_ptr
    ++ le_bytes 4 h.initrd_addr_max
    ++ le_bytes 4 h.kernel_alignmnet
    ++ le_bytes 1 h.relocatable_kernel
    ++ le_bytes 1 h.min_alignment
    ++ le_bytes 2 h.xloadflags
    ++ le_bytes 4 h.cmdline_size
    ++ le_bytes 4 h.hardware_subarch
    ++ le_bytes 8 h.hardware_subarch_data
    ++ le_bytes 4 h.paylopad_offset
    ++ le_bytes 4 h.payload_length
    ++ le_bytes 8 h.setup_data
    ++ le_bytes 8 h.pref_address
    ++ le_bytes 4 h.init_size
    ++ le_bytes 4 h.handover_offset
    ++ le_bytes 4 h.kernel_info_offset

-- `is_valid`.
unfoldable pub is_valid : SetupHeader → ℤ
is_valid h = if h.header == boot_hdr_magic then pos 1 else pos 0

-- `check_setup_sects`.
unfoldable pub check_setup_sects : SetupHeader → SetupHeader × ℤ
check_setup_sects h =
    if h.setup_sects == 0 then (record h { setup_sects = 4 }, pos 1) else (h, pos 0)
