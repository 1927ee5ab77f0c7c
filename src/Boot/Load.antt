-- ===== src/Boot/Load.antt =====
-- `VM::initRAM`, step by step, over guest memory and the contents of the two files.
use lvmm.Base.{
  ℕ, ◌+◌, ◌-◌, ◌*◌, ◌%◌, ◌^◌, List, [], ◌∷◌, ◌++◌, Option, none, some, Bool, ltb, if◌then◌else◌,
  length, take, drop, bit_or, is_nonzero,
}
use lvmm.Boot.Header.{SetupHeader, setup_header_size, read_header, is_valid, check_setup_sects}
use lvmm.Boot.Params.{
  BootParams, new_boot_params, add_e820_entry, boot_params_bytes, boot_e820_type_ram,
  boot_e820_type_reserved,
}
use lvmm.Boot.Memory.{Ram, copy_to}
use lvmm.Mp.{gen_ebda, ebda_bytes, ebda_start, vgaram_start}

abbrev pub sect_size : ℕ
sect_size = 512

abbrev pub realmode_ivt_start : ℕ
realmode_ivt_start = 0

abbrev pub boot_params_addr : ℕ
boot_params_addr = 0x0001_0000

abbrev pub commandline_addr : ℕ
commandline_addr = 0x0002_0000

abbrev pub mbbios_start : ℕ
mbbios_start = 0x000f_0000

abbrev pub mbbios_size : ℕ
mbbios_size = 0xffff

abbrev pub highmem_base : ℕ
highmem_base = 0x0010_0000

abbrev pub initramfs_addr : ℕ
initramfs_addr = 0x0f00_0000

abbrev pub setup_header_addr : ℕ
setup_header_addr = 0x1f1

abbrev pub boot_hdr_vid_mode_nml : ℕ
boot_hdr_vid_mode_nml = 0xffff

abbrev pub boot_hdr_blt_undefined : ℕ
boot_hdr_blt_undefined = 0xff

abbrev pub boot_hdr_lf_high : ℕ
boot_hdr_lf_high = 0b0000_0001

abbrev pub boot_hdr_lf_keep_sgmt : ℕ
boot_hdr_lf_keep_sgmt = 0b0100_0000

abbrev pub boot_hdr_lf_heap : ℕ
boot_hdr_lf_heap = 0b1000_0000

abbrev pub boot_hdr_heapend_offset : ℕ
boot_hdr_heapend_offset = 0x200

-- `vm_config`. The paths stand for the files, which are arguments of `init_ram`.
pub record Config : Type 0 where
  pub vcpu_num : ℕ
  pub ram_size : ℕ
  pub is_64bit_boot : Bool

-- How `initRAM` goes on: with a value; with `return 1`, guest memory as it then is; or with a write
-- outside an array or the guest's memory, or a failed assertion.
pub data Loading (A : Type 0) : Type 0 where
  ok : A → Loading A
  failed : Ram → Loading A
  fault : Loading A

infixl 5 ◌>>=◌
abbrev pub ◌>>=◌ : {A B : Type 0} → Loading A → (A → Loading B) → Loading B
ok a >>= f = f a
failed ram >>= f = failed ram
fault >>= f = fault

-- A step that leaves its array or the guest's memory where it gives `none`.
abbrev pub bounded : {A : Type 0} → Option A → Loading A
bounded none = fault
bounded (some a) = ok a

-- A file: the bytes that an opened stream reads, or none where it could not be opened.
abbrev pub File : Type 0
File = Option (List ℕ)

unfoldable pub put_ebda : Config → Ram → Loading Ram
put_ebda c ram =
    bounded (gen_ebda c.vcpu_num) >>= λ e. bounded (copy_to ram ebda_start (ebda_bytes e))

-- The memory with the initramfs, and its size.
unfoldable pub load_initramfs : File → Ram → Loading (Ram × ℕ)
load_initramfs none ram = failed ram
load_initramfs (some bytes) ram =
    bounded (copy_to ram initramfs_addr bytes) >>= λ r. ok (r, length bytes)

-- The command line and its terminating 0.
unfoldable pub put_cmdline : List ℕ → Ram → Loading Ram
put_cmdline cmdline ram = bounded (copy_to ram commandline_addr (cmdline ++ 0 ∷ []))

-- The header as it stands in the kernel image, if it is a valid one.
unfoldable pub load_header : File → Ram → Loading SetupHeader
load_header none ram = failed ram
load_header (some bytes) ram =
    let h = read_header (take setup_header_size (drop setup_header_addr bytes)) in
    if ltb (length bytes) (setup_header_addr + setup_header_size)
    then failed ram
    else if is_nonzero (is_valid h)
    then ok (check_setup_sects h).0
    else failed ram

unfoldable pub add_e820_map : Config → BootParams → Option BootParams
add_e820_map c bp =
    elim (add_e820_entry realmode_ivt_start (ebda_start - realmode_ivt_start) boot_e820_type_ram
      bp) [
        | none ↦ none
        | some bp1 ↦
            elim (add_e820_entry ebda_start (vgaram_start - ebda_start) boot_e820_type_reserved
              bp1) [
                | none ↦ none
                | some bp2 ↦
                    elim (add_e820_entry mbbios_start mbbios_size boot_e820_type_reserved bp2) [
                      | none ↦ none
                      | some bp3 ↦
                          add_e820_entry highmem_base
                            ((c.ram_size + 2 ^ 64 - highmem_base) % 2 ^ 64) boot_e820_type_ram bp3
                    ]
              ]
      ]

-- The fields that the boot loader has to write.
unfoldable pub set_header : ℕ → SetupHeader → SetupHeader
set_header ramdisk_size h = record h {
  vid_mode = boot_hdr_vid_mode_nml;
  type_of_loader = boot_hdr_blt_undefined;
  loadflags = bit_or (bit_or boot_hdr_lf_high boot_hdr_lf_keep_sgmt) boot_hdr_lf_heap;
  ramdisk_image = initramfs_addr;
  ramdisk_size = ramdisk_size % 2 ^ 32;
  heap_end_ptr = boot_params_addr - boot_hdr_heapend_offset;
  cmd_line_ptr = commandline_addr;
}

unfoldable pub boot_params_of : Config → ℕ → SetupHeader → Option BootParams
unfolding set_header
boot_params_of c ramdisk_size h = elim (add_e820_map c (record new_boot_params { header = h })) [
  | none ↦ none
  | some bp ↦ some (record bp { header = set_header ramdisk_size bp.header })
]

-- The part of the image behind the setup sectors. A shorter image makes `read` fail.
unfoldable pub load_kernel : File → SetupHeader → Ram → Loading Ram
load_kernel none h ram = failed ram
load_kernel (some bytes) h ram =
    let offset = (h.setup_sects + 1) * sect_size in
    if ltb (length bytes) offset
    then failed ram
    else bounded (copy_to ram highmem_base (drop offset bytes))

unfoldable pub check_boot_mode : Config → Loading Unit
check_boot_mode c = if c.is_64bit_boot then fault else ok tt

-- `ok` is `return 0`. Behind the assertion the page table of the 64-bit boot is never made.
unfoldable pub init_ram : Config → File → File → List ℕ → Ram → Loading Ram
init_ram c initramfs kernel cmdline ram = do
  ram1 ← put_ebda c ram
  loaded ← load_initramfs initramfs ram1
  ram2 ← put_cmdline cmdline loaded.0
  header ← load_header kernel ram2
  bp ← bounded (boot_params_of c loaded.1 header)
  ram3 ← bounded (copy_to ram2 boot_params_addr (boot_params_bytes bp))
  _ ← check_boot_mode c
  load_kernel kernel bp.header ram3
