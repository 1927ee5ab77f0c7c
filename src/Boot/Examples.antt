-- ===== src/Boot/Examples.antt =====
-- A small kernel image, and the theorems on a machine of 256 MiB that boots it.
use lvmm.Base.{
  ℕ, ◌-◌, ◌≤◌, ◌<◌, ◌≢◌, ◌≡◌, refl, List, [], ◌∷◌, ◌++◌, some, false, length, take, drop, replicate,
  arith, inr,
}
use lvmm.Boot.Header.{read_header, check_setup_sects}
use lvmm.Boot.Params.{BootParams, boot_params_bytes}
use lvmm.Boot.Memory.{Ram, load}
use lvmm.Boot.Load.{Config, ok, failed, init_ram, boot_params_of}
use lvmm.Boot.Streams.{opened, seekg, read_stream, after_elf_test, stream_header, init_ram_streams}
use lvmm.Boot.Refines.{init_ram_streams-init_ram}
use lvmm.Boot.Steps.{IsBootable, checked_header, kernel_offset}
use lvmm.Boot.E820.{kinds_at, kinds_expected, boot_params_of-kinds}
use lvmm.Boot.Regions.{init_ram-load, init_ram-invalid}
use lvmm.Mp.{Ebda, gen_ebda, ebda_bytes}

abbrev small : Config
small = record { vcpu_num = 2; ram_size = 0x1000_0000; is_64bit_boot = false }

abbrev memory : Ram
memory = record { size = 0x1000_0000; byte = λ a. 0xcc }

-- One setup sector, and three bytes behind it.
abbrev pub kernel : List ℕ
kernel =
    replicate 0x1f1 0
    ++ 1
      ∷ (replicate 16 0 ++ b'H' ∷ b'd' ∷ b'r' ∷ b'S' ∷ (replicate 506 0 ++ 0x90 ∷ 0x90 ∷ 0xf4 ∷ []))

abbrev pub initramfs : List ℕ
initramfs = 7 ∷ 8 ∷ []

abbrev cmdline : List ℕ
cmdline = b'd' ∷ b'e' ∷ b'b' ∷ b'u' ∷ b'g' ∷ []

-- The image with a wrong magic number.
abbrev other_kernel : List ℕ
other_kernel = replicate 0x400 1

pub kernel_offset_run : kernel_offset kernel ≡ 0x400
unfolding kernel_offset checked_header check_setup_sects read_header
kernel_offset_run = refl

kernel-IsBootable : IsBootable small initramfs kernel cmdline memory
unfolding read_header
kernel-IsBootable = record {
  few_vcpus = omega arith;
  mode = refl;
  mapped = refl;
  magic = refl;
  has_header = omega arith;
  has_kernel = omega (arith, kernel_offset_run);
  initramfs_fits = omega arith;
  cmdline_fits = omega arith;
  kernel_fits = omega (arith, kernel_offset_run);
}

init_ram-load_example :
    (r : Ram) × (init_ram small (some initramfs) (some kernel) cmdline memory ≡ ok r)
    × (load r.byte 0x10_0000 (length kernel - kernel_offset kernel)
        ≡ drop (kernel_offset kernel) kernel)
    × (load r.byte 0xf00_0000 2 ≡ initramfs)
    × (load r.byte 0x2_0000 6 ≡ cmdline ++ 0 ∷ [])
    × ((e : Ebda) × (gen_ebda 2 ≡ some e) × (load r.byte 0x9_fc00 748 ≡ ebda_bytes e))
    × ((p : BootParams) × (boot_params_of small 2 (checked_header kernel) ≡ some p)
        × (load r.byte 0x1_0000 0xcd0 ≡ boot_params_bytes p))
init_ram-load_example = init_ram-load small initramfs kernel cmdline memory kernel-IsBootable

other_magic : (read_header (take 123 (drop 0x1f1 other_kernel))).header ≢ 0x5372_6448
unfolding read_header
other_magic e = absurd (omega (arith, e))

init_ram-invalid_example :
    (r : Ram) × (init_ram small (some initramfs) (some other_kernel) cmdline memory ≡ failed r)
    × ((a : ℕ) → 0x10_0000 ≤ a → a < 0xf00_0000 → r.byte a ≡ 0xcc)
    × ((a : ℕ) → a < 0x2_0000 → r.byte a ≡ 0xcc)
init_ram-invalid_example =
    init_ram-invalid small initramfs other_kernel cmdline memory (omega arith) (omega arith)
      (omega arith) (inr other_magic)

boot_params_of-kinds_example :
    (bp : BootParams) × (boot_params_of small 2 (checked_header kernel) ≡ some bp)
    × (bp.e820_entries ≡ 4)
    × ((a : ℕ) → kinds_at (take bp.e820_entries bp.e820map) a ≡ kinds_expected 0x1000_0000 a)
boot_params_of-kinds_example =
    boot_params_of-kinds small 2 (checked_header kernel) (omega arith) (omega arith)

init_ram_streams-init_ram_example :
    init_ram_streams small (opened initramfs) (after_elf_test (opened kernel)) cmdline memory
    ≡ init_ram small (some initramfs) (some kernel) cmdline memory
init_ram_streams-init_ram_example = init_ram_streams-init_ram small initramfs kernel cmdline memory

-- A kernel file of three bytes.
stub_fails : (ram : Ram) → stream_header (after_elf_test (opened (1 ∷ 2 ∷ 3 ∷ []))) ram ≡ failed ram
unfolding stream_header after_elf_test seekg read_stream
stub_fails ram = refl
