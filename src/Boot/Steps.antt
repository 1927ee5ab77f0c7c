-- ===== src/Boot/Steps.antt =====
-- What each step of initRAM does when its files fit.
use lvmm.Base.{
  ℕ, ◌+◌, ◌-◌, ◌*◌, ◌≤◌, ◌<◌, ◌≡◌, refl, ap, inl, inr, ◌⊎◌, ◌≢◌, Bool-cases, ==_iff, List, [], ◌∷◌,
  ◌++◌, some, true, false, ltb, ◌==◌, length, length-append, length-drop, ltb_ge, take, drop, arith,
  is_nonzero,
}
use lvmm.Boot.Header.{
  SetupHeader, setup_header_size, boot_hdr_magic, read_header, header_bytes, is_valid,
  check_setup_sects,
}
use lvmm.Boot.Params.{boot_params_bytes, e820map_bytes, e820entry_bytes, words_bytes}
use lvmm.Boot.Memory.{Ram, place, copy_to_fits}
use lvmm.Boot.Load.{
  Config, ok, failed, put_ebda, load_initramfs, put_cmdline, load_header, load_kernel,
  check_boot_mode,
}
use lvmm.Boot.E820.{params_for}
use lvmm.Mp.{ebda_bytes, ebda_for, gen_ebda_lem, length-ebda_bytes}

-- The header of a kernel image, as it stands and with `setup_sects` corrected.
abbrev pub header_of : List ℕ → SetupHeader
header_of kernel = read_header (take setup_header_size (drop 0x1f1 kernel))

unfoldable pub checked_header : List ℕ → SetupHeader
checked_header kernel = (check_setup_sects (header_of kernel)).0

unfoldable pub kernel_offset : List ℕ → ℕ
kernel_offset kernel = ((checked_header kernel).setup_sects + 1) * 512

-- Files that fit a machine, and a kernel image with a valid header.
pub record IsBootable (c : Config) (initramfs kernel cmdline : List ℕ) (ram : Ram) : Type 0 where
  pub few_vcpus : c.vcpu_num ≤ 32
  pub mode : c.is_64bit_boot ≡ false
  pub mapped : ram.size ≡ c.ram_size
  pub magic : (header_of kernel).header ≡ boot_hdr_magic
  pub has_header : 0x26c ≤ length kernel
  pub has_kernel : kernel_offset kernel ≤ length kernel
  pub initramfs_fits : 0xf00_0000 + length initramfs ≤ c.ram_size
  pub cmdline_fits : 0x2_0000 + length cmdline < 0x9_fc00
  pub kernel_fits : 0x10_0000 + (length kernel - kernel_offset kernel) ≤ 0xf00_0000

pub put_ebda_lem :
    (c : Config) (ram : Ram)
    → c.vcpu_num ≤ 32
    → 0xa_0000 ≤ ram.size
    → put_ebda c ram
      ≡ ok (record ram { byte = place ram.byte 0x9_fc00 (ebda_bytes (ebda_for c.vcpu_num)) })
unfolding put_ebda
put_ebda_lem c ram h g =
    let e = gen_ebda_lem c.vcpu_num h in
    let f =
      copy_to_fits ram 0x9_fc00 (ebda_bytes (ebda_for c.vcpu_num))
        (omega (arith, length-ebda_bytes c.vcpu_num)) in
    rw (e, f) refl

pub load_initramfs_lem :
    (bytes : List ℕ) (ram : Ram)
    → 0xf00_0000 + length bytes ≤ ram.size
    → load_initramfs (some bytes) ram
      ≡ ok (record ram { byte = place ram.byte 0xf00_0000 bytes }, length bytes)
unfolding load_initramfs
load_initramfs_lem bytes ram h = rw (copy_to_fits ram 0xf00_0000 bytes h) refl

pub put_cmdline_lem :
    (cmdline : List ℕ) (ram : Ram)
    → 0x2_0000 + length cmdline < ram.size
    → put_cmdline cmdline ram
      ≡ ok (record ram { byte = place ram.byte 0x2_0000 (cmdline ++ 0 ∷ []) })
unfolding put_cmdline
put_cmdline_lem cmdline ram h =
    rw
      (copy_to_fits ram 0x2_0000 (cmdline ++ 0 ∷ [])
        (omega (arith, length-append cmdline (0 ∷ []))))
      refl

pub load_header_lem :
    (kernel : List ℕ) (ram : Ram)
    → 0x26c ≤ length kernel
    → (header_of kernel).header ≡ boot_hdr_magic
    → load_header (some kernel) ram ≡ ok (checked_header kernel)
unfolding load_header is_valid checked_header
load_header_lem kernel ram h m =
    let l : ltb (length kernel) 0x26c ≡ false = ltb_ge (length kernel) 0x26c h in
    let v : is_nonzero (is_valid (header_of kernel)) ≡ true = rw m refl in rw (l, v) refl

pub check_boot_mode_lem : (c : Config) → c.is_64bit_boot ≡ false → check_boot_mode c ≡ ok tt
unfolding check_boot_mode
check_boot_mode_lem c h = rw h refl

pub load_kernel_lem :
    (kernel : List ℕ) (h : SetupHeader) (ram : Ram)
    → h.setup_sects ≡ (checked_header kernel).setup_sects
    → kernel_offset kernel ≤ length kernel
    → 0x10_0000 + (length kernel - kernel_offset kernel) ≤ ram.size
    → load_kernel (some kernel) h ram
      ≡ ok (record ram { byte = place ram.byte 0x10_0000 (drop (kernel_offset kernel) kernel) })
unfolding load_kernel kernel_offset
load_kernel_lem kernel h ram e p q =
    let o : (h.setup_sects + 1) * 512 ≡ kernel_offset kernel = ap (λ n. (n + 1) * 512) e in
    let l : ltb (length kernel) (kernel_offset kernel) ≡ false =
      ltb_ge (length kernel) (kernel_offset kernel) p in
    let f =
      copy_to_fits ram 0x10_0000 (drop (kernel_offset kernel) kernel)
        (omega (arith, length-drop (kernel_offset kernel) kernel)) in
    rw (o, l, f) refl

pub length-params :
    (c : Config) (n : ℕ) (h : SetupHeader) → length (boot_params_bytes (params_for c n h)) ≡ 0xcd0
unfolding boot_params_bytes header_bytes words_bytes e820map_bytes e820entry_bytes
length-params c n h = refl

pub load_header_failed :
    (kernel : List ℕ) (ram : Ram)
    → (length kernel < 0x26c) ⊎ ((header_of kernel).header ≢ boot_hdr_magic)
    → load_header (some kernel) ram ≡ failed ram
unfolding load_header is_valid
load_header_failed kernel ram h = elim (Bool-cases (ltb (length kernel) 0x26c)) [
  | inl l ↦ rw l refl
  | inr l ↦
      let m : ((header_of kernel).header == boot_hdr_magic) ≡ false = elim h [
        | inl g ↦ absurd (ground arith)
        | inr g ↦ ground (arith, ==_iff (header_of kernel).header boot_hdr_magic)
      ] in
      rw (l, m) refl
]
