-- ===== src/Boot/Regions.antt =====
-- Where the parts of the boot image end up in guest memory.
use lvmm.Base.{
  ℕ, ◌+◌, ◌-◌, ◌≤◌, ◌<◌, ◌≡◌, refl, sym, ap, ◌∙◌, inl, inr, ◌⊎◌, ◌≢◌, List, [], ◌∷◌, ◌++◌, some,
  length, length-append, length-drop, drop, arith,
}
use lvmm.Boot.Header.{boot_hdr_magic}
use lvmm.Boot.Params.{BootParams, boot_params_bytes}
use lvmm.Boot.Memory.{Ram, place, place-miss, load, load-miss, load-place, copy_to_fits}
use lvmm.Boot.Load.{Config, ok, failed, init_ram, set_header, boot_params_of}
use lvmm.Boot.E820.{params_for, boot_params_of_lem}
use lvmm.Boot.Steps.{
  IsBootable, header_of, load_header_failed, checked_header, kernel_offset, put_ebda_lem,
  load_initramfs_lem, put_cmdline_lem, load_header_lem, check_boot_mode_lem, load_kernel_lem,
  length-params,
}
use lvmm.Mp.{Ebda, gen_ebda, ebda_bytes, ebda_for, gen_ebda_lem, length-ebda_bytes}

-- Guest memory behind each step.
module _ (c : Config) (initramfs kernel cmdline : List ℕ) (ram : Ram) where
  abbrev bp : BootParams
  bp = params_for c (length initramfs) (checked_header kernel)

  abbrev image : List ℕ
  image = drop (kernel_offset kernel) kernel

  abbrev mem1 : ℕ → ℕ
  mem1 = place ram.byte 0x9_fc00 (ebda_bytes (ebda_for c.vcpu_num))

  abbrev mem2 : ℕ → ℕ
  mem2 = place mem1 0xf00_0000 initramfs

  abbrev mem3 : ℕ → ℕ
  mem3 = place mem2 0x2_0000 (cmdline ++ 0 ∷ [])

  abbrev mem4 : ℕ → ℕ
  mem4 = place mem3 0x1_0000 (boot_params_bytes bp)

  abbrev mem5 : ℕ → ℕ
  mem5 = place mem4 0x10_0000 image

  untouched :
      (a : ℕ)
      → length cmdline < 0x7_fc00
      → (a < 0x2_0000) ⊎ (0xa_0000 ≤ a) × (a < 0xf00_0000)
      → mem3 a ≡ ram.byte a
  untouched a g h =
      place-miss mem2 0x2_0000 (cmdline ++ 0 ∷ []) a
        (ground (arith, length-append cmdline (0 ∷ [])))
      ∙ place-miss mem1 0xf00_0000 initramfs a (ground arith)
      ∙ place-miss ram.byte 0x9_fc00 (ebda_bytes (ebda_for c.vcpu_num)) a
          (ground (arith, length-ebda_bytes c.vcpu_num))

  sects : bp.header.setup_sects ≡ (checked_header kernel).setup_sects
  unfolding set_header
  sects = refl

  module _ (h : IsBootable c initramfs kernel cmdline ram) where
    init_ram_ok :
        init_ram c (some initramfs) (some kernel) cmdline ram ≡ ok (record ram { byte = mem5 })
    unfolding init_ram
    init_ram_ok =
        let e1 = put_ebda_lem c ram h.few_vcpus (omega (arith, h.mapped, h.initramfs_fits)) in
        let e2 =
          load_initramfs_lem initramfs (record ram { byte = mem1 })
            (omega (arith, h.mapped, h.initramfs_fits)) in
        let e3 =
          put_cmdline_lem cmdline (record ram { byte = mem2 })
            (omega (arith, h.mapped, h.initramfs_fits, h.cmdline_fits)) in
        let e4 = load_header_lem kernel (record ram { byte = mem3 }) h.has_header h.magic in
        let e5 = boot_params_of_lem c (length initramfs) (checked_header kernel) in
        let e6 =
          copy_to_fits (record ram { byte = mem3 }) 0x1_0000 (boot_params_bytes bp)
            (omega (
              arith,
              h.mapped,
              h.initramfs_fits,
              length-params c (length initramfs) (checked_header kernel),
            )) in
        let e7 = check_boot_mode_lem c h.mode in
        let e8 =
          load_kernel_lem kernel bp.header (record ram { byte = mem4 }) sects h.has_kernel
            (omega (arith, h.mapped, h.initramfs_fits, h.kernel_fits)) in
        rw (e1, e2, e3, e4, e5, e6, e7, e8) refl

    length-image : length image ≡ length kernel - kernel_offset kernel
    length-image = length-drop (kernel_offset kernel) kernel

    length-params_here : length (boot_params_bytes bp) ≡ 0xcd0
    length-params_here = length-params c (length initramfs) (checked_header kernel)

    length-cmdline : length (cmdline ++ 0 ∷ []) ≡ length cmdline + 1
    length-cmdline = length-append cmdline (0 ∷ [])

    -- A region that the kernel image and the boot parameters leave alone.
    over_kernel :
        (from n : ℕ)
        → (from + n ≤ 0x10_0000) ⊎ (0xf00_0000 ≤ from)
        → load mem5 from n ≡ load mem4 from n
    over_kernel from n g =
        load-miss mem4 0x10_0000 image from n (ground (arith, length-image, h.kernel_fits))

    over_params : (from n : ℕ) → 0x2_0000 ≤ from → load mem4 from n ≡ load mem3 from n
    over_params from n g =
        load-miss mem3 0x1_0000 (boot_params_bytes bp) from n
          (inr (omega (arith, length-params_here)))

    over_cmdline : (from n : ℕ) → 0x9_fc00 ≤ from → load mem3 from n ≡ load mem2 from n
    over_cmdline from n g =
        load-miss mem2 0x2_0000 (cmdline ++ 0 ∷ []) from n
          (inr (omega (arith, length-cmdline, h.cmdline_fits)))

    has_image : load mem5 0x10_0000 (length kernel - kernel_offset kernel) ≡ image
    has_image = ap (load mem5 0x10_0000) (sym length-image) ∙ load-place mem4 0x10_0000 image

    has_initramfs : load mem5 0xf00_0000 (length initramfs) ≡ initramfs
    has_initramfs =
        over_kernel 0xf00_0000 (length initramfs) (inr (omega arith))
        ∙ over_params 0xf00_0000 (length initramfs) (omega arith)
        ∙ over_cmdline 0xf00_0000 (length initramfs) (omega arith)
        ∙ load-place mem1 0xf00_0000 initramfs

    has_cmdline : load mem5 0x2_0000 (length cmdline + 1) ≡ cmdline ++ 0 ∷ []
    has_cmdline =
        over_kernel 0x2_0000 (length cmdline + 1) (inl (omega (arith, h.cmdline_fits)))
        ∙ over_params 0x2_0000 (length cmdline + 1) (omega arith)
        ∙ ap (load mem3 0x2_0000) (sym length-cmdline)
        ∙ load-place mem2 0x2_0000 (cmdline ++ 0 ∷ [])

    has_ebda : load mem5 0x9_fc00 748 ≡ ebda_bytes (ebda_for c.vcpu_num)
    has_ebda =
        over_kernel 0x9_fc00 748 (inl (omega arith))
        ∙ over_params 0x9_fc00 748 (omega arith)
        ∙ over_cmdline 0x9_fc00 748 (omega arith)
        ∙ load-miss mem1 0xf00_0000 initramfs 0x9_fc00 748 (inl (omega arith))
        ∙ ap (load mem1 0x9_fc00) (sym (length-ebda_bytes c.vcpu_num))
        ∙ load-place ram.byte 0x9_fc00 (ebda_bytes (ebda_for c.vcpu_num))

    has_params : load mem5 0x1_0000 0xcd0 ≡ boot_params_bytes bp
    has_params =
        over_kernel 0x1_0000 0xcd0 (inl (omega arith))
        ∙ ap (load mem4 0x1_0000) (sym length-params_here)
        ∙ load-place mem3 0x1_0000 (boot_params_bytes bp)

    -- In a 32-bit boot of at most 32 vCPUs, with a kernel image that has a valid header and a part
    -- behind its setup sectors that ends below the initramfs, an initramfs inside the memory and a
    -- command line below 0x9FC00, initRAM returns 0, and guest memory then holds, none over
    -- another, the kernel behind its setup sectors at 1 MiB, the initramfs at 0xF000000, the
    -- command line with its terminating 0 at 0x20000, the processor tables at 0x9FC00, and the boot
    -- parameters, with the checked header, at 0x10000.
    pub init_ram-load :
        (r : Ram) × (init_ram c (some initramfs) (some kernel) cmdline ram ≡ ok r)
        × (load r.byte 0x10_0000 (length kernel - kernel_offset kernel)
            ≡ drop (kernel_offset kernel) kernel)
        × (load r.byte 0xf00_0000 (length initramfs) ≡ initramfs)
        × (load r.byte 0x2_0000 (length cmdline + 1) ≡ cmdline ++ 0 ∷ [])
        × ((e : Ebda) × (gen_ebda c.vcpu_num ≡ some e) × (load r.byte 0x9_fc00 748 ≡ ebda_bytes e))
        × ((p : BootParams) × (boot_params_of c (length initramfs) (checked_header kernel) ≡ some p)
            × (load r.byte 0x1_0000 0xcd0 ≡ boot_params_bytes p))
    init_ram-load = (
      record ram { byte = mem5 },
      init_ram_ok,
      has_image,
      has_initramfs,
      has_cmdline,
      (ebda_for c.vcpu_num, gen_ebda_lem c.vcpu_num h.few_vcpus, has_ebda),
      (bp, boot_params_of_lem c (length initramfs) (checked_header kernel), has_params),
    )

-- With at most 32 vCPUs, an initramfs inside the memory and a command line below 0x9FC00: when the
-- kernel image ends inside the header, or the header has not the magic number, initRAM returns 1,
-- and guest memory is as it was from 1 MiB up to 0xF000000 and below 0x20000.
pub init_ram-invalid :
    (c : Config) (initramfs kernel cmdline : List ℕ) (ram : Ram)
    → c.vcpu_num ≤ 32
    → 0xf00_0000 + length initramfs ≤ ram.size
    → 0x2_0000 + length cmdline < 0x9_fc00
    → (length kernel < 0x26c) ⊎ ((header_of kernel).header ≢ boot_hdr_magic)
    → (r : Ram) × (init_ram c (some initramfs) (some kernel) cmdline ram ≡ failed r)
      × ((a : ℕ) → 0x10_0000 ≤ a → a < 0xf00_0000 → r.byte a ≡ ram.byte a)
      × ((a : ℕ) → a < 0x2_0000 → r.byte a ≡ ram.byte a)
unfolding init_ram
init_ram-invalid c initramfs kernel cmdline ram v p q h =
    let e1 = put_ebda_lem c ram v (omega arith) in
    let e2 =
      load_initramfs_lem initramfs (record ram { byte = mem1 c initramfs kernel cmdline ram })
        (omega arith) in
    let e3 =
      put_cmdline_lem cmdline (record ram { byte = mem2 c initramfs kernel cmdline ram })
        (omega arith) in
    let e4 =
      load_header_failed kernel (record ram { byte = mem3 c initramfs kernel cmdline ram }) h in
    (
      record ram { byte = mem3 c initramfs kernel cmdline ram },
      rw (e1, e2, e3, e4) refl,
      λ a x y. untouched c initramfs kernel cmdline ram a (omega arith) (inr (omega arith, y)),
      λ a x. untouched c initramfs kernel cmdline ram a (omega arith) (inl x),
    )
