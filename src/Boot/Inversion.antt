-- ===== src/Boot/Inversion.antt =====
-- What initRAM has found when it returns 0.
use lvmm.Base.{
  ℕ, ◌+◌, ◌*◌, ◌≤◌, ◌≡◌, refl, sym, ap, ◌∙◌, List, length, none, some, Bool, false, true,
  if◌then◌else◌, ltb, leb, ◌==◌, ==_iff, arith, is_nonzero, pos,
}
use lvmm.Boot.Header.{SetupHeader, boot_hdr_magic, is_valid}
use lvmm.Boot.Params.{BootParams, boot_params_bytes}
use lvmm.Boot.Memory.{Ram, place, copy_to}
use lvmm.Boot.E820.{params_for, boot_params_of_lem}
use lvmm.Boot.Load.{
  Config, File, Loading, ok, failed, ◌>>=◌, bounded, put_ebda, load_initramfs, put_cmdline,
  load_header, load_kernel, check_boot_mode, boot_params_of, init_ram, set_header,
}
use lvmm.Mp.{gen_ebda, ebda_bytes}
use lvmm.Boot.Steps.{header_of, checked_header, kernel_offset}

-- A chain that ends with a value has been through each of its steps.
ok-bind {ℓ} :
    {P : Type ℓ} {A B : Type 0} (o : Loading A) {f : A → Loading B} {b : B}
    → (o >>= f) ≡ ok b
    → ((a : A) → o ≡ ok a → f a ≡ ok b → P)
    → P
ok-bind (ok a) h k = k a refl h
ok-bind (failed ram) h k = cc h
ok-bind Loading.fault h k = cc h

ok-else :
    {A : Type 0} (c : Bool) (ram : Ram) (o : Loading A) (a : A)
    → (if c then failed ram else o) ≡ ok a
    → (c ≡ false) × (o ≡ ok a)
ok-else true ram o a h = cc h
ok-else false ram o a h = (refl, h)

ok-then :
    {A : Type 0} (c : Bool) (ram : Ram) (o : Loading A) (a : A)
    → (if c then o else failed ram) ≡ ok a
    → (c ≡ true) × (o ≡ ok a)
ok-then true ram o a h = (refl, h)
ok-then false ram o a h = cc h

bounded-then :
    {A : Type 0} (c : Bool) (x a : A)
    → bounded (if c then some x else none) ≡ ok a
    → (c ≡ true) × (x ≡ a)
bounded-then true x a h = (refl, cc h)
bounded-then false x a h = cc h

copy_to-bounds :
    (ram : Ram) (at : ℕ) (bs : List ℕ) (r : Ram)
    → bounded (copy_to ram at bs) ≡ ok r
    → (at + length bs ≤ ram.size) × (r.size ≡ ram.size)
unfolding copy_to
copy_to-bounds ram at bs r h =
    let (inside, same) =
      bounded-then (leb (at + length bs) ram.size) (record ram { byte = place ram.byte at bs }) r
        h in
    (ground (arith, inside), ap (λ m. m.size) (sym same))

nonzero-if : (c : Bool) → is_nonzero (if c then pos 1 else pos 0) ≡ true → c ≡ true
nonzero-if true h = refl
nonzero-if false h = h

is_valid-magic : (h : SetupHeader) → is_nonzero (is_valid h) ≡ true → h.header ≡ boot_hdr_magic
unfolding is_valid
is_valid-magic h e = (==_iff h.header boot_hdr_magic).0 (nonzero-if (h.header == boot_hdr_magic) e)

load_header-ok :
    (file : File) (ram : Ram) (h : SetupHeader)
    → load_header file ram ≡ ok h
    → (kernel : List ℕ) × (file ≡ some kernel)
      × (0x26c ≤ length kernel)
      × ((header_of kernel).header ≡ boot_hdr_magic)
      × (h ≡ checked_header kernel)
unfolding load_header is_valid checked_header
load_header-ok none ram h e = cc e
load_header-ok (some kernel) ram h e =
    let (long, rest) = ok-else (ltb (length kernel) 0x26c) ram _ h e in
    let (valid, same) = ok-then (is_nonzero (is_valid (header_of kernel))) ram _ h rest in
    (kernel, refl, ground (arith, long), is_valid-magic (header_of kernel) valid, cc same)

load_kernel-ok :
    (kernel : List ℕ) (h : SetupHeader) (ram r : Ram)
    → load_kernel (some kernel) h ram ≡ ok r
    → (h.setup_sects + 1) * 512 ≤ length kernel
unfolding load_kernel
load_kernel-ok kernel h ram r e =
    let (long, rest) = ok-else (ltb (length kernel) ((h.setup_sects + 1) * 512)) ram _ r e in
    ground (arith, long)

load_initramfs-ok :
    (file : File) (ram : Ram) (r : Ram × ℕ)
    → load_initramfs file ram ≡ ok r
    → (initramfs : List ℕ) × (file ≡ some initramfs)
      × (0xf00_0000 + length initramfs ≤ ram.size)
      × (r.0.size ≡ ram.size)
unfolding load_initramfs
load_initramfs-ok none ram r e = cc e
load_initramfs-ok (some bytes) ram r e =
    ok-bind (bounded (copy_to ram 0xf00_0000 bytes)) e (λ ram' copied same.
      let (inside, size) = copy_to-bounds ram 0xf00_0000 bytes ram' copied in
      let here : ram' ≡ r.0 = cc same in (bytes, refl, inside, ap (λ m. m.size) (sym here) ∙ size))

put_ebda-size : (c : Config) (ram r : Ram) → put_ebda c ram ≡ ok r → r.size ≡ ram.size
unfolding put_ebda
put_ebda-size c ram r e =
    ok-bind (bounded (gen_ebda c.vcpu_num)) e
      (λ ebda there rest. (copy_to-bounds ram 0x9_fc00 (ebda_bytes ebda) r rest).1)

ok-unless : (c : Bool) (u : Unit) → (if c then Loading.fault else ok tt) ≡ ok u → c ≡ false
ok-unless true u h = cc h
ok-unless false u h = refl

check_boot_mode-ok : (c : Config) (u : Unit) → check_boot_mode c ≡ ok u → c.is_64bit_boot ≡ false
unfolding check_boot_mode
check_boot_mode-ok c u e = ok-unless c.is_64bit_boot u e

sects_kept :
    (c : Config) (n : ℕ) (h : SetupHeader) (bp : BootParams)
    → bounded (boot_params_of c n h) ≡ ok bp
    → bp.header.setup_sects ≡ h.setup_sects
unfolding set_header
sects_kept c n h bp e =
    let same : params_for c n h ≡ bp = cc (e, boot_params_of_lem c n h) in
    ap (λ p. p.header.setup_sects) (sym same)

-- Files that initRAM can have loaded.
pub record Accepted (c : Config) (initramfs_file kernel_file : File) (ram : Ram) : Type 0 where
  pub initramfs : List ℕ
  pub kernel : List ℕ
  pub has_initramfs : initramfs_file ≡ some initramfs
  pub has_kernel : kernel_file ≡ some kernel
  pub mode : c.is_64bit_boot ≡ false
  pub initramfs_fits : 0xf00_0000 + length initramfs ≤ ram.size
  pub has_header : 0x26c ≤ length kernel
  pub magic : (header_of kernel).header ≡ boot_hdr_magic
  pub has_image : kernel_offset kernel ≤ length kernel

accepted :
    (c : Config) (initramfs_file kernel_file : File) (ram ram1 ram2 ram3 r : Ram) (loaded : Ram × ℕ)
    (header : SetupHeader) (bp : BootParams) (u : Unit)
    → put_ebda c ram ≡ ok ram1
    → load_initramfs initramfs_file ram1 ≡ ok loaded
    → load_header kernel_file ram2 ≡ ok header
    → bounded (boot_params_of c loaded.1 header) ≡ ok bp
    → check_boot_mode c ≡ ok u
    → load_kernel kernel_file bp.header ram3 ≡ ok r
    → Accepted c initramfs_file kernel_file ram
unfolding kernel_offset
accepted c initramfs_file kernel_file ram ram1 ram2 ram3 r loaded header bp u e1 e2 e4 e5 e7 f7 =
    let (initramfs, is_initramfs, inside, _) = load_initramfs-ok initramfs_file ram1 loaded e2 in
    let (kernel, is_kernel, long, magic, same) = load_header-ok kernel_file ram2 header e4 in
    let sects = sects_kept c loaded.1 header bp e5 ∙ ap (λ x. x.setup_sects) same in
    let fits =
      load_kernel-ok kernel bp.header ram3 r
        (ap (λ f. load_kernel f bp.header ram3) (sym is_kernel) ∙ f7) in
    record {
      initramfs = initramfs;
      kernel = kernel;
      has_initramfs = is_initramfs;
      has_kernel = is_kernel;
      mode = check_boot_mode-ok c u e7;
      initramfs_fits = omega (arith, inside, put_ebda-size c ram ram1 e1);
      has_header = long;
      magic = magic;
      has_image = omega (arith, fits, sects);
    }

-- Whatever the files are: where initRAM returns 0, both were opened, the boot is one of 32 bits, the
-- initramfs ends inside the memory, and the kernel image is longer than its header, has the magic
-- number there, and does not end within its setup sectors.
pub init_ram-ok :
    (c : Config) (initramfs_file kernel_file : File) (cmdline : List ℕ) (ram r : Ram)
    → init_ram c initramfs_file kernel_file cmdline ram ≡ ok r
    → Accepted c initramfs_file kernel_file ram
unfolding init_ram
init_ram-ok c initramfs_file kernel_file cmdline ram r e = ok-bind (put_ebda c ram) e (λ ram1 e1 f1.
    ok-bind (load_initramfs initramfs_file ram1) f1 (λ loaded e2 f2.
      ok-bind (put_cmdline cmdline loaded.0) f2 (λ ram2 e3 f3.
        ok-bind (load_header kernel_file ram2) f3 (λ header e4 f4.
          ok-bind (bounded (boot_params_of c loaded.1 header)) f4 (λ bp e5 f5.
            ok-bind (bounded (copy_to ram2 0x1_0000 (boot_params_bytes bp))) f5 (λ ram3 e6 f6.
              ok-bind (check_boot_mode c) f6 (λ u e7 f7.
                accepted c initramfs_file kernel_file ram ram1 ram2 ram3 r loaded header bp u e1 e2
                  e4 e5 e7 f7)))))))
