-- ===== src/Boot/Refines.antt =====
-- `initRAM` over the streams does what `init_ram` does on the files' bytes.
use lvmm.Base.{
  ℕ, ◌≤◌, ◌<◌, ◌≡◌, refl, ap, ◌∙◌, List, some, Bool-cases, inl, inr, ltb, ltb→lt, length, arith,
}
use lvmm.Boot.Header.{SetupHeader}
use lvmm.Boot.Memory.{Ram, copy_to}
use lvmm.Boot.Params.{boot_params_bytes}
use lvmm.Boot.Load.{
  Config, Loading, ok, failed, fault, ◌>>=◌, put_ebda, put_cmdline, load_initramfs, load_header,
  load_kernel, init_ram, bounded, boot_params_of, boot_params_addr, check_boot_mode,
}
use lvmm.Boot.Streams.{Ifs, opened, after_elf_test, stream_header, stream_kernel, init_ram_streams}
use lvmm.Boot.Reads.{
  at, stream_initramfs-opened, stream_header-at, stream_kernel-at, after_elf_test-long,
  after_elf_test-short, stream_header-bad, load_header-short,
}

>>=-ext :
    {A B : Type 0} (o : Loading A) (f g : A → Loading B)
    → ((a : A) → f a ≡ g a)
    → (o >>= f) ≡ (o >>= g)
>>=-ext (ok a) f g h = h a
>>=-ext (failed ram) f g h = refl
>>=-ext fault f g h = refl

>>=-paired :
    {A B C : Type 0} (o : Loading A) (c : C) (f : A × C → Loading B)
    → ((o >>= λ a. ok (a, c)) >>= f) ≡ (o >>= λ a. f (a, c))
>>=-paired (ok a) c f = refl
>>=-paired (failed ram) c f = refl
>>=-paired fault c f = refl

-- The steps on the kernel, from its header on, followed by any that use the header.
from_header :
    (bytes : List ℕ) (ram : Ram) (f : SetupHeader × Ifs → Loading Ram)
    (g : SetupHeader → Loading Ram)
    → ((h : SetupHeader) → f (h, at bytes 0) ≡ g h)
    → (stream_header (after_elf_test (opened bytes)) ram >>= f)
      ≡ (load_header (some bytes) ram >>= g)
from_header bytes ram f g same = elim (Bool-cases (ltb (length bytes) 4)) [
  | inl short ↦
      let few : length bytes < 4 = ltb→lt _ _ short in
      rw
        (
          after_elf_test-short bytes few,
          stream_header-bad bytes (length bytes) ram,
          load_header-short bytes ram few,
        )
        refl
  | inr long ↦
      let enough : 4 ≤ length bytes = ground arith in
      rw (after_elf_test-long bytes enough, stream_header-at bytes 0 ram)
        (>>=-paired (load_header (some bytes) ram) (at bytes 0) f
          ∙ >>=-ext (load_header (some bytes) ram) (λ h. f (h, at bytes 0)) g same)
]

-- `initRAM` behind the header, and behind the initramfs.
abbrev behind_header : Config → ℕ → Ram → SetupHeader × Ifs → Loading Ram
behind_header c ramdisk_size ram2 header = do
  bp ← bounded (boot_params_of c ramdisk_size header.0)
  ram3 ← bounded (copy_to ram2 boot_params_addr (boot_params_bytes bp))
  _ ← check_boot_mode c
  stream_kernel header.1 bp.header ram3

abbrev behind_initramfs : Config → Ifs → List ℕ → Ram × ℕ → Loading Ram
behind_initramfs c kernel cmdline loaded = do
  ram2 ← put_cmdline cmdline loaded.0
  header ← stream_header kernel ram2
  behind_header c loaded.1 ram2 header

behind_header-at :
    (c : Config) (size : ℕ) (ram2 : Ram) (kernel : List ℕ) (h : SetupHeader)
    → behind_header c size ram2 (h, at kernel 0) ≡ (
        bounded (boot_params_of c size h) >>= λ bp.
        bounded (copy_to ram2 boot_params_addr (boot_params_bytes bp)) >>= λ ram3.
        check_boot_mode c >>= λ mode. load_kernel (some kernel) bp.header ram3)
behind_header-at c size ram2 kernel h = >>=-ext (bounded (boot_params_of c size h)) _ _ (λ bp.
    >>=-ext (bounded (copy_to ram2 boot_params_addr (boot_params_bytes bp))) _ _
      (λ ram3. >>=-ext (check_boot_mode c) _ _ (λ mode. stream_kernel-at kernel 0 bp.header ram3)))

-- Over the two streams as the constructor of VM leaves them, with the test of the ELF magic behind
-- the kernel's, initRAM does what it does on the bytes of the two files, also where a file is too
-- short for a read.
pub init_ram_streams-init_ram :
    (c : Config) (initramfs kernel cmdline : List ℕ) (ram : Ram)
    → init_ram_streams c (opened initramfs) (after_elf_test (opened kernel)) cmdline ram
      ≡ init_ram c (some initramfs) (some kernel) cmdline ram
unfolding init_ram_streams init_ram
init_ram_streams-init_ram c initramfs kernel cmdline ram =
    let k = after_elf_test (opened kernel) in
    >>=-ext (put_ebda c ram) _ _ (λ ram1.
      ap (λ o. o >>= behind_initramfs c k cmdline) (stream_initramfs-opened initramfs ram1)
      ∙ >>=-ext (load_initramfs (some initramfs) ram1) (behind_initramfs c k cmdline) _ (λ loaded.
        >>=-ext (put_cmdline cmdline loaded.0) _ _ (λ ram2.
          from_header kernel ram2 (behind_header c loaded.1 ram2) _
            (behind_header-at c loaded.1 ram2 kernel))))
