-- ===== src/Program/Reaches.antt =====
-- What `main` has found when it boots the machine.
use lvmm.Base.{ℕ, ◌≤◌, ◌≡◌, List, length, some, Option, false, Bool, is_neg, is_nonzero}
use lvmm.Ioctl.{result, IsSound}
use lvmm.Cpufeat.{cpu_supports_vm}
use lvmm.Kvm.{cap_max_vcpus, Kvm, construct_kvm}
use lvmm.Boot.{init_ram-ok, Ram, header_of, kernel_offset, boot_hdr_magic}
use lvmm.Setup.{Setup, init_machine, start}
use lvmm.Program.Defs.{
  Host, reaches, attempted, get_kvm_fd, return_if, is_kernel_elf, vm_conf, main_cmdline,
  create_vm_of, init_ram_of, start_machine,
}
use lvmm.Program.Inversion.{
  reaches-bind, attempted-reaches, construct_kvm-made, return_if-reaches, get_kvm_fd-opened,
  construct_vm-reaches, vm_made-reaches, kvm_create_vm-some, init_ram_of-reaches,
}

-- What the host and the files are like.
pub record Found (h : Host) : Type 0 where
  pub opens : (fd : ℕ) × (h.open_kvm ≡ result fd)
  pub known_cpu : (b : Bool) × (cpu_supports_vm h.cpuid ≡ some b)
  pub limit : (n : ℕ) × (h.caps cap_max_vcpus ≡ result n) × (1 ≤ n)
  pub creates : (fd : ℕ) × (h.create_vm ≡ result fd)
  pub kernel : List ℕ
  pub initramfs : List ℕ
  pub has_kernel : h.kernel_file ≡ some kernel
  pub has_initramfs : h.initramfs_file ≡ some initramfs
  pub no_elf : is_kernel_elf h.buf kernel ≡ false
  pub has_header : 0x26c ≤ length kernel
  pub magic : (header_of kernel).header ≡ boot_hdr_magic
  pub has_image : kernel_offset kernel ≤ length kernel

found :
    (h : Host) (u : Unit) (kvm : Kvm) (files : List ℕ × List ℕ) (o : Option Ram) (r : Ram)
    → IsSound h.open_kvm
    → return_if (is_neg (get_kvm_fd h.open_kvm)) ≡ reaches u
    → attempted (construct_kvm (cpu_supports_vm h.cpuid) h.api_version h.caps h.mmap_size)
      ≡ reaches kvm
    → create_vm_of h kvm ≡ reaches files
    → init_ram_of files.0 files.1 o ≡ reaches r
    → Found h
unfolding create_vm_of
found h u kvm files o r sound e1 e2 e3 e6 =
    let (cpu, limited) = construct_kvm-made _ _ h.caps _ kvm (attempted-reaches _ kvm e2) in
    let (created, constructed) = vm_made-reaches h _ _ files e3 in
    let (there, allowed) = kvm_create_vm-some kvm.cap 1 h.create_vm created.0 created.1 in
    let (is_kernel, is_initramfs, plain) =
      construct_vm-reaches h.buf h.kernel_file h.initramfs_file files constructed in
    let (ram, loaded) = init_ram_of-reaches files.0 files.1 o r e6 in
    let accepted = init_ram-ok vm_conf (some files.1) (some files.0) main_cmdline ram r loaded in
    let same : accepted.kernel ≡ files.0 = cc accepted.has_kernel in
    record {
      opens = get_kvm_fd-opened h.open_kvm sound (return_if-reaches _ u e1);
      known_cpu = cpu;
      limit = (kvm.cap.hard_vcpus_limit, limited, allowed);
      creates = (created.0, there);
      kernel = files.0;
      initramfs = files.1;
      has_kernel = is_kernel;
      has_initramfs = is_initramfs;
      no_elf = plain;
      has_header = rw⁻¹ same accepted.has_header;
      magic = rw⁻¹ same accepted.magic;
      has_image = rw⁻¹ same accepted.has_image;
    }

-- When `open` fails with a positive error number: main reaches the call of Boot only where /dev/kvm
-- was opened, CPUID names a known vendor, KVM allows a vCPU and has made the machine, both files were
-- opened, the kernel is no ELF file, and its image is longer than its header, has the magic number
-- there, and does not end within its setup sectors.
pub start_machine-Found :
    (h : Host) (booted : Setup × Ram)
    → IsSound h.open_kvm
    → start_machine h ≡ reaches booted
    → Found h
unfolding start_machine create_vm_of
start_machine-Found h booted sound e =
    reaches-bind (return_if (is_neg (get_kvm_fd h.open_kvm))) e (λ u e1 h1.
      reaches-bind
        (attempted (construct_kvm (cpu_supports_vm h.cpuid) h.api_version h.caps h.mmap_size)) h1
        (λ kvm e2 h2. reaches-bind (create_vm_of h kvm) h2 (λ files e3 h3.
          reaches-bind (attempted (init_machine vm_conf h.kernel (start h.table))) h3
            (λ machine e4 h4. reaches-bind (return_if (is_nonzero machine.1)) h4 (λ u' e5 h5.
              reaches-bind (init_ram_of files.0 files.1 machine.0.ram) h5
                (λ ram e6 h6. found h u kvm files machine.0.ram ram sound e1 e2 e3 e6))))))
