-- ===== src/Program/Steps.antt =====
-- What each step of `main` does where the host answers it.
use lvmm.Base.{ℕ, ◌≤◌, ◌≡◌, refl, ap, List, some, Option, Bool, false, pos, ltb, ltb_ge, arith}
use lvmm.Ioctl.{result, made}
use lvmm.Cpufeat.{cpu_supports_vm}
use lvmm.Kvm.{
  Capability, cap_immediate_exit, cap_nr_memslots, cap_multi_address_space, cap_nr_vcpus,
  cap_max_vcpus, cap_coalesced_mmio, Kvm, asked, construct_kvm, kvm_cap_check, ask_caps,
  kvm_create_vm,
}
use lvmm.Boot.{Ram, ok, init_ram}
use lvmm.Setup.{Works, AlsoRegisters, init_machine, init_machine_lem, start, ready_setup, zeros}
use lvmm.Program.Defs.{
  Host, reaches, attempted, construct_vm, create_vm_of, vm_made, init_ram_of, vm_conf, main_cmdline,
  is_kernel_elf, start_machine,
}

-- A host whose processor CPUID names, with KVM, on which every call succeeds.
pub record IsWorking (h : Host) : Type 0 where
  pub opens : (r : ℕ) × (h.open_kvm ≡ result r)
  pub known_cpu : (b : Bool) × (cpu_supports_vm h.cpuid ≡ some b)
  pub has_version : (r : ℕ) × (h.api_version ≡ result r)
  pub has_caps : (c : Capability) → (r : ℕ) × (h.caps c ≡ result r)
  pub allows_one : 1 ≤ (has_caps cap_max_vcpus).0
  pub has_size : (r : ℕ) × (h.mmap_size ≡ result r)
  pub creates : (r : ℕ) × (h.create_vm ≡ result r)
  pub works : Works h.kernel
  pub sets_registers : AlsoRegisters h.kernel

module _ (h : Host) (w : IsWorking h) where
  abbrev pub limits : Capability → ℕ
  limits c = (w.has_caps c).0

  pub construct_kvm_lem :
      (kvm : Kvm) × (construct_kvm (cpu_supports_vm h.cpuid) h.api_version h.caps h.mmap_size
        ≡ made kvm)
      × (kvm.cap.hard_vcpus_limit ≡ limits cap_max_vcpus)
  unfolding construct_kvm asked kvm_cap_check ask_caps
  construct_kvm_lem = (
    record { api_ver = w.has_version.0; cap = kvm_cap_check limits; mmap_size = w.has_size.0 },
    rw
        (
          w.known_cpu.1,
          w.has_version.1,
          (w.has_caps cap_immediate_exit).1,
          (w.has_caps cap_nr_memslots).1,
          (w.has_caps cap_multi_address_space).1,
          (w.has_caps cap_nr_vcpus).1,
          (w.has_caps cap_max_vcpus).1,
          (w.has_caps cap_coalesced_mmio).1,
          w.has_size.1,
        )
        refl,
    refl,
  )

  pub create_vm_of_lem :
      (kvm : Kvm) (kernel initramfs : List ℕ)
      → kvm.cap.hard_vcpus_limit ≡ limits cap_max_vcpus
      → h.kernel_file ≡ some kernel
      → h.initramfs_file ≡ some initramfs
      → is_kernel_elf h.buf kernel ≡ false
      → create_vm_of h kvm ≡ reaches (kernel, initramfs)
  unfolding create_vm_of vm_made construct_vm kvm_create_vm
  create_vm_of_lem kvm kernel initramfs limit k i e =
      let enough : ltb kvm.cap.hard_vcpus_limit 1 ≡ false =
        ltb_ge kvm.cap.hard_vcpus_limit 1 (omega (arith, limit, w.allows_one)) in
      let fd = w.creates.0 in
      let created : kvm_create_vm kvm.cap 1 h.create_vm ≡ (some fd, pos fd) =
        rw (w.creates.1, enough) refl in
      rw (created, create_vm_of, vm_made, k, i, e) refl

  init_machine_made :
      attempted (init_machine vm_conf h.kernel (start h.table))
      ≡ reaches (ready_setup vm_conf h.kernel h.table, pos 0)
  init_machine_made =
      ap attempted (init_machine_lem vm_conf h.kernel h.table refl w.works w.sets_registers)

pub init_ram_of_lem :
    (kernel initramfs : List ℕ) (o : Option Ram) (ram loaded : Ram)
    → o ≡ some ram
    → init_ram vm_conf (some initramfs) (some kernel) main_cmdline ram ≡ ok loaded
    → init_ram_of kernel initramfs o ≡ reaches loaded
unfolding init_ram_of
init_ram_of_lem kernel initramfs o ram loaded e f = rw (e, init_ram_of, f) refl

-- The steps one after another.
pub start_machine_lem :
    (h : Host) (kernel initramfs : List ℕ) (loaded : Ram)
    → IsWorking h
    → h.kernel_file ≡ some kernel
    → h.initramfs_file ≡ some initramfs
    → is_kernel_elf h.buf kernel ≡ false
    → init_ram vm_conf (some initramfs) (some kernel) main_cmdline (zeros vm_conf) ≡ ok loaded
    → start_machine h ≡ reaches (ready_setup vm_conf h.kernel h.table, loaded)
unfolding start_machine
start_machine_lem h kernel initramfs loaded w k i e l =
    let (kvm, made_kvm, limit) = construct_kvm_lem h w in
    let files = create_vm_of_lem h w kvm kernel initramfs limit k i e in
    let machine = init_machine_made h w in
    let ram =
      init_ram_of_lem kernel initramfs (some (zeros vm_conf)) (zeros vm_conf) loaded refl l in
    rw (w.opens.1, start_machine, made_kvm, files, machine, ram) refl
