-- ===== src/Program/Start.antt =====
-- The machine that `main` boots.
use lvmm.Base.{ℕ, ◌+◌, ◌-◌, [], ◌∷◌, ◌++◌, ◌≡◌, List, drop, length, some, false, get_elem?, arith}
use lvmm.Boot.{
  Ram, BootParams, boot_params_bytes, boot_params_of, boot_params_of-pointers, IsBootable,
  kernel_offset, checked_header, init_ram-load, load,
}
use lvmm.Setup.{
  VcpuState, Setup, IsReady, ready_vcpu, ready_vcpu-IsReady, ready_setup, ready_setup-get_elem?,
  zeros,
}
use lvmm.Program.Defs.{Host, reaches, is_kernel_elf, vm_conf, main_cmdline, start_machine}
use lvmm.Program.Steps.{IsWorking, start_machine_lem}

-- On a host on which CPUID names a known processor, every call succeeds and the CPUID entries of
-- KVM lie in their array, with a limit of at least one vCPU, and with a kernel, no ELF file and
-- with a valid header, and an initramfs that fit a machine of 1 GiB: main reaches the call of Boot,
-- with vCPU 0 in protected mode with flat segments, its RIP at the first byte of the part of the
-- kernel behind the setup sectors, its RSI at the boot parameters with the checked header, and the
-- initramfs and the command line in memory where the parameters say.
pub start_machine-IsReady :
    (h : Host) (kernel initramfs : List ℕ)
    → IsWorking h
    → h.kernel_file ≡ some kernel
    → h.initramfs_file ≡ some initramfs
    → is_kernel_elf h.buf kernel ≡ false
    → IsBootable vm_conf initramfs kernel main_cmdline (zeros vm_conf)
    → (s : Setup) × (ram : Ram) × (v : VcpuState) × (p : BootParams) × (start_machine h
        ≡ reaches (s, ram))
      × (get_elem? s.vcpus 0 ≡ some v)
      × IsReady h.kernel 0 v
      × (load ram.byte v.regs.rip (length kernel - kernel_offset kernel)
          ≡ drop (kernel_offset kernel) kernel)
      × (boot_params_of vm_conf (length initramfs) (checked_header kernel) ≡ some p)
      × (load ram.byte v.regs.rsi 0xcd0 ≡ boot_params_bytes p)
      × (load ram.byte p.header.ramdisk_image p.header.ramdisk_size ≡ initramfs)
      × (load ram.byte p.header.cmd_line_ptr (length main_cmdline + 1) ≡ main_cmdline ++ 0 ∷ [])
start_machine-IsReady h kernel initramfs w k i e b =
    let (ram, loaded, image, disk, cmdline, _, given) =
      init_ram-load vm_conf initramfs kernel main_cmdline (zeros vm_conf) b in
    let (p, params, boot) = given in
    let (disk_at, disk_size, cmdline_at) =
      boot_params_of-pointers vm_conf (length initramfs) (checked_header kernel) p params in
    let size : p.header.ramdisk_size ≡ length initramfs =
      omega (arith, disk_size, b.initramfs_fits) in
    (
      ready_setup vm_conf h.kernel h.table,
      ram,
      ready_vcpu h.kernel 0,
      p,
      start_machine_lem h kernel initramfs ram w k i e loaded,
      ready_setup-get_elem? vm_conf h.kernel h.table 0 (omega arith),
      ready_vcpu-IsReady h.kernel 0,
      image,
      params,
      boot,
      rw (disk_at, size) disk,
      rw cmdline_at cmdline,
    )
