-- ===== src/Program/Errors.antt =====
-- `main` where KVM refuses one of the first calls on the machine.
use lvmm.Base.{ℕ, ◌<◌, ◌≡◌, refl, true, List, ◌∷◌, ◌++◌, some, false, neg, is_nonzero, arith}
use lvmm.Ioctl.{errno}
use lvmm.Exit.{Dumps}
use lvmm.Run.{Event}
use lvmm.Setup.{Call, Kernel, start, first_calls, AllSucceed, init_machine-first_error}
use lvmm.Program.Defs.{Host, exits, is_kernel_elf, vm_conf, start_machine, create_vm_of}
use lvmm.Program.Main.{main}
use lvmm.Program.Steps.{IsWorking, construct_kvm_lem, create_vm_of_lem}

-- Take a host on which CPUID names a known processor and every call succeeds, with two files,
-- the kernel no ELF file, and change what the calls on the machine answer: where one of the four
-- calls that initMachine makes before the vCPUs fails with a positive error number, and those
-- before it succeed, main returns -1, whatever the later calls answer.
pub main-first_error :
    (h : Host) (kernel initramfs : List ℕ) (k : Kernel) (before after : List Call) (call : Call)
    (e leftover : ℕ) (d : Dumps) (es : List Event)
    → IsWorking h
    → h.kernel_file ≡ some kernel
    → h.initramfs_file ≡ some initramfs
    → is_kernel_elf h.buf kernel ≡ false
    → first_calls ≡ before ++ call ∷ after
    → AllSucceed k before
    → k.answers call ≡ errno e
    → 0 < e
    → main (record h { kernel = k }) leftover d es ≡ exits (neg 1)
unfolding main start_machine create_vm_of
main-first_error h kernel initramfs k before after call e leftover d es w kf i elf split ok fails
      positive =
    let (kvm, made_kvm, limit) = construct_kvm_lem h w in
    let files = create_vm_of_lem h w kvm kernel initramfs limit kf i elf in
    let refused =
      init_machine-first_error vm_conf k (start h.table) before after call e split ok fails
        positive in
    let nonzero : is_nonzero (neg e) ≡ true = ground arith in
    rw (main, start_machine, w.opens.1, made_kvm, files, refused, nonzero) refl
