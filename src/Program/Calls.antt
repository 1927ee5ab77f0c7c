-- ===== src/Program/Calls.antt =====
-- `main` over the calls of `KVM_RUN` that its vCPU makes.
use lvmm.Base.{◌≡◌, ◌∙◌, ap, refl, List, [], ◌∷◌, some, false, ℕ, map, pos}
use lvmm.Cmos.{new_cmos, IsValid}
use lvmm.Exit.{Dumps, Entry, unknown, seen_exits, AllFail, run_entries-unknown, WritesInTable}
use lvmm.Boot.{Ram, IsBootable, init_ram-load}
use lvmm.Setup.{Setup, zeros, filled_table}
use lvmm.Run.{
  Running, going, boot_calls, boot_calls-boot, of_first, SomeStops, run_entries-returned,
}
use lvmm.Program.Defs.{
  Host, Progress, reaches, exits, is_kernel_elf, vm_conf, main_cmdline, start_machine, ◌>>=◌,
}
use lvmm.Program.Steps.{IsWorking, start_machine_lem}
use lvmm.Program.Main.{new_devices, after_boot, main, filled_table-IsFull}

unfoldable pub main_calls : Host → ℕ → Dumps → List Entry → Progress Running
main_calls h leftover d ns =
    start_machine h >>= λ booted. after_boot (boot_calls d booted.0.table ns (new_devices leftover))

-- It is `main` over the exits that its vCPU handles.
main_calls-main :
    (h : Host) (leftover : ℕ) (d : Dumps) (ns : List Entry) (s : Setup) (ram : Ram)
    → start_machine h ≡ reaches (s, ram)
    → main_calls h leftover d ns
      ≡ main h leftover d (map of_first (seen_exits s.table ns unknown (new_devices leftover)))
unfolding main_calls main
main_calls-main h leftover d ns s ram e =
    rw (main_calls, main, e) (ap after_boot (boot_calls-boot d s.table ns (new_devices leftover)))

module _ (h : Host) (kernel initramfs : List ℕ) (leftover : ℕ) (d : Dumps) (w : IsWorking h)
    (k : h.kernel_file ≡ some kernel) (i : h.initramfs_file ≡ some initramfs)
    (elf : is_kernel_elf h.buf kernel ≡ false)
    (fits : IsBootable vm_conf initramfs kernel main_cmdline (zeros vm_conf)) where
  main_calls_lem :
      (ns : List Entry)
      → main_calls h leftover d ns
        ≡ after_boot (boot_calls d (filled_table h.table) ns (new_devices leftover))
  unfolding main_calls
  main_calls_lem ns =
      let t = init_ram-load vm_conf initramfs kernel main_cmdline (zeros vm_conf) fits in
      rw (main_calls, start_machine_lem h kernel initramfs t.0 w k i elf t.1) refl

  -- On a host on which CPUID names a known processor, every call of the set-up succeeds and the CPUID
  -- entries of KVM lie in their array, with a limit of at least one vCPU, with a kernel, no ELF file
  -- and with a valid header, and an initramfs that fit a machine of 1 GiB, and with a register
  -- number of the CMOS left in its index: once KVM_RUN has written an exit that stops the vCPU, such
  -- as a halt, main returns 0, whatever its calls of KVM_RUN answer, as long as none of them writes
  -- an access to port 0xFFFF.
  pub main_calls-returns :
      (ns : List Entry)
      → IsValid (new_cmos leftover)
      → WritesInTable ns
      → SomeStops ns
      → main_calls h leftover d ns ≡ exits (pos 0)
  unfolding boot_calls
  main_calls-returns ns v low stop =
      let (m, returns) =
        run_entries-returned d (filled_table h.table) ns unknown (new_devices leftover)
          (filled_table-IsFull h.table) tt low v stop in
      main_calls_lem ns ∙ rw returns refl

  -- On a host on which CPUID names a known processor, every call of the set-up succeeds and the
  -- CPUID entries of KVM lie in their array, with a limit of at least one vCPU, with a kernel,
  -- no ELF file and with a valid header, and an initramfs that fit a machine of 1 GiB: where
  -- each call of KVM_RUN fails, with whatever error number, and writes no exit to the run page,
  -- then after any number of these calls main has not returned, its vCPU goes on, and its
  -- devices are as they were made.
  pub main_calls-stuck :
      (ns : List Entry)
      → AllFail ns
      → main_calls h leftover d ns
        ≡ reaches (record { machine = new_devices leftover; threads = going ∷ [] })
  unfolding boot_calls
  main_calls-stuck ns f =
      main_calls_lem ns
      ∙ rw (run_entries-unknown d (filled_table h.table) ns (new_devices leftover) f) refl
