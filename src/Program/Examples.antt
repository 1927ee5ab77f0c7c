-- ===== src/Program/Examples.antt =====
-- A host on which the machine boots.
use lvmm.Base.{
  pos, neg, none, inl, inr, ◌+◌, ◌-◌, ◌≡◌, refl, [], ◌∷◌, ◌++◌, drop, length, some, true, false,
  get_elem?, arith,
}
use lvmm.Ioctl.{Answer, result, errno}
use lvmm.Cpufeat.{Cpuid, cpu_supports_vm, feature_of, highest_leaf}
use lvmm.Boot.{
  Ram, BootParams, boot_params_bytes, boot_params_of, IsBootable, kernel_offset, checked_header,
  load, read_header,
}
use lvmm.Boot.Examples.{kernel, initramfs, kernel_offset_run}
use lvmm.Setup.{
  Call, set_tss_addr, set_identity_map_addr, create_irqchip, create_pit2, tss_base,
  identity_map_base, refusing, VcpuState, Setup, IsReady, zeros,
}
use lvmm.Setup.Examples.{working, working-Works, working-AlsoRegisters, before}
use lvmm.Cmos.{new_cmos, IsValid}
use lvmm.Exit.{hlt, Entry}
use lvmm.Exit.Examples.{now, dumps}
use lvmm.Run.{Event, going}
use lvmm.Com1.Terminal.{Termios, TerminalCalls, raw_of}
use lvmm.Program.Calls.{main_calls, main_calls-returns, main_calls-stuck}
use lvmm.Program.Errors.{main-first_error}
use lvmm.Program.Endings.{main_terminal, main_terminal-exits, main_terminal-uncaught}
use lvmm.Program.Main.{new_devices, main, main-returns}
use lvmm.Program.Defs.{
  exits, uncaught, Host, reaches, is_kernel_elf, vm_conf, main_cmdline, start_machine,
}
use lvmm.Program.Steps.{IsWorking}
use lvmm.Program.Start.{start_machine-IsReady}
use lvmm.Program.Reaches.{Found, start_machine-Found}

abbrev intel : Cpuid
intel leaf sub = record { eax = 0x16; ebx = 0x756e_6547; ecx = 0x6c65_746e; edx = 0x4965_6e69 }

abbrev host : Host
host = record {
  open_kvm = result 3;
  cpuid = intel;
  api_version = result 12;
  caps = λ c. result 8;
  mmap_size = result 0x3000;
  create_vm = result 4;
  kernel_file = some kernel;
  initramfs_file = some initramfs;
  buf = 0 ∷ 0 ∷ 0 ∷ 0 ∷ [];
  table = before;
  kernel = working;
}

intel-known : cpu_supports_vm intel ≡ some true
unfolding cpu_supports_vm feature_of highest_leaf
intel-known = refl

host-IsWorking : IsWorking host
host-IsWorking = record {
  opens = (3, refl);
  known_cpu = (true, intel-known);
  has_version = (12, refl);
  has_caps = λ c. (8, refl);
  allows_one = omega arith;
  has_size = (0x3000, refl);
  creates = (4, refl);
  works = working-Works;
  sets_registers = working-AlsoRegisters;
}

kernel-plain : is_kernel_elf host.buf kernel ≡ false
unfolding is_kernel_elf
kernel-plain = refl

kernel-IsBootable : IsBootable vm_conf initramfs kernel main_cmdline (zeros vm_conf)
unfolding read_header
kernel-IsBootable = record {
  few_vcpus = omega arith;
  mode = refl;
  mapped = refl;
  magic = refl;
  has_header = omega arith;
  has_kernel = omega (arith, kernel_offset_run);
  initramfs_fits = omega arith;
  cmdline_fits = omega arith;
  kernel_fits = omega (arith, kernel_offset_run);
}

start_machine-IsReady_example :
    (s : Setup) × (ram : Ram) × (v : VcpuState) × (p : BootParams) × (start_machine host
      ≡ reaches (s, ram))
    × (get_elem? s.vcpus 0 ≡ some v)
    × IsReady working 0 v
    × (load ram.byte v.regs.rip (length kernel - kernel_offset kernel)
        ≡ drop (kernel_offset kernel) kernel)
    × (boot_params_of vm_conf (length initramfs) (checked_header kernel) ≡ some p)
    × (load ram.byte v.regs.rsi 0xcd0 ≡ boot_params_bytes p)
    × (load ram.byte p.header.ramdisk_image p.header.ramdisk_size ≡ initramfs)
    × (load ram.byte p.header.cmd_line_ptr (length main_cmdline + 1) ≡ main_cmdline ++ 0 ∷ [])
start_machine-IsReady_example =
    start_machine-IsReady host kernel initramfs host-IsWorking refl refl kernel-plain
      kernel-IsBootable

host_boots : (s : Setup) × (ram : Ram) × (start_machine host ≡ reaches (s, ram))
host_boots =
    let t =
      start_machine-IsReady host kernel initramfs host-IsWorking refl refl kernel-plain
        kernel-IsBootable in
    (t.0, t.1, t.4)

start_machine-Found_example : Found host
start_machine-Found_example = start_machine-Found host (host_boots.0, host_boots.1) tt host_boots.2

cmos-IsValid : IsValid (new_cmos 5)
unfolding new_cmos
cmos-IsValid = record { selected = omega arith; sized = refl }

abbrev halt : Event
halt = record { vcpu = 0; now = now; exit = hlt }

host_returns : main host 5 dumps (halt ∷ halt ∷ []) ≡ exits (pos 0)
host_returns =
    main-returns host kernel initramfs 5 dumps (halt ∷ halt ∷ []) host-IsWorking refl refl
      kernel-plain kernel-IsBootable cmos-IsValid (tt, (tt, tt)) (inl (refl, refl))

abbrev failing : Entry
failing = record { answer = errno 14; written = none; now = now }

abbrev halting : Entry
halting = record { answer = result 0; written = some hlt; now = now }

main_calls-returns_example :
    main_calls host 5 dumps (failing ∷ halting ∷ failing ∷ []) ≡ exits (pos 0)
main_calls-returns_example =
    main_calls-returns host kernel initramfs 5 dumps host-IsWorking refl refl kernel-plain
      kernel-IsBootable (failing ∷ halting ∷ failing ∷ []) cmos-IsValid (tt, (tt, (tt, tt)))
      (inr (inl (hlt, refl, refl)))

main_calls-stuck_example :
    main_calls host 200 dumps (failing ∷ failing ∷ failing ∷ [])
    ≡ reaches (record { machine = new_devices 200; threads = going ∷ [] })
main_calls-stuck_example =
    main_calls-stuck host kernel initramfs 200 dumps host-IsWorking refl refl kernel-plain
      kernel-IsBootable (failing ∷ failing ∷ failing ∷ [])
      ((14, refl, refl), ((14, refl, refl), ((14, refl, refl), tt)))

-- A terminal that echoes, and `cfmakeraw` on the members that are modelled.
abbrev cooked : Termios
cooked = record { c_oflag = 5; vmin = 4; vtime = 9; others = 1 ∷ 2 ∷ [] }

abbrev make_raw : Termios → Termios
make_raw t = record t { c_oflag = 0; vmin = 1; vtime = 0; others = 0 ∷ 0 ∷ [] }

abbrev on_terminal : TerminalCalls
on_terminal = record { isatty = true; gets = true; sets = true }

main_terminal-exits_example :
    (main_terminal make_raw on_terminal cooked host 5 dumps (halt ∷ halt ∷ [])).settings ≡ cooked
main_terminal-exits_example =
    main_terminal-exits make_raw on_terminal cooked host 5 dumps (halt ∷ halt ∷ []) (pos 0) refl
      host_returns

main_terminal-uncaught_example :
    let h' = record host { kernel = refusing 22 working } in
    (main h' 5 dumps [] ≡ uncaught)
    × ((main_terminal make_raw on_terminal cooked h' 5 dumps []).settings ≡ raw_of make_raw cooked)
main_terminal-uncaught_example =
    main_terminal-uncaught make_raw on_terminal cooked host kernel initramfs 22 5 dumps []
      host-IsWorking refl refl kernel-plain refl refl refl

-- KVM_CREATE_IRQCHIP fails, and all calls behind it.
abbrev no_irqchip : Call → Answer
no_irqchip (set_tss_addr a) = result 0
no_irqchip (set_identity_map_addr a) = result 0
no_irqchip c = errno 17

main-first_error_example :
    main (record host { kernel = record working { answers = no_irqchip } }) 5 dumps []
    ≡ exits (neg 1)
main-first_error_example =
    main-first_error host kernel initramfs (record working { answers = no_irqchip })
      (set_tss_addr tss_base ∷ set_identity_map_addr identity_map_base ∷ []) (create_pit2 ∷ [])
      create_irqchip 17 5 dumps [] host-IsWorking refl refl kernel-plain refl
      ((0, refl), ((0, refl), tt)) refl (omega arith)
