-- ===== src/Program/Endings.antt =====
-- The terminal of the host over the whole run of `main`: the constructor of `COM1`, which
-- `initMachine` calls first, changes its settings, and the end of the process may put them back.
use lvmm.Base.{
  ℕ, ◌≡◌, inl, inr, refl, ap, ◌∙◌, Bool, true, false, Bool-cases, if◌then◌else◌, List, some, ℤ,
  is_neg, is_nonzero, sym, fun_ext,
}
use lvmm.Com1.Terminal.{
  Termios, Terminal, TerminalCalls, raw_of, construct_com1, by_return, by_abort, leave, untouched,
  run_atexit, leave-construct_com1, leave-abort,
}
use lvmm.Cpufeat.{cpu_supports_vm}
use lvmm.Kvm.{construct_kvm}
use lvmm.Exit.{Dumps}
use lvmm.Run.{Event}
use lvmm.Boot.{Ram}
use lvmm.Setup.{Setup, init_machine, start, refusing, init_machine-thrown}
use lvmm.Program.Defs.{
  Host, Progress, reaches, exits, uncaught, attempted, get_kvm_fd, return_if, create_vm_of,
  init_ram_of, vm_conf, is_kernel_elf, start_machine, ◌>>=◌,
}
use lvmm.Program.Main.{main}
use lvmm.Program.Steps.{IsWorking, construct_kvm_lem, create_vm_of_lem}

-- `main` up to the call of `initMachine`.
unfoldable pub before_devices : Host → Progress (List ℕ × List ℕ)
before_devices h = do
  _ ← return_if (is_neg (get_kvm_fd h.open_kvm))
  kvm ← attempted (construct_kvm (cpu_supports_vm h.cpuid) h.api_version h.caps h.mmap_size)
  create_vm_of h kvm

>>=-assoc {ℓ κ μ} :
    {A : Type ℓ} {B : Type κ} {C : Type μ} (o : Progress A) (f : A → Progress B)
    (g : B → Progress C)
    → ((o >>= f) >>= g) ≡ (o >>= λ a. f a >>= g)
>>=-assoc (reaches a) f g = refl
>>=-assoc (exits r) f g = refl
>>=-assoc uncaught f g = refl
>>=-assoc Progress.fault f g = refl

-- `main` from the call of `initMachine` to that of `Boot`.
abbrev from_devices : Host → List ℕ × List ℕ → Progress (Setup × Ram)
from_devices h files = do
  machine ← attempted (init_machine vm_conf h.kernel (start h.table))
  _ ← return_if (is_nonzero machine.1)
  ram ← init_ram_of files.0 files.1 machine.0.ram
  reaches (machine.0, ram)

start_machine-before_devices : (h : Host) → start_machine h ≡ (before_devices h >>= from_devices h)
unfolding start_machine before_devices
start_machine-before_devices h =
    let asks = λ (u : Unit {0}).
      attempted (construct_kvm (cpu_supports_vm h.cpuid) h.api_version h.caps h.mmap_size) in
    sym (
      >>=-assoc (return_if (is_neg (get_kvm_fd h.open_kvm))) (λ u. asks u >>= create_vm_of h)
        (from_devices h)
      ∙ ap (λ f. return_if (is_neg (get_kvm_fd h.open_kvm)) >>= f)
          (fun_ext (λ u. >>=-assoc (asks u) (create_vm_of h) (from_devices h))))

abbrev pub is_reached {ℓ} : {A : Type ℓ} → Progress A → Bool
is_reached (reaches a) = true
is_reached (exits r) = false
is_reached uncaught = false
is_reached Progress.fault = false

-- What the end of the process does to the terminal; before the end it is as it was. A step outside
-- an array has no end that C++ defines.
abbrev pub at_end {ℓ} : {A : Type ℓ} → TerminalCalls → Progress A → Terminal → Terminal
at_end calls (reaches a) t = t
at_end calls (exits r) t = leave calls by_return t
at_end calls uncaught t = leave calls by_abort t
at_end calls Progress.fault t = t

module _ (h : Host) (kernel initramfs : List ℕ) (e : ℕ) (w : IsWorking h)
    (k : h.kernel_file ≡ some kernel) (i : h.initramfs_file ≡ some initramfs)
    (elf : is_kernel_elf h.buf kernel ≡ false) where
  abbrev refused_host : Host
  refused_host = record h { kernel = refusing e h.kernel }

  before_devices-reached : is_reached (before_devices refused_host) ≡ true
  unfolding before_devices create_vm_of
  before_devices-reached =
      let (kvm, made_kvm, limit) = construct_kvm_lem h w in
      let files = create_vm_of_lem h w kvm kernel initramfs limit k i elf in
      rw (before_devices, w.opens.1, made_kvm, files) refl

  main-uncaught :
      (leftover : ℕ) (d : Dumps) (es : List Event) → main refused_host leftover d es ≡ uncaught
  unfolding main start_machine
  main-uncaught leftover d es =
      let (kvm, made_kvm, limit) = construct_kvm_lem h w in
      let files = create_vm_of_lem h w kvm kernel initramfs limit k i elf in
      let thrown = init_machine-thrown vm_conf h.kernel e 0 h.table w.works refl in
      rw (main, start_machine, w.opens.1, made_kvm, files, thrown) refl

module _ (cfmakeraw : Termios → Termios) (calls : TerminalCalls) (v : Termios) where
  unfoldable pub terminal_of : Host → Terminal
  terminal_of h =
      if is_reached (before_devices h)
      then construct_com1 cfmakeraw calls (untouched v)
      else untouched v

  unfoldable pub main_terminal : Host → ℕ → Dumps → List Event → Terminal
  unfolding terminal_of
  main_terminal h leftover d es = at_end calls (main h leftover d es) (terminal_of h)

  -- At whichever of its returns main ends, before COM1 is made or behind it, with an error or
  -- not: where tcsetattr succeeds, the terminal has the settings that it had at first.
  pub main_terminal-exits :
      (h : Host) (leftover : ℕ) (d : Dumps) (es : List Event) (r : ℤ)
      → calls.sets ≡ true
      → main h leftover d es ≡ exits r
      → (main_terminal h leftover d es).settings ≡ v
  unfolding main_terminal run_atexit
  main_terminal-exits h leftover d es r sets ends =
      elim (Bool-cases (is_reached (before_devices h))) [
        | inl made_com1 ↦ rw (ends, made_com1) (leave-construct_com1 cfmakeraw calls v sets).0
        | inr not_made ↦ rw (ends, not_made) refl
      ]

  -- On a host with two files, the kernel no ELF file, on which CPUID names a known processor, KVM
  -- allows a vCPU and every call succeeds but KVM_SET_CPUID2: the exception of the vCPU's
  -- constructor ends main, and a terminal whose calls succeed keeps the raw settings.
  pub main_terminal-uncaught :
      (h : Host) (kernel initramfs : List ℕ) (e leftover : ℕ) (d : Dumps) (es : List Event)
      → IsWorking h
      → h.kernel_file ≡ some kernel
      → h.initramfs_file ≡ some initramfs
      → is_kernel_elf h.buf kernel ≡ false
      → calls.isatty ≡ true
      → calls.gets ≡ true
      → calls.sets ≡ true
      → let h' = record h { kernel = refusing e h.kernel } in
        (main h' leftover d es ≡ uncaught)
        × ((main_terminal h' leftover d es).settings ≡ raw_of cfmakeraw v)
  unfolding main_terminal
  main_terminal-uncaught h kernel initramfs e leftover d es w k i elf tty gets sets =
      let ends = main-uncaught h kernel initramfs e w k i elf leftover d es in
      let made_com1 = before_devices-reached h kernel initramfs e w k i elf in
      (ends, rw (ends, made_com1) (leave-abort cfmakeraw calls v tty gets sets))
