-- ===== src/Setup/Trace.antt =====
-- The system calls that `VM::initMachine` makes, in order: each step of `Defs` with its calls, which
-- end where the code returns or throws.
use lvmm.Base.{
  ℕ, zero, suc, ◌+◌, ◌≡◌, refl, List, [], ◌∷◌, ◌++◌, none, some, map, if◌then◌else◌, is_neg,
  is_nonzero,
}
use lvmm.Ioctl.{result, errno, made, thrown, fault}
use lvmm.Boot.{Config}
use lvmm.Vcpu.{patch_entries, construct_vcpu}
use lvmm.Setup.Defs.{
  Call, tss_base, identity_map_base, region_of, set_tss_addr, set_identity_map_addr, create_irqchip,
  create_pit2, mmap, set_user_memory_region, create_vcpu, set_cpuid2, map_run, get_regs, set_regs,
  get_sregs, set_sregs, Kernel, VcpuState, Setup, SetupStep, ioctl, create_vcpus, alloc_guest_ram,
  init_pio, Init, init_each, init_vcpu_sregs, set_regs_of, set_sregs_of, initmachine_func,
}

-- A call of `Defs`, or the KVM_GET_SUPPORTED_CPUID that the constructor of a vCPU makes on /dev/kvm
-- and whose answer it throws away.
pub data Request : Type 0 where
  asks : Call → Request
  asks_supported : ℕ → Request

-- A call, and one that follows where it succeeds.
abbrev pub then_call : Kernel → Call → Call → List Request
then_call k first_call second_call = elim (k.answers first_call) [
  | errno e ↦ asks first_call ∷ []
  | result r ↦ asks first_call ∷ asks second_call ∷ []
]

-- The constructor of vCPU `i`: it ends behind the first where the patching of the entries leaves their
-- array.
unfoldable pub construct_calls : Kernel → ℕ → List Request
construct_calls k i =
    asks_supported i ∷ (elim (patch_entries k.supported.nent k.supported.entries) [
      | none ↦ []
      | some es ↦ then_call k (set_cpuid2 i) (map_run i)
    ])

unfoldable pub create_calls : Kernel → ℕ → ℕ → List Request
create_calls k zero i = []
create_calls k (suc n) i = elim (k.answers (create_vcpu i)) [
  | errno e ↦ asks (create_vcpu i) ∷ []
  | result r ↦
      asks (create_vcpu i) ∷ construct_calls k i
      ++ (elim (construct_vcpu k.supported (k.answers (set_cpuid2 i)) (k.answers (map_run i))) [
        | made given ↦ create_calls k n (i + 1)
        | thrown ↦ []
        | fault ↦ []
      ])
]

-- `InitRegs` and `InitSregs` on vCPU `i`.
abbrev pub regs_calls : Kernel → ℕ → List Request
regs_calls k i = then_call k (get_regs i) (set_regs i)

abbrev pub sregs_calls : Kernel → ℕ → List Request
sregs_calls k i = then_call k (get_sregs i) (set_sregs i)

-- The loop over the vCPUs, which stops at the first that fails.
unfoldable pub each_calls : (ℕ → List Request) → Init → ℕ → ℕ → List VcpuState → List Request
each_calls calls init zero i vs = []
each_calls calls init (suc n) i [] = []
each_calls calls init (suc n) i (v ∷ vs) =
    let rest = each_calls calls init n (i + 1) vs in
    calls i ++ (if is_nonzero (init i v).1 then [] else rest)

-- A step with the calls that it makes.
pub record LoggedStep : Type 0 where
  pub step : SetupStep
  pub calls : Setup → List Request

abbrev pub one_call : Kernel → Call → LoggedStep
one_call k c = record { step = ioctl k c; calls = λ s. asks c ∷ [] }

module _ (c : Config) (k : Kernel) where
  abbrev pub vcpus_step : LoggedStep
  vcpus_step = record {
    step = create_vcpus k c.vcpu_num 0;
    calls = λ s. create_calls k c.vcpu_num 0;
  }

  abbrev pub ram_step : LoggedStep
  ram_step = record { step = alloc_guest_ram c k; calls = λ s. asks mmap ∷ [] }

  abbrev pub regs_step : LoggedStep
  regs_step = record {
    step = init_each c (set_regs_of k);
    calls = λ s. each_calls (regs_calls k) (set_regs_of k) c.vcpu_num 0 s.vcpus;
  }

  abbrev pub sregs_step : LoggedStep
  sregs_step = record {
    step = init_vcpu_sregs c k;
    calls = λ s.
        if c.is_64bit_boot
        then []
        else each_calls (sregs_calls k) (set_sregs_of c k) c.vcpu_num 0 s.vcpus;
  }

abbrev pub pio_step : LoggedStep
pio_step = record { step = init_pio; calls = λ s. [] }

module _ (c : Config) (k : Kernel) where
  abbrev pub steps_from_pio : List LoggedStep
  steps_from_pio = pio_step ∷ regs_step c k ∷ sregs_step c k ∷ []

  abbrev pub steps_from_ram : List LoggedStep
  steps_from_ram = ram_step c k ∷ one_call k (set_user_memory_region (region_of c)) ∷ steps_from_pio

  unfoldable pub traced_steps : List LoggedStep
  traced_steps =
      one_call k (set_tss_addr tss_base)
      ∷ one_call k (set_identity_map_addr identity_map_base)
      ∷ one_call k create_irqchip
      ∷ one_call k create_pit2
      ∷ vcpus_step c k
      ∷ steps_from_ram

-- These are the steps of `initMachine`, in its order.
traced_steps_lem :
    (c : Config) (k : Kernel) → map LoggedStep.step (traced_steps c k) ≡ initmachine_func c k
unfolding traced_steps initmachine_func
traced_steps_lem c k = refl

-- The loop of `initMachine`.
unfoldable pub run_calls : List LoggedStep → Setup → List Request
run_calls [] s = []
run_calls (f ∷ fs) s = f.calls s ++ (elim (f.step s) [
  | thrown ↦ []
  | fault ↦ []
  | made (s', r) ↦ let rest = run_calls fs s' in if is_neg r then [] else rest
])

unfoldable pub init_machine_calls : Config → Kernel → Setup → List Request
unfolding traced_steps run_calls
init_machine_calls c k s = run_calls (traced_steps c k) s
