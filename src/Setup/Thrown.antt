-- ===== src/Setup/Thrown.antt =====
-- `initMachine` where KVM refuses the CPUID entries of a new vCPU, whose constructor then throws.
use lvmm.Base.{ℕ, suc, ◌≤◌, ◌≡◌, refl, ◌∙◌, List, ◌∷◌, length}
use lvmm.Ioctl.{Answer, errno, thrown}
use lvmm.Boot.{Config}
use lvmm.Pio.{Table}
use lvmm.Vcpu.{CpuidBuffer, construct_vcpu, patch_entries_lem}
use lvmm.Setup.Defs.{
  Call, tss_base, identity_map_base, set_cpuid2, create_vcpu, set_tss_addr, set_identity_map_addr,
  create_irqchip, create_pit2, Kernel, Setup, SetupStep, create_vcpus, initmachine_func, run_steps,
  init_machine,
}
use lvmm.Setup.Vcpus.{Works}
use lvmm.Setup.Head.{start, ioctl-next}

-- The same host, but for KVM_SET_CPUID2.
abbrev pub refused : ℕ → (Call → Answer) → Call → Answer
refused e answers (set_cpuid2 i) = errno e
refused e answers c = answers c

abbrev pub refusing : ℕ → Kernel → Kernel
refusing e k = record k { answers = refused e k.answers }

construct_vcpu-thrown :
    (buf : CpuidBuffer) (e : ℕ) (map_run : Answer)
    → buf.nent ≤ length buf.entries
    → construct_vcpu buf (errno e) map_run ≡ thrown
unfolding construct_vcpu
construct_vcpu-thrown buf e map_run h =
    rw (patch_entries_lem buf.nent buf.entries h, construct_vcpu) refl

create_vcpus-thrown :
    (k : Kernel) (e n i : ℕ) (s : Setup)
    → Works k
    → create_vcpus (refusing e k) (suc n) i s ≡ thrown
unfolding create_vcpus
create_vcpus-thrown k e n i s w =
    let (r, created) = w.answered (create_vcpu i) refl in
    rw
      (
        created,
        create_vcpus,
        construct_vcpu-thrown k.supported e (k.answers (Call.map_run i)) w.counted,
      )
      refl

run_steps-thrown :
    (f : SetupStep) (fs : List SetupStep) (s : Setup) → f s ≡ thrown → run_steps (f ∷ fs) s ≡ thrown
unfolding run_steps
run_steps-thrown f fs s h = rw (h, run_steps) refl

pub init_machine-thrown :
    (c : Config) (k : Kernel) (e n : ℕ) (t : Table)
    → Works k
    → c.vcpu_num ≡ suc n
    → init_machine c (refusing e k) (start t) ≡ thrown
unfolding init_machine initmachine_func
init_machine-thrown c k e n t w some_vcpu =
    let k' = refusing e k in
    ioctl-next k' (set_tss_addr tss_base) _ (start t) (w.answered (set_tss_addr tss_base) refl)
    ∙ ioctl-next k' (set_identity_map_addr identity_map_base) _ (start t)
        (w.answered (set_identity_map_addr identity_map_base) refl)
    ∙ ioctl-next k' create_irqchip _ (start t) (w.answered create_irqchip refl)
    ∙ ioctl-next k' create_pit2 _ (start t) (w.answered create_pit2 refl)
    ∙ run_steps-thrown (create_vcpus k' c.vcpu_num 0) _ (start t)
        (rw some_vcpu (create_vcpus-thrown k e n 0 (start t) w))
