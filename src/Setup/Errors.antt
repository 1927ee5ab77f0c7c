-- ===== src/Setup/Errors.antt =====
-- Where `initMachine` stops at a call that fails.
use lvmm.Base.{ℕ, ◌<◌, ◌≡◌, ap, ◌∙◌, List, [], ◌∷◌, ◌++◌, map, drop, neg, arith}
use lvmm.Ioctl.{result, errno, made}
use lvmm.Boot.{Config}
use lvmm.Setup.Defs.{
  Call, tss_base, identity_map_base, set_tss_addr, set_identity_map_addr, create_irqchip,
  create_pit2, Kernel, Setup, SetupStep, ioctl, initmachine_func, run_steps, init_machine,
}
use lvmm.Setup.Head.{ioctl-next}

-- The calls before the vCPUs, in their order.
abbrev pub first_calls : List Call
first_calls =
    set_tss_addr tss_base
    ∷ set_identity_map_addr identity_map_base
    ∷ create_irqchip
    ∷ create_pit2
    ∷ []

abbrev pub AllSucceed : Kernel → List Call → Type 0
AllSucceed k [] = Unit
AllSucceed k (c ∷ cs) = ((r : ℕ) × (k.answers c ≡ result r)) × AllSucceed k cs

ioctl-fails :
    (k : Kernel) (c : Call) (fs : List SetupStep) (s : Setup) (e : ℕ)
    → k.answers c ≡ errno e
    → 0 < e
    → run_steps (ioctl k c ∷ fs) s ≡ made (s, neg e)
unfolding run_steps
ioctl-fails k c fs s e fails positive = rw (run_steps, fails) (ground arith)

run_steps-first :
    (k : Kernel) (before after : List Call) (c : Call) (fs : List SetupStep) (s : Setup) (e : ℕ)
    → AllSucceed k before
    → k.answers c ≡ errno e
    → 0 < e
    → run_steps (map (ioctl k) (before ++ c ∷ after) ++ fs) s ≡ made (s, neg e)
run_steps-first k [] after c fs s e ok fails positive =
    ioctl-fails k c (map (ioctl k) after ++ fs) s e fails positive
run_steps-first k (b ∷ before) after c fs s e (here, more) fails positive =
    ioctl-next k b (map (ioctl k) (before ++ c ∷ after) ++ fs) s here
    ∙ run_steps-first k before after c fs s e more fails positive

-- The first of these calls that fails ends `initMachine` with its error, before a vCPU or the guest's
-- memory is made.
pub init_machine-first_error :
    (c : Config) (k : Kernel) (s : Setup) (before after : List Call) (call : Call) (e : ℕ)
    → first_calls ≡ before ++ call ∷ after
    → AllSucceed k before
    → k.answers call ≡ errno e
    → 0 < e
    → init_machine c k s ≡ made (s, neg e)
unfolding init_machine initmachine_func
init_machine-first_error c k s before after call e split ok fails positive =
    ap (λ cs. run_steps (map (ioctl k) cs ++ drop 4 (initmachine_func c k)) s) split
    ∙ run_steps-first k before after call (drop 4 (initmachine_func c k)) s e ok fails positive
