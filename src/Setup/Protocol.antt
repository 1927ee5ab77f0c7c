-- ===== src/Setup/Protocol.antt =====
-- The order in which the calls that set a machine up are to come, as a state machine that knows which
-- call is next, and when `initMachine` follows it.
use lvmm.Base.{
  ℕ, ◌+◌, ◌≡◌, refl, ◌∙◌, Bool, true, false, not, ◌&&◌, List, [], ◌∷◌, ◌++◌, ◌==◌, ltb, is_neg, ℤ,
  arith, Bool-cases, inl, inr, if◌then◌else◌, map, ap,
}
use lvmm.Ioctl.{Attempt, Answer, result, errno, Attempt-cases, made}
use lvmm.Setup.Defs.{
  Call, tss_base, identity_map_base, set_tss_addr, set_identity_map_addr, create_irqchip,
  create_pit2, mmap, set_user_memory_region, create_vcpu, set_cpuid2, map_run, get_regs, set_regs,
  get_sregs, set_sregs, Kernel, Setup, run_steps,
}
use lvmm.Setup.Vcpus.{is_register}
use lvmm.Setup.Trace.{Request, asks, asks_supported, LoggedStep, run_calls}

-- What has been made so far. `fixed`: how many of the TSS address, the identity map address, the
-- interrupt controller and the timer, in this order. `vcpus`: how many vCPUs, and `stage`: for the last
-- one, 0 once it is complete, 1 when it is created, 2 when its CPUID entries were asked for, 3 when they
-- are set. `memory`: 1 when the guest's memory is mapped, 2 when KVM has it. `failed`: a call has failed.
pub record Made : Type 0 where
  pub fixed : ℕ
  pub vcpus : ℕ
  pub stage : ℕ
  pub memory : ℕ
  pub failed : Bool

-- The call that comes next for a machine of `num` vCPUs, and the calls on registers once all is made.
unfoldable pub is_next : ℕ → Made → Request → Bool
is_next num m (asks_supported i) = m.stage == 1 && i + 1 == m.vcpus
is_next num m (asks (set_tss_addr a)) = m.fixed == 0 && a == tss_base
is_next num m (asks (set_identity_map_addr a)) = m.fixed == 1 && a == identity_map_base
is_next num m (asks create_irqchip) = m.fixed == 2
is_next num m (asks create_pit2) = m.fixed == 3
is_next num m (asks (create_vcpu i)) =
    m.fixed == 4 && m.memory == 0 && m.stage == 0 && i == m.vcpus && ltb i num
is_next num m (asks (set_cpuid2 i)) = m.stage == 2 && i + 1 == m.vcpus
is_next num m (asks (map_run i)) = m.stage == 3 && i + 1 == m.vcpus
is_next num m (asks mmap) = m.fixed == 4 && m.memory == 0 && m.stage == 0 && m.vcpus == num
is_next num m (asks (set_user_memory_region r)) = m.memory == 1
is_next num m (asks (get_regs i)) = m.memory == 2 && ltb i m.vcpus
is_next num m (asks (set_regs i)) = m.memory == 2 && ltb i m.vcpus
is_next num m (asks (get_sregs i)) = m.memory == 2 && ltb i m.vcpus
is_next num m (asks (set_sregs i)) = m.memory == 2 && ltb i m.vcpus

-- What a call that succeeds makes.
unfoldable pub made_by : Call → Made → Made
made_by (set_tss_addr a) m = record m { fixed = 1 }
made_by (set_identity_map_addr a) m = record m { fixed = 2 }
made_by create_irqchip m = record m { fixed = 3 }
made_by create_pit2 m = record m { fixed = 4 }
made_by (create_vcpu i) m = record m { vcpus = m.vcpus + 1; stage = 1 }
made_by (set_cpuid2 i) m = record m { stage = 3 }
made_by (map_run i) m = record m { stage = 0 }
made_by mmap m = record m { memory = 1 }
made_by (set_user_memory_region r) m = record m { memory = 2 }
made_by _ m = m

-- A failure of a call on registers is passed over.
unfoldable pub after_call : Answer → Call → Made → Made
unfolding made_by
after_call (result r) c m = made_by c m
after_call (errno e) c m = if is_register c then m else record m { failed = true }

unfoldable pub after_request : Kernel → Request → Made → Made
unfolding after_call
after_request k (asks c) m = after_call (k.answers c) c m
after_request k (asks_supported i) m = record m { stage = 2 }

-- Each call is the next one where it is made, and no call has failed before.
unfoldable pub obeys : ℕ → Kernel → List Request → Made → Bool
unfolding is_next after_request
obeys num k [] m = true
obeys num k (c ∷ cs) m = not m.failed && is_next num m c && obeys num k cs (after_request k c m)

-- What is made behind the calls.
abbrev pub behind : Kernel → List Request → Made → Made
behind k [] m = m
behind k (c ∷ cs) m = behind k cs (after_request k c m)

abbrev pub nothing_made : Made
nothing_made = record { fixed = 0; vcpus = 0; stage = 0; memory = 0; failed = false }

abbrev pub all_made : ℕ → Made
all_made num = record { fixed = 4; vcpus = num; stage = 0; memory = 2; failed = false }

pub obeys-append :
    (num : ℕ) (k : Kernel) (xs ys : List Request) (m : Made)
    → obeys num k xs m ≡ true
    → obeys num k ys (behind k xs m) ≡ true
    → obeys num k (xs ++ ys) m ≡ true
unfolding obeys
obeys-append num k [] ys m p q = q
obeys-append num k (x ∷ xs) ys m p q =
    ground (arith, obeys-append num k xs ys (after_request k x m))

pub behind-append :
    (k : Kernel) (xs ys : List Request) (m : Made)
    → behind k (xs ++ ys) m ≡ behind k ys (behind k xs m)
behind-append k [] ys m = refl
behind-append k (x ∷ xs) ys m = behind-append k xs ys (after_request k x m)

-- The calls of these steps keep the order from what is made on, and if the loop does not stop, all is
-- made behind them.
pub record Follows (num : ℕ) (k : Kernel) (fs : List LoggedStep) (s : Setup) (m : Made)
    : Type 0 where
  pub in_order : obeys num k (run_calls fs s) m ≡ true
  pub complete :
      (s' : Setup) (r : ℤ)
      → run_steps (map LoggedStep.step fs) s ≡ made (s', r)
      → is_neg r ≡ false
      → behind k (run_calls fs s) m ≡ all_made num

pub made_parts :
    {s s' : Setup} {x r : ℤ}
    → ◌≡◌ {A = Attempt (Setup × ℤ)} (made (s, x)) (made (s', r))
    → (s ≡ s') × (x ≡ r)
made_parts e = (cc e, cc e)

-- A step, and the rest where it neither throws nor fails.
pub Follows-next :
    (num : ℕ) (k : Kernel) (f : LoggedStep) (fs : List LoggedStep) (s : Setup) (m : Made)
    → obeys num k (f.calls s) m ≡ true
    → ((s' : Setup) (r : ℤ)
        → f.step s ≡ made (s', r)
        → is_neg r ≡ false
        → Follows num k fs s' (behind k (f.calls s) m))
    → Follows num k (f ∷ fs) s m
unfolding run_calls obeys run_steps
Follows-next num k f fs s m p q = elim (Attempt-cases (f.step s)) [
  | inl ((s', r), e) ↦ elim (Bool-cases (is_neg r)) [
    | inl stop ↦ record {
      in_order = obeys-append num k (f.calls s) _ m p (rw e (rw stop refl));
      complete = λ s₂ r₂ a g.
          let same = made_parts (rw stop at (rw (e, run_steps) at a)) in
          cc (stop, ap is_neg same.1 ∙ g);
    }
    | inr on ↦
        let rest = q s' r e on in
        record {
          in_order = obeys-append num k (f.calls s) _ m p (rw e (rw on rest.in_order));
          complete = λ s₂ r₂ a g. rw e (
              rw on (
                behind-append k (f.calls s) (run_calls fs s') m
                ∙ rest.complete s₂ r₂ (rw on at (rw (e, run_steps) at a)) g));
        }
  ]
  | inr (inl e) ↦ record {
    in_order = obeys-append num k (f.calls s) _ m p (rw e refl);
    complete = λ s₂ r₂ a g. cc (rw (e, run_steps) at a);
  }
  | inr (inr e) ↦ record {
    in_order = obeys-append num k (f.calls s) _ m p (rw e refl);
    complete = λ s₂ r₂ a g. cc (rw (e, run_steps) at a);
  }
]
