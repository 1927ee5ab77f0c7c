-- ===== src/Setup/Obeys.antt =====
-- `initMachine` keeps to the order of `Protocol`, on every path.
use mathlib.Core.Path.{subst}
use lvmm.Base.{
  ℕ, zero, suc, ◌+◌, ◌≡◌, refl, ap, sym, ◌∙◌, true, false, List, [], ◌∷◌, some, length, is_neg,
  is_nonzero, ℤ, arith, Bool-cases, Option-cases, inl, inr,
}
use lvmm.Ioctl.{errno, IsSound, Answer-cases, made}
use lvmm.Boot.{Config}
use lvmm.Pio.{Table, init_pio_handler, machine_devices}
use lvmm.Setup.Defs.{
  Call, tss_base, identity_map_base, region_of, set_tss_addr, set_identity_map_addr, create_irqchip,
  create_pit2, mmap, set_user_memory_region, Kernel, VcpuState, Setup, alloc_guest_ram, init_pio,
  Init, init_vcpus, init_each, set_regs_of, set_sregs_of,
}
use lvmm.Setup.Head.{start}
use lvmm.Setup.Trace.{
  create_calls, asks, regs_calls, sregs_calls, LoggedStep, one_call, traced_steps, vcpus_step,
  ram_step, pio_step, regs_step, sregs_step, steps_from_pio, steps_from_ram, run_calls,
  init_machine_calls,
}
use lvmm.Setup.Protocol.{
  Made, is_next, made_by, after_call, after_request, obeys, behind, nothing_made, all_made, Follows,
  Follows-next, made_parts,
}
use lvmm.Setup.Idle.{regs_calls-IsIdle, sregs_calls-IsIdle, each_calls-IsIdle, when-IsIdle}
use lvmm.Setup.Creation.{kvm_ioctl-result, made_vcpus, create_calls-obeys, create_vcpus-made}

length-init_vcpus :
    (init : Init) (n i : ℕ) (vs vs' : List VcpuState) (r : ℤ)
    → init_vcpus init n i vs ≡ some (vs', r)
    → length vs' ≡ length vs
unfolding init_vcpus
length-init_vcpus init zero i vs vs' r e = ground (arith, e)
length-init_vcpus init (suc n) i [] vs' r e = cc e
length-init_vcpus init (suc n) i (v ∷ vs) vs' r e = elim (Bool-cases (is_nonzero (init i v).1)) [
  | inl stop ↦ ground (arith, e, stop)
  | inr on ↦ elim (Option-cases (init_vcpus init n (i + 1) vs)) [
    | inl q ↦ ground (arith, e, on, q)
    | inr ((ws, code), q) ↦ ground (arith, e, on, q, length-init_vcpus init n (i + 1) vs ws code q)
  ]
]

-- A step that leaves as many vCPUs as it finds.
length-init_each :
    (c : Config) (init : Init) (s s' : Setup) (r : ℤ)
    → init_each c init s ≡ made (s', r)
    → length s'.vcpus ≡ length s.vcpus
unfolding init_each
length-init_each c init s s' r e = elim (Option-cases (init_vcpus init c.vcpu_num 0 s.vcpus)) [
  | inl a ↦ cc (rw (a, init_each) at e)
  | inr ((vs, code), a) ↦
      ap (λ t. length t.vcpus) (sym (made_parts (rw (a, init_each) at e)).0)
      ∙ length-init_vcpus init c.vcpu_num 0 s.vcpus vs code a
]

module _ (num : ℕ) (k : Kernel) (sound : (c : Call) → IsSound (k.answers c)) where
  -- A step of one call, which is the next one.
  one_call-next :
      (call : Call) (fs : List LoggedStep) (s : Setup) (m : Made)
      → m.failed ≡ false
      → is_next num m (asks call) ≡ true
      → Follows num k fs s (made_by call m)
      → Follows num k (one_call k call ∷ fs) s m
  unfolding obeys after_request after_call
  one_call-next call fs s m w p q =
      Follows-next num k (one_call k call) fs s m (ground (arith, w, p)) λ s' r e g.
        let (same, code) = made_parts e in
        let (x, a) = kvm_ioctl-result (k.answers call) (sound call) (ap is_neg code ∙ g) in
        subst (λ t. Follows num k fs t (after_call (k.answers call) call m)) same (rw a q)

  -- The last steps, where all is made.
  module _ (c : Config) where
    ended-Follows : (s : Setup) → Follows num k [] s (all_made num)
    unfolding run_calls obeys
    ended-Follows s = record { in_order = refl; complete = λ s' r e g. refl }

    sregs_step-Follows :
        (s : Setup) → length s.vcpus ≡ num → Follows num k (sregs_step c k ∷ []) s (all_made num)
    sregs_step-Follows s h =
        let loop =
          each_calls-IsIdle num k (sregs_calls k) (set_sregs_of c k) (sregs_calls-IsIdle num k)
            c.vcpu_num 0 s.vcpus (omega arith) in
        let idle = when-IsIdle num k c.is_64bit_boot _ loop in
        Follows-next num k (sregs_step c k) [] s (all_made num) idle.permitted
          λ s' r e g. rw idle.kept (ended-Follows s')

    regs_steps-Follow :
        (s : Setup)
        → length s.vcpus ≡ num
        → Follows num k (regs_step c k ∷ sregs_step c k ∷ []) s (all_made num)
    regs_steps-Follow s h =
        let idle =
          each_calls-IsIdle num k (regs_calls k) (set_regs_of k) (regs_calls-IsIdle num k)
            c.vcpu_num 0 s.vcpus (omega arith) in
        Follows-next num k (regs_step c k) (sregs_step c k ∷ []) s (all_made num) idle.permitted
          λ s' r e g.
            rw idle.kept (sregs_step-Follows s' (length-init_each c (set_regs_of k) s s' r e ∙ h))

    pio_steps-Follow :
        (s : Setup) → length s.vcpus ≡ num → Follows num k (steps_from_pio c k) s (all_made num)
    unfolding init_pio obeys
    pio_steps-Follow s h =
        Follows-next num k pio_step (regs_step c k ∷ sregs_step c k ∷ []) s (all_made num) refl
          λ s' r e g. elim (Option-cases (init_pio_handler machine_devices s.table)) [
            | inl a ↦ cc (rw (a, init_pio) at e)
            | inr (t, a) ↦ regs_steps-Follow s' (
                omega (
                  arith,
                  h,
                  ap (λ (x : Setup). length x.vcpus) (made_parts (rw (a, init_pio) at e)).0,
                ))
          ]

    ram_steps-Follow :
        (s : Setup) → length s.vcpus ≡ num → Follows num k (steps_from_ram c k) s (made_vcpus num 0)
    unfolding alloc_guest_ram obeys is_next after_request after_call made_by
    ram_steps-Follow s h =
        Follows-next num k (ram_step c k) _ s (made_vcpus num 0) (ground arith) λ s' r e g.
          elim (Answer-cases (k.answers mmap)) [
            | inr (x, a) ↦
                let failed = made_parts (rw (a, alloc_guest_ram) at e) in
                let (y, b) =
                  kvm_ioctl-result (errno x) (rw a at (sound mmap)) (ap is_neg failed.1 ∙ g) in
                cc b
            | inl (x, a) ↦
                let kept =
                  ap (λ (t : Setup). length t.vcpus)
                    (made_parts (rw (a, alloc_guest_ram) at e)).0 in
                rw a (
                  one_call-next (set_user_memory_region (region_of c)) (steps_from_pio c k) s'
                    (record (made_vcpus num 0) { memory = 1 }) refl refl
                    (pio_steps-Follow s' (omega (arith, h, kept))))
          ]

initmachine-Follows :
    (c : Config) (k : Kernel) (t : Table)
    → ((call : Call) → IsSound (k.answers call))
    → Follows c.vcpu_num k (traced_steps c k) (start t) nothing_made
unfolding traced_steps is_next after_request after_call made_by
initmachine-Follows c k t sound =
    let num = c.vcpu_num in
    let from_vcpus = vcpus_step c k ∷ steps_from_ram c k in
    let from_pit = one_call k create_pit2 ∷ from_vcpus in
    let from_chip = one_call k create_irqchip ∷ from_pit in
    let from_identity = one_call k (set_identity_map_addr identity_map_base) ∷ from_chip in
    let next = one_call-next num k sound in
    next (set_tss_addr tss_base) from_identity (start t) nothing_made refl refl (
      next (set_identity_map_addr identity_map_base) from_chip (start t) _ refl refl (
        next create_irqchip from_pit (start t) _ refl refl (
          next create_pit2 from_vcpus (start t) _ refl refl (
            Follows-next num k (vcpus_step c k) (steps_from_ram c k) (start t) (made_vcpus 0 0)
              (create_calls-obeys num k num 0 (omega arith))
              λ s' r e g.
                let (all_vcpus, counted) = create_vcpus-made num k num 0 (start t) s' r sound e g in
                let all : behind k (create_calls k num 0) (made_vcpus 0 0) ≡ made_vcpus num 0 =
                  all_vcpus ∙ ap (λ v. made_vcpus v 0) (omega arith) in
                rw all (ram_steps-Follow num k sound c s' (omega (arith, counted)))))))

-- Whatever the calls answer, with a positive `errno` where they fail: the calls of initMachine, also
-- where it returns early or throws, keep this order, each where it is the next one, so that none is
-- left out or repeated before a later one: the TSS address, the identity map address, the interrupt
-- controller, the timer; then each vCPU in the order of the numbers, for which KVM creates it, is asked
-- for the CPUID entries and takes them, and its run page is mapped; then the guest's memory is mapped,
-- and handed to KVM. Only then come calls on registers, of vCPUs that were created. No call comes
-- behind one that failed, unless that was one on registers or the one that asks for the entries.
pub init_machine_calls-obeys :
    (c : Config) (k : Kernel) (t : Table)
    → ((call : Call) → IsSound (k.answers call))
    → obeys c.vcpu_num k (init_machine_calls c k (start t)) nothing_made ≡ true
unfolding init_machine_calls
init_machine_calls-obeys c k t sound = (initmachine-Follows c k t sound).in_order
