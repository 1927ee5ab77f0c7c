-- ===== src/Setup/Idle.antt =====
-- The calls on the registers of vCPUs, which `Protocol` permits once all is made, leave what is made.
use lvmm.Base.{
  ℕ, zero, suc, ◌+◌, ◌<◌, ◌≤◌, ◌≡◌, refl, ap, ◌∙◌, Bool, true, List, [], ◌∷◌, ◌++◌, length,
  is_nonzero, arith, Bool-cases, inl, inr, false, if◌then◌else◌,
}
use lvmm.Ioctl.{Answer, result, errno, Answer-cases}
use lvmm.Setup.Defs.{
  Call, get_regs, set_regs, get_sregs, set_sregs, Kernel, VcpuState, Init, set_tss_addr,
  set_identity_map_addr, create_irqchip, create_pit2, mmap, set_user_memory_region, create_vcpu,
  set_cpuid2, map_run,
}
use lvmm.Setup.Vcpus.{is_register}
use lvmm.Setup.Trace.{Request, asks, then_call, regs_calls, sregs_calls, each_calls}
use lvmm.Setup.Protocol.{
  Made, is_next, made_by, after_call, obeys, behind, obeys-append, behind-append, all_made,
}

idle_made : (c : Call) (m : Made) → is_register c ≡ true → made_by c m ≡ m
unfolding made_by
idle_made (get_regs i) m r = refl
idle_made (set_regs i) m r = refl
idle_made (get_sregs i) m r = refl
idle_made (set_sregs i) m r = refl
idle_made (set_tss_addr a) m r = cc r
idle_made (set_identity_map_addr a) m r = cc r
idle_made create_irqchip m r = cc r
idle_made create_pit2 m r = cc r
idle_made mmap m r = cc r
idle_made (set_user_memory_region a) m r = cc r
idle_made (create_vcpu i) m r = cc r
idle_made (set_cpuid2 i) m r = cc r
idle_made (map_run i) m r = cc r

idle_call : (a : Answer) (c : Call) (m : Made) → is_register c ≡ true → after_call a c m ≡ m
unfolding after_call
idle_call (result x) c m r = idle_made c m r
idle_call (errno e) c m r = rw r refl

module _ (num : ℕ) (k : Kernel) where
  -- Calls that are permitted once all is made, and make nothing.
  pub record IsIdle (xs : List Request) : Type 0 where
    pub permitted : obeys num k xs (all_made num) ≡ true
    pub kept : behind k xs (all_made num) ≡ all_made num

  pub none-IsIdle : IsIdle []
  unfolding obeys
  none-IsIdle = record { permitted = refl; kept = refl }

  pub append-IsIdle : (xs ys : List Request) → IsIdle xs → IsIdle ys → IsIdle (xs ++ ys)
  append-IsIdle xs ys p q = record {
    permitted = obeys-append num k xs ys (all_made num) p.permitted (rw p.kept q.permitted);
    kept = behind-append k xs ys (all_made num) ∙ ap (behind k ys) p.kept ∙ q.kept;
  }

  pub when-IsIdle : (b : Bool) (xs : List Request) → IsIdle xs → IsIdle (if b then [] else xs)
  when-IsIdle true xs h = none-IsIdle
  when-IsIdle false xs h = h

  call-IsIdle :
      (c : Call)
      → is_register c ≡ true
      → is_next num (all_made num) (asks c) ≡ true
      → IsIdle (asks c ∷ [])
  unfolding obeys
  call-IsIdle c r p = record {
    permitted = rw p refl;
    kept = idle_call (k.answers c) c (all_made num) r;
  }

  then_call-IsIdle :
      (c c' : Call) → IsIdle (asks c ∷ []) → IsIdle (asks c' ∷ []) → IsIdle (then_call k c c')
  then_call-IsIdle c c' p q = elim (Answer-cases (k.answers c)) [
    | inl (x, e) ↦ rw (e, then_call) (append-IsIdle (asks c ∷ []) (asks c' ∷ []) p q)
    | inr (x, e) ↦ rw (e, then_call) p
  ]

  pub regs_calls-IsIdle : (i : ℕ) → i < num → IsIdle (regs_calls k i)
  unfolding is_next
  regs_calls-IsIdle i h =
      then_call-IsIdle (get_regs i) (set_regs i) (call-IsIdle (get_regs i) refl (ground arith))
        (call-IsIdle (set_regs i) refl (ground arith))

  pub sregs_calls-IsIdle : (i : ℕ) → i < num → IsIdle (sregs_calls k i)
  unfolding is_next
  sregs_calls-IsIdle i h =
      then_call-IsIdle (get_sregs i) (set_sregs i) (call-IsIdle (get_sregs i) refl (ground arith))
        (call-IsIdle (set_sregs i) refl (ground arith))

  -- The loop over vCPUs that are made.
  pub each_calls-IsIdle :
      (calls : ℕ → List Request) (init : Init)
      → ((i : ℕ) → i < num → IsIdle (calls i))
      → (n i : ℕ) (vs : List VcpuState) → i + length vs ≤ num
      → IsIdle (each_calls calls init n i vs)
  unfolding each_calls
  each_calls-IsIdle calls init each zero i vs h = none-IsIdle
  each_calls-IsIdle calls init each (suc n) i [] h = none-IsIdle
  each_calls-IsIdle calls init each (suc n) i (v ∷ vs) h =
      let rest = each_calls-IsIdle calls init each n (i + 1) vs (omega arith) in
      append-IsIdle (calls i) _ (each i (omega arith))
        (elim (Bool-cases (is_nonzero (init i v).1)) [
          | inl e ↦ rw e none-IsIdle
          | inr e ↦ rw e rest
        ])
