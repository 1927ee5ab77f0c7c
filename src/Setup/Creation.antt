-- ===== src/Setup/Creation.antt =====
-- The calls of `createVcpu` and of the constructor of `Vcpu` keep to the order of `Protocol`, and where
-- they end well the vCPUs are made.
use lvmm.Base.{
  ℕ, zero, suc, ◌+◌, ◌≡◌, refl, ap, ◌∙◌, true, false, List, [], ◌∷◌, ◌++◌, ◌==◌, ltb, length,
  length-append, is_neg, ℤ, arith, inl, inr, Option-cases,
}
use lvmm.Ioctl.{Answer, result, errno, IsSound, Answer-cases, Attempt-cases, made, kvm_ioctl}
use lvmm.Vcpu.{CpuidEntry, patch_entries, construct_vcpu}
use lvmm.Setup.Defs.{Call, create_vcpu, set_cpuid2, map_run, Kernel, Setup, new_vcpu, create_vcpus}
use lvmm.Setup.Trace.{then_call, construct_calls, create_calls}
use lvmm.Setup.Protocol.{
  Made, is_next, made_by, after_call, after_request, obeys, behind, obeys-append, behind-append,
  made_parts,
}

-- The first four calls are made, and `n` vCPUs, the last of them up to `stage`.
abbrev pub made_vcpus : ℕ → ℕ → Made
made_vcpus n stage = record { fixed = 4; vcpus = n; stage = stage; memory = 0; failed = false }

module _ (num : ℕ) (k : Kernel) where
  construct_calls-obeys : (i : ℕ) → obeys num k (construct_calls k i) (made_vcpus (i + 1) 1) ≡ true
  unfolding construct_calls obeys is_next after_request after_call made_by
  construct_calls-obeys i =
      let own : (i + 1 == i + 1) ≡ true = ground arith in
      elim (Option-cases (patch_entries k.supported.nent k.supported.entries)) [
        | inl e ↦ rw (e, construct_calls) (ground (arith, own))
        | inr (es, e) ↦ elim (Answer-cases (k.answers (set_cpuid2 i))) [
          | inl (x, a) ↦ rw (e, a, construct_calls, then_call) (ground (arith, a, own))
          | inr (x, a) ↦ rw (e, a, construct_calls, then_call) (ground (arith, a, own))
        ]
      ]

  -- A constructor that does not throw.
  construct_calls-made :
      (i : ℕ) {given : List CpuidEntry}
      → construct_vcpu k.supported (k.answers (set_cpuid2 i)) (k.answers (map_run i)) ≡ made given
      → behind k (construct_calls k i) (made_vcpus (i + 1) 1) ≡ made_vcpus (i + 1) 0
  unfolding construct_calls construct_vcpu after_request after_call made_by
  construct_calls-made i h =
      elim (Option-cases (patch_entries k.supported.nent k.supported.entries)) [
        | inl e ↦ cc (rw (e, construct_vcpu) at h)
        | inr (es, e) ↦ elim (Answer-cases (k.answers (set_cpuid2 i))) [
          | inr (x, a) ↦ cc (rw (e, a, construct_vcpu) at h)
          | inl (x, a) ↦ elim (Answer-cases (k.answers (map_run i))) [
            | inr (y, b) ↦ cc (rw (e, a, b, construct_vcpu) at h)
            | inl (y, b) ↦ rw (e, a, construct_calls, then_call) (rw (a, b) refl)
          ]
        ]
      ]

  created_one :
      (i r : ℕ)
      → k.answers (create_vcpu i) ≡ result r
      → after_call (k.answers (create_vcpu i)) (create_vcpu i) (made_vcpus i 0)
        ≡ made_vcpus (i + 1) 1
  unfolding after_call made_by
  created_one i r e = rw e refl

  -- `createVcpu` from vCPU `i` on, where `i` vCPUs are made.
  pub create_calls-obeys :
      (n i : ℕ) → i + n ≡ num → obeys num k (create_calls k n i) (made_vcpus i 0) ≡ true
  unfolding create_calls obeys is_next after_request
  create_calls-obeys zero i h = refl
  create_calls-obeys (suc n) i h =
      let own : (i == i) ≡ true = ground arith in
      let low : ltb i num ≡ true = ground (arith, h) in
      elim (Answer-cases (k.answers (create_vcpu i))) [
        | inr (x, e) ↦ rw (e, create_calls) (ground (arith, own, low))
        | inl (r, e) ↦
            rw (e, create_calls)
              (rw (own, low, created_one i r e)
                (obeys-append num k (construct_calls k i) _ (made_vcpus (i + 1) 1)
                  (construct_calls-obeys i)
                  (elim (Attempt-cases (
                    construct_vcpu k.supported (k.answers (set_cpuid2 i))
                      (k.answers (map_run i)))) [
                        | inl (given, g) ↦
                            rw (g, construct_calls-made i g)
                              (create_calls-obeys n (i + 1) (omega arith))
                        | inr (inl g) ↦ rw g refl
                        | inr (inr g) ↦ rw g refl
                      ])))
      ]

-- A call whose code is not negative has succeeded.
pub kvm_ioctl-result :
    (a : Answer) → IsSound a → is_neg (kvm_ioctl a) ≡ false → (r : ℕ) × (a ≡ result r)
kvm_ioctl-result (result r) h g = (r, refl)
kvm_ioctl-result (errno e) h g = absurd (ground arith)

-- Where all of them are made.
pub create_vcpus-made :
    (num : ℕ) (k : Kernel) (n i : ℕ) (s s' : Setup) (r : ℤ)
    → ((c : Call) → IsSound (k.answers c))
    → create_vcpus k n i s ≡ made (s', r)
    → is_neg r ≡ false
    → (behind k (create_calls k n i) (made_vcpus i 0) ≡ made_vcpus (i + n) 0)
      × (length s'.vcpus ≡ length s.vcpus + n)
unfolding create_vcpus create_calls after_request
create_vcpus-made num k zero i s s' r sound e g =
    (ap (λ v. made_vcpus v 0) (omega arith), ground arith)
create_vcpus-made num k (suc n) i s s' r sound e g =
    elim (Answer-cases (k.answers (create_vcpu i))) [
      | inr (x, a) ↦
          let failed = made_parts (rw (a, create_vcpus) at e) in
          let (y, b) =
            kvm_ioctl-result (errno x) (rw a at (sound (create_vcpu i))) (ap is_neg failed.1 ∙ g) in
          cc b
      | inl (x, a) ↦
          elim (Attempt-cases
            (construct_vcpu k.supported (k.answers (set_cpuid2 i)) (k.answers (map_run i)))) [
              | inl (given, b) ↦
                  let s1 : Setup = record s { vcpus = s.vcpus ++ new_vcpu k i given ∷ [] } in
                  let (ih, longer) =
                    create_vcpus-made num k n (i + 1) s1 s' r sound
                      (rw (b, create_vcpus) at (rw (a, create_vcpus) at e)) g in
                  (
                    rw (a, create_calls)
                        (rw b (
                          ap (behind k (construct_calls k i ++ create_calls k n (i + 1)))
                            (created_one num k i x a)
                          ∙ behind-append k (construct_calls k i) (create_calls k n (i + 1))
                              (made_vcpus (i + 1) 1)
                          ∙ ap (behind k (create_calls k n (i + 1)))
                              (construct_calls-made num k i b)
                          ∙ ih
                          ∙ ap (λ v. made_vcpus v 0) (omega arith))),
                    omega (arith, longer, length-append s.vcpus (new_vcpu k i given ∷ [])),
                  )
              | inr (inl b) ↦ cc (rw (a, b, create_vcpus) at e)
              | inr (inr b) ↦ cc (rw (a, b, create_vcpus) at e)
            ]
    ]
