-- ===== src/Setup/Vcpus.antt =====
-- The loops over the vCPUs.
use mathlib.Core.List.{append-nil, append_assoc}
use lvmm.Base.{
  ℕ, zero, suc, ◌+◌, ◌≤◌, ◌<◌, ◌≡◌, refl, sym, ap, ◌∙◌, List, [], ◌∷◌, ◌++◌, some, Bool, true,
  false, Bool-cases, inl, inr, ℤ, pos, is_neg, is_nonzero, length, map, take, get_elem?, arith,
}
use lvmm.Ioctl.{result, made}
use lvmm.Vcpu.{CpuidEntry, construct_vcpu, construct_vcpu_lem, patch}
use lvmm.Setup.Defs.{
  Call, create_vcpu, set_cpuid2, map_run, get_regs, set_regs, get_sregs, set_sregs, Kernel,
  VcpuState, Setup, new_vcpu, create_vcpus, Init, init_vcpus,
}

-- A call on the registers of a vCPU.
abbrev pub is_register : Call → Bool
is_register (get_regs i) = true
is_register (set_regs i) = true
is_register (get_sregs i) = true
is_register (set_sregs i) = true
is_register c = false

-- Every other call succeeds, and the CPUID entries lie in their array.
pub record Works (k : Kernel) : Type 0 where
  pub answered : (c : Call) → is_register c ≡ false → (r : ℕ) × (k.answers c ≡ result r)
  pub counted : k.supported.nent ≤ length k.supported.entries

-- The entries that every vCPU is given.
abbrev pub given : Kernel → List CpuidEntry
given k = map patch (take k.supported.nent k.supported.entries)

-- `n` new vCPUs from number `i` on.
abbrev pub created : Kernel → ℕ → ℕ → List VcpuState
created k zero i = []
created k (suc n) i = new_vcpu k i (given k) ∷ created k n (i + 1)

pub length-created : (k : Kernel) (n i : ℕ) → length (created k n i) ≡ n
length-created k zero i = refl
length-created k (suc n) i = ap suc (length-created k n (i + 1))

constructs :
    (k : Kernel) (i : ℕ)
    → Works k
    → construct_vcpu k.supported (k.answers (set_cpuid2 i)) (k.answers (map_run i)) ≡ made (given k)
constructs k i w =
    let (r, e) = w.answered (set_cpuid2 i) refl in
    let (r', e') = w.answered (map_run i) refl in
    rw (e, e') (construct_vcpu_lem k.supported r r' w.counted)

pub create_vcpus_lem :
    (k : Kernel) (n i : ℕ) (s : Setup)
    → Works k
    → create_vcpus k n i s ≡ made (record s { vcpus = s.vcpus ++ created k n i }, pos 0)
unfolding create_vcpus
create_vcpus_lem k zero i s w =
    ap (λ vs. made (record s { vcpus = vs }, pos 0)) (sym (append-nil s.vcpus))
create_vcpus_lem k (suc n) i s w =
    let (r, e) = w.answered (create_vcpu i) refl in
    rw (e, create_vcpus, constructs k i w)
      (create_vcpus_lem k n (i + 1) (record s { vcpus = s.vcpus ++ new_vcpu k i (given k) ∷ [] }) w
        ∙ ap (λ vs. made (record s { vcpus = vs }, pos 0))
            (append_assoc s.vcpus (new_vcpu k i (given k) ∷ []) (created k n (i + 1))))

-- The loop ends with 0 or 1, whatever the calls answer.
pub init_vcpus-ends :
    (init : Init) (n i : ℕ) (vs : List VcpuState)
    → n ≤ length vs
    → (vs' : List VcpuState) × (r : ℤ) × (init_vcpus init n i vs ≡ some (vs', r))
      × (is_neg r ≡ false)
      × (length vs' ≡ length vs)
unfolding init_vcpus
init_vcpus-ends init zero i vs h = (vs, pos 0, refl, refl, refl)
init_vcpus-ends init (suc n) i [] h = elim h [ ]
init_vcpus-ends init (suc n) i (v ∷ vs) h = elim (Bool-cases (is_nonzero (init i v).1)) [
  | inl e ↦ ((init i v).0 ∷ vs, pos 1, rw (e, init_vcpus) refl, refl, refl)
  | inr e ↦
      let (vs', r, eq, neg_free, same) = init_vcpus-ends init n (i + 1) vs (omega arith) in
      ((init i v).0 ∷ vs', r, rw (e, init_vcpus, eq) refl, neg_free, ap suc same)
]

-- What `f` makes of the vCPUs from number `i` on.
abbrev pub map_from : (ℕ → VcpuState → VcpuState) → ℕ → List VcpuState → List VcpuState
map_from f i [] = []
map_from f i (v ∷ vs) = f i v ∷ map_from f (i + 1) vs

pub init_vcpus_lem :
    (init : Init) (f : ℕ → VcpuState → VcpuState) (i : ℕ) (vs : List VcpuState)
    → ((j : ℕ) (v : VcpuState) → init j v ≡ (f j v, pos 0))
    → init_vcpus init (length vs) i vs ≡ some (map_from f i vs, pos 0)
unfolding init_vcpus
init_vcpus_lem init f i [] h = refl
init_vcpus_lem init f i (v ∷ vs) h =
    rw (h i v, init_vcpus, init_vcpus_lem init f (i + 1) vs h, h i v) refl

pub get_elem?-map_from :
    (f : ℕ → VcpuState → VcpuState) (i j : ℕ) (vs : List VcpuState) (v : VcpuState)
    → get_elem? vs j ≡ some v
    → get_elem? (map_from f i vs) j ≡ some (f (i + j) v)
get_elem?-map_from f i j [] v h = cc h
get_elem?-map_from f i zero (x ∷ vs) v h = let e : i ≡ i + 0 = omega arith in cc
get_elem?-map_from f i (suc j) (x ∷ vs) v h =
    get_elem?-map_from f (i + 1) j vs v h ∙ ap (λ m. some (f m v)) (omega arith)

pub get_elem?-created :
    (k : Kernel) (n i j : ℕ)
    → j < n
    → get_elem? (created k n i) j ≡ some (new_vcpu k (i + j) (given k))
get_elem?-created k zero i j h = elim h [ ]
get_elem?-created k (suc n) i zero h = ap (λ m. some (new_vcpu k m (given k))) (omega arith)
get_elem?-created k (suc n) i (suc j) h =
    get_elem?-created k n (i + 1) j (omega arith)
    ∙ ap (λ m. some (new_vcpu k m (given k))) (omega arith)
