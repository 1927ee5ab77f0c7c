-- ===== src/Vcpu/Cpuid.antt =====
-- The constructor of `Vcpu`: the CPUID entries that it changes and hands to KVM.
use lvmm.Base.{
  ℕ, zero, suc, ◌≤◌, ◌<◌, ◌≡◌, refl, ap, List, [], ◌∷◌, ◌++◌, Option, none, some, ◌==◌, Bool-cases,
  inl, inr, if◌then◌else◌, length, map, take, drop, get_elem?, le_bytes, arith,
}
use lvmm.Ioctl.{Answer, result, Attempt, made, fault, or_throw, ◌>>=◌}
use lvmm.Vcpu.Constants.{
  kvm_cpuid_signature, kvm_cpuid_features, kvm_cpuid_ebx, kvm_cpuid_ecx, kvm_cpuid_edx,
}

-- `kvm_cpuid_entry2`.
pub record CpuidEntry : Type 0 where
  pub function : ℕ
  pub index : ℕ
  pub flags : ℕ
  pub eax : ℕ
  pub ebx : ℕ
  pub ecx : ℕ
  pub edx : ℕ

-- The structure with its 100 entries behind getSupportedCPUID (`Supported`), whose result is not looked at.
pub record CpuidBuffer : Type 0 where
  pub nent : ℕ
  pub entries : List CpuidEntry

unfoldable pub patch : CpuidEntry → CpuidEntry
patch e =
    if e.function == kvm_cpuid_signature
    then record e {
      eax = kvm_cpuid_features;
      ebx = kvm_cpuid_ebx;
      ecx = kvm_cpuid_ecx;
      edx = kvm_cpuid_edx;
    }
    else e

-- The loop over the first `n` entries; `none` is an entry behind the array's end.
unfoldable pub patch_entries : ℕ → List CpuidEntry → Option (List CpuidEntry)
unfolding patch
patch_entries zero es = some es
patch_entries (suc n) [] = none
patch_entries (suc n) (e ∷ es) = elim (patch_entries n es) [
  | none ↦ none
  | some rest ↦ some (patch e ∷ rest)
]

-- `Vcpu::Vcpu`: the entries that KVM has taken. KVM_SET_CPUID2 and `mmap` throw where they fail.
unfoldable pub construct_vcpu : CpuidBuffer → Answer → Answer → Attempt (List CpuidEntry)
unfolding patch_entries
construct_vcpu buf set_cpuid2 map_run = elim (patch_entries buf.nent buf.entries) [
  | none ↦ fault
  | some es ↦ do _ ← or_throw set_cpuid2; _ ← or_throw map_run; made (take buf.nent es)
]

pub patch_entries_lem :
    (n : ℕ) (es : List CpuidEntry)
    → n ≤ length es
    → patch_entries n es ≡ some (map patch (take n es) ++ drop n es)
unfolding patch_entries
patch_entries_lem zero es h = refl
patch_entries_lem (suc n) [] h = elim h [ ]
patch_entries_lem (suc n) (e ∷ es) h = rw (patch_entries_lem n es (omega arith)) refl

take-map-take :
    (n : ℕ) (es rest : List CpuidEntry)
    → n ≤ length es
    → take n (map patch (take n es) ++ rest) ≡ map patch (take n es)
take-map-take zero es rest h = refl
take-map-take (suc n) [] rest h = elim h [ ]
take-map-take (suc n) (e ∷ es) rest h =
    ap (λ xs. patch e ∷ xs) (take-map-take n es rest (omega arith))

get_elem?-map-take :
    (n : ℕ) (es : List CpuidEntry) (i : ℕ) (e : CpuidEntry)
    → i < n
    → get_elem? es i ≡ some e
    → get_elem? (map patch (take n es)) i ≡ some (patch e)
get_elem?-map-take zero es i e h g = elim h [ ]
get_elem?-map-take (suc n) [] i e h g = cc g
get_elem?-map-take (suc n) (x ∷ es) zero e h g = cc g
get_elem?-map-take (suc n) (x ∷ es) (suc i) e h g = get_elem?-map-take n es i e (omega arith) g

pub construct_vcpu_lem :
    (buf : CpuidBuffer) (r r' : ℕ)
    → buf.nent ≤ length buf.entries
    → construct_vcpu buf (result r) (result r') ≡ made (map patch (take buf.nent buf.entries))
unfolding construct_vcpu
construct_vcpu_lem buf r r' h =
    rw (patch_entries_lem buf.nent buf.entries h, construct_vcpu)
      (ap made (take-map-take buf.nent buf.entries (drop buf.nent buf.entries) h))

-- `KVMKVMKVM`, filled up with zeros.
abbrev pub kvm_name : List ℕ
kvm_name = b'K' ∷ b'V' ∷ b'M' ∷ b'K' ∷ b'V' ∷ b'M' ∷ b'K' ∷ b'V' ∷ b'M' ∷ 0 ∷ 0 ∷ 0 ∷ []

-- The text in EBX, ECX and EDX, in this order.
abbrev pub name_in : CpuidEntry → List ℕ
name_in e = le_bytes 4 e.ebx ++ le_bytes 4 e.ecx ++ le_bytes 4 e.edx

-- An entry as the guest is to see it: at the leaf of the hypervisor's signature the name of KVM and
-- the highest leaf of its range, any other with the registers that it had.
pub record IsShown (e shown : CpuidEntry) : Type 0 where
  pub same_leaf : shown.function ≡ e.function
  pub same_index : shown.index ≡ e.index
  pub same_flags : shown.flags ≡ e.flags
  pub named : name_in shown ≡ (if e.function == 0x4000_0000 then kvm_name else name_in e)
  pub highest : shown.eax ≡ (if e.function == 0x4000_0000 then 0x4000_0001 else e.eax)

patch-IsShown : (e : CpuidEntry) → IsShown e (patch e)
unfolding patch
patch-IsShown e = elim (Bool-cases (e.function == kvm_cpuid_signature)) [
  | inl h ↦ rw h (record {
    same_leaf = refl;
    same_index = refl;
    same_flags = refl;
    named = rw h refl;
    highest = rw h refl;
  })
  | inr h ↦ rw h (record {
    same_leaf = refl;
    same_index = refl;
    same_flags = refl;
    named = rw h refl;
    highest = rw h refl;
  })
]

-- Whatever getSupportedCPUID returned: if it left a count within the array, and the two later
-- calls succeed, the constructor hands KVM each of the counted entries: at the hypervisor's
-- signature with the name KVMKVMKVM and the highest leaf, otherwise with the registers it had.
pub construct_vcpu-IsShown :
    (buf : CpuidBuffer) (r r' i : ℕ) (e : CpuidEntry)
    → buf.nent ≤ length buf.entries
    → i < buf.nent
    → get_elem? buf.entries i ≡ some e
    → (given : List CpuidEntry) × (shown : CpuidEntry) × (construct_vcpu buf (result r) (result r')
        ≡ made given)
      × (get_elem? given i ≡ some shown)
      × IsShown e shown
construct_vcpu-IsShown buf r r' i e h p q = (
  map patch (take buf.nent buf.entries),
  patch e,
  construct_vcpu_lem buf r r' h,
  get_elem?-map-take buf.nent buf.entries i e p q,
  patch-IsShown e,
)
