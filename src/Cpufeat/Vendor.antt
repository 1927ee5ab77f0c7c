-- ===== src/Cpufeat/Vendor.antt =====
-- What the test answers on processors of either vendor, and on others.
use lvmm.Base.{
  ℕ, ◌/◌, ◌%◌, ◌^◌, ◌<◌, ◌≡◌, ◌≢◌, inl, inr, refl, ap, ◌∙◌, List, [], ◌∷◌, ◌++◌, Option, none, some,
  Bool, ◌==◌, ltb, truthy, bit_and, le_bytes, same_bytes, same_bytes_iff, differ_bytes,
  if◌then◌else◌, Bool-cases, le_word, le_word-le_bytes, take, drop, arith,
}
use lvmm.Base.Bits.{bit_and-field}
use lvmm.Cpufeat.Defs.{CpuidRegs, Cpuid, feature_of, cpu_supports_vm}

abbrev pub name_of : ℕ → ℕ → ℕ → List ℕ
name_of ebx edx ecx = le_bytes 4 ebx ++ le_bytes 4 edx ++ le_bytes 4 ecx

-- The vendor's name, as the manuals spell it: EBX, EDX, ECX, each with its lowest byte first.
abbrev pub vendor : CpuidRegs → List ℕ
vendor r = name_of r.ebx r.edx r.ecx

abbrev pub genuine_intel : List ℕ
genuine_intel =
    b'G' ∷ b'e' ∷ b'n' ∷ b'u' ∷ b'i' ∷ b'n' ∷ b'e' ∷ b'I' ∷ b'n' ∷ b't' ∷ b'e' ∷ b'l' ∷ []

abbrev pub authentic_amd : List ℕ
authentic_amd =
    b'A' ∷ b'u' ∷ b't' ∷ b'h' ∷ b'e' ∷ b'n' ∷ b't' ∷ b'i' ∷ b'c' ∷ b'A' ∷ b'M' ∷ b'D' ∷ []

-- Registers of 32 bits.
pub record Is32 (r : CpuidRegs) : Type 0 where
  pub ebx_32 : r.ebx < 2 ^ 32
  pub ecx_32 : r.ecx < 2 ^ 32
  pub edx_32 : r.edx < 2 ^ 32

-- Equal names mean equal registers.
vendor_registers :
    (r : CpuidRegs) (ebx edx ecx : ℕ)
    → Is32 r
    → ebx < 2 ^ 32
    → edx < 2 ^ 32
    → ecx < 2 ^ 32
    → vendor r ≡ le_bytes 4 ebx ++ le_bytes 4 edx ++ le_bytes 4 ecx
    → (r.ebx ≡ ebx) × (r.edx ≡ edx) × (r.ecx ≡ ecx)
vendor_registers r ebx edx ecx w p q t h = (
  omega (
    arith,
    ap (λ xs. le_word (take 4 xs)) h,
    le_word-le_bytes 4 r.ebx w.ebx_32,
    le_word-le_bytes 4 ebx p,
  ),
  omega (
    arith,
    ap (λ xs. le_word (take 4 (drop 4 xs))) h,
    le_word-le_bytes 4 r.edx w.edx_32,
    le_word-le_bytes 4 edx q,
  ),
  omega (
    arith,
    ap (λ xs. le_word (drop 8 xs)) h,
    le_word-le_bytes 4 r.ecx w.ecx_32,
    le_word-le_bytes 4 ecx t,
  ),
)

intel_feature : (r : CpuidRegs) → Is32 r → vendor r ≡ genuine_intel → feature_of r ≡ some (1, 5)
unfolding feature_of
intel_feature r w h =
    let (b, d, c) =
      vendor_registers r 0x756e_6547 0x4965_6e69 0x6c65_746e w (omega arith) (omega arith)
        (omega arith) h in
    ground (arith, b, d, c)

amd_feature :
    (r : CpuidRegs) → Is32 r → vendor r ≡ authentic_amd → feature_of r ≡ some (0x8000_0001, 2)
unfolding feature_of
amd_feature r w h =
    let (b, d, c) =
      vendor_registers r 0x6874_7541 0x6974_6e65 0x444d_4163 w (omega arith) (omega arith)
        (omega arith) h in
    ground (arith, b, d, c)

other_name :
    (r : CpuidRegs) (ebx edx ecx : ℕ)
    → vendor r ≢ name_of ebx edx ecx
    → r.ebx ≡ ebx
    → r.edx ≡ edx
    → r.ecx ≡ ecx
    → ⊥
other_name r ebx edx ecx h b d c =
    h (ap (λ x. name_of x r.edx r.ecx) b ∙ ap (λ x. name_of ebx x r.ecx) d ∙ ap (name_of ebx edx) c)

no_feature :
    (r : CpuidRegs) → vendor r ≢ genuine_intel → vendor r ≢ authentic_amd → feature_of r ≡ none
unfolding feature_of
no_feature r p q = ground (
  arith,
  other_name r 0x756e_6547 0x4965_6e69 0x6c65_746e p,
  other_name r 0x6874_7541 0x6974_6e65 0x444d_4163 q,
)

vmx_test : (a : ℕ) → truthy (bit_and a (2 ^ 5)) ≡ (a / 2 ^ 5 % 2 == 1)
vmx_test a = ground (arith, bit_and-field 5 1 a)

svm_test : (a : ℕ) → truthy (bit_and a (2 ^ 2)) ≡ (a / 2 ^ 2 % 2 == 1)
svm_test a = ground (arith, bit_and-field 2 1 a)

-- What the answers of a processor of a vendor with the feature's leaf, the range's highest leaf and
-- the feature's bit mean.
abbrev pub answer_of : Cpuid → ℕ → ℕ → ℕ → Option Bool
answer_of cpuid leaf highest bit =
    if ltb highest leaf then none else some ((cpuid leaf 0).ecx / 2 ^ bit % 2 == 1)

-- The answer by the vendor's name.
abbrev pub answer_by_name : Cpuid → Option Bool
answer_by_name cpuid =
    if same_bytes (vendor (cpuid 0 0)) genuine_intel
    then answer_of cpuid 1 (cpuid 0 0).eax 5
    else if same_bytes (vendor (cpuid 0 0)) authentic_amd
    then answer_of cpuid 0x8000_0001 (cpuid 0x8000_0000 0).eax 2
    else none

-- On registers of 32 bits: where CPUID names GenuineIntel, cpuSupportsVM answers with bit 5 (VMX)
-- of ECX at leaf 1, and where it names AuthenticAMD, with bit 2 (SVM) of ECX at leaf 0x80000001; it
-- throws where the highest leaf of that range is lower, and at any other name.
pub cpu_supports_vm-answer_by_name :
    (cpuid : Cpuid) → Is32 (cpuid 0 0) → cpu_supports_vm cpuid ≡ answer_by_name cpuid
unfolding cpu_supports_vm
cpu_supports_vm-answer_by_name cpuid w =
    elim (Bool-cases (same_bytes (vendor (cpuid 0 0)) genuine_intel)) [
      | inl h ↦
          let e = intel_feature (cpuid 0 0) w ((same_bytes_iff _ _).0 h) in
          rw (h, e, cpu_supports_vm, vmx_test) refl
      | inr h ↦ elim (Bool-cases (same_bytes (vendor (cpuid 0 0)) authentic_amd)) [
        | inl g ↦
            let e = amd_feature (cpuid 0 0) w ((same_bytes_iff _ _).0 g) in
            rw (h, g, e, cpu_supports_vm, svm_test) refl
        | inr g ↦
            let e = no_feature (cpuid 0 0) (differ_bytes _ _ h) (differ_bytes _ _ g) in
            rw (h, g, e, cpu_supports_vm) refl
      ]
    ]
