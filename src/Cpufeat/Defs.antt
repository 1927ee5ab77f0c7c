-- ===== src/Cpufeat/Defs.antt =====
-- The test for VMX and SVM.
use lvmm.Base.{ℕ, ◌^◌, Bool, ◌&&◌, Option, none, some, ltb, ◌==◌, truthy, if◌then◌else◌, bit_and}

abbrev pub vis_intel_ebx : ℕ
vis_intel_ebx = 0x756e_6547

abbrev pub vis_intel_edx : ℕ
vis_intel_edx = 0x4965_6e69

abbrev pub vis_intel_ecx : ℕ
vis_intel_ecx = 0x6c65_746e

abbrev pub intel_eax_feat : ℕ
intel_eax_feat = 0x0000_0001

abbrev pub intel_feat_vmx_shift : ℕ
intel_feat_vmx_shift = 5

abbrev pub vis_amd_ebx : ℕ
vis_amd_ebx = 0x6874_7541

abbrev pub vis_amd_edx : ℕ
vis_amd_edx = 0x6974_6e65

abbrev pub vis_amd_ecx : ℕ
vis_amd_ecx = 0x444d_4163

abbrev pub amd_eax_feat : ℕ
amd_eax_feat = 0x8000_0001

abbrev pub amd_feat_svm_shift : ℕ
amd_feat_svm_shift = 2

-- `cpuid_regs`.
pub record CpuidRegs : Type 0 where
  pub eax : ℕ
  pub ebx : ℕ
  pub ecx : ℕ
  pub edx : ℕ

-- The instruction, by the values of EAX and ECX.
abbrev pub Cpuid : Type 0
Cpuid = ℕ → ℕ → CpuidRegs

-- `eax_feat` and `feat_vm_shift`; `none` is a thrown exception.
unfoldable pub feature_of : CpuidRegs → Option (ℕ × ℕ)
feature_of regs =
    if regs.ebx == vis_intel_ebx
    then (if regs.ecx == vis_intel_ecx && regs.edx == vis_intel_edx
        then some (intel_eax_feat, intel_feat_vmx_shift)
        else none)
    else if regs.ebx == vis_amd_ebx
    then (if regs.ecx == vis_amd_ecx && regs.edx == vis_amd_edx
        then some (amd_eax_feat, amd_feat_svm_shift)
        else none)
    else none

-- The highest leaf of the feature's range.
unfoldable pub highest_leaf : Cpuid → CpuidRegs → ℕ → ℕ
highest_leaf cpuid regs eax_feat =
    if truthy (bit_and eax_feat 0x8000_0000) then (cpuid 0x8000_0000 0).eax else regs.eax

-- `none`: an exception is thrown.
unfoldable pub cpu_supports_vm : Cpuid → Option Bool
unfolding feature_of highest_leaf
cpu_supports_vm cpuid = elim (feature_of (cpuid 0 0)) [
  | none ↦ none
  | some (eax_feat, feat_vm_shift) ↦
      if ltb (highest_leaf cpuid (cpuid 0 0) eax_feat) eax_feat
      then none
      else some (truthy (bit_and (cpuid eax_feat 0).ecx (2 ^ feat_vm_shift)))
]
