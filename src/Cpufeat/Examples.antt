-- ===== src/Cpufeat/Examples.antt =====
-- An AMD processor with SVM.
use lvmm.Base.{◌≡◌, ◌==◌, refl, arith, if◌then◌else◌, some, true}
use lvmm.Cpufeat.Defs.{Cpuid, feature_of, highest_leaf, cpu_supports_vm}
use lvmm.Cpufeat.Vendor.{answer_by_name, cpu_supports_vm-answer_by_name}

abbrev amd : Cpuid
amd leaf sub =
    if leaf == 0
    then record { eax = 0x10; ebx = 0x6874_7541; ecx = 0x444d_4163; edx = 0x6974_6e65 }
    else record { eax = 0x8000_0008; ebx = 0; ecx = 4; edx = 0 }

amd-svm : cpu_supports_vm amd ≡ some true
unfolding cpu_supports_vm feature_of highest_leaf
amd-svm = refl

cpu_supports_vm-answer_by_name_example : cpu_supports_vm amd ≡ answer_by_name amd
cpu_supports_vm-answer_by_name_example =
    cpu_supports_vm-answer_by_name amd
      (record { ebx_32 = omega arith; ecx_32 = omega arith; edx_32 = omega arith })
