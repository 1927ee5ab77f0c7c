-- ===== src/Kvm/Limits.antt =====
-- When a machine is made, and when it is refused.
use lvmm.Ioctl.{Answer, result, errno, IsSound}
use lvmm.Base.{ℕ, ◌≤◌, ◌≡◌, ◌↔◌, true, none, arith, neg, is_neg}
use lvmm.Kvm.Defs.{Capability, cap_max_vcpus, ask_caps, kvm_cap_check, kvm_create_vm}

-- With positive error numbers, kvmCreateVM returns a negative code exactly when it makes no VM.
pub kvm_create_vm-none :
    (ask : Capability → ℕ) (vcpu_num : ℕ) (created : Answer)
    → IsSound created
    → (is_neg (kvm_create_vm (kvm_cap_check ask) vcpu_num created).1 ≡ true)
      ↔ ((kvm_create_vm (kvm_cap_check ask) vcpu_num created).0 ≡ none)
unfolding kvm_create_vm
kvm_create_vm-none ask vcpu_num (result fd) h = ground arith
kvm_create_vm-none ask vcpu_num (errno e) h = ground arith

-- Where KVM does not know KVM_CAP_MAX_VCPUS, kvmCapCheck leaves a limit of 0, and kvmCreateVM
-- refuses every machine of one vCPU or more with -EINVAL, whatever KVM_CREATE_VM would answer.
pub kvm_create_vm-unlimited :
    (ask : Capability → ℕ) (vcpu_num : ℕ) (created : Answer)
    → ask cap_max_vcpus ≡ 0
    → 1 ≤ vcpu_num
    → kvm_create_vm (kvm_cap_check ask) vcpu_num created ≡ (none, neg 22)
unfolding kvm_create_vm kvm_cap_check ask_caps
kvm_create_vm-unlimited ask vcpu_num (result fd) h g = ground arith
kvm_create_vm-unlimited ask vcpu_num (errno e) h g = ground arith
