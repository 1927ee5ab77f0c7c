-- ===== src/Kvm/Examples.antt =====
-- A KVM that knows every capability, and one that lacks KVM_CAP_MAX_VCPUS.
use lvmm.Ioctl.{result}
use lvmm.Base.{ℕ, ◌≡◌, none, some, neg, pos, refl}
use lvmm.Kvm.Defs.{Capability, cap_max_vcpus, kvm_cap_check, ask_caps, kvm_create_vm}

abbrev known : Capability → ℕ
known c = 8

abbrev unknown : Capability → ℕ
unknown cap_max_vcpus = 0
unknown c = 8

unlimited_refused : kvm_create_vm (kvm_cap_check unknown) 1 (result 5) ≡ (none, neg 22)
unfolding kvm_create_vm kvm_cap_check ask_caps
unlimited_refused = refl

known_made : kvm_create_vm (kvm_cap_check known) 8 (result 5) ≡ (some 5, pos 5)
unfolding kvm_create_vm kvm_cap_check ask_caps
known_made = refl
