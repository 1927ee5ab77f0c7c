-- ===== src/Kvm/Defs.antt =====
-- `kvmCapCheck` and `kvmCreateVM` of src/kvm.cpp, over what the ioctls answer.
use lvmm.Ioctl.{Answer, result, errno, Attempt, made, thrown, or_throw, ◌>>=◌}
use lvmm.Base.{ℕ, Bool, Option, none, some, ltb, ◌==◌, if◌then◌else◌, ℤ, pos, neg}

-- `EINVAL`.
abbrev pub einval : ℕ
einval = 22

-- `kvm_cap`; an `int` that KVM_CHECK_EXTENSION gives for a known file is not negative.
pub record KvmCap : Type 0 where
  pub immediate_exit : ℕ
  pub nr_slots : ℕ
  pub nr_as : ℕ
  pub soft_vcpus_limit : ℕ
  pub hard_vcpus_limit : ℕ
  pub coalesced_mmio : ℕ

-- The places of `KVM_CAP_CHECK`.
pub data Capability : Type 0 where
  cap_immediate_exit cap_nr_memslots cap_multi_address_space : Capability
  cap_nr_vcpus cap_max_vcpus cap_coalesced_mmio : Capability

-- The loop over `KVM_CAP_CHECK`, which fills the structure in the order of its members.
unfoldable pub ask_caps : (Capability → ℕ) → KvmCap
ask_caps ask = record {
  immediate_exit = ask cap_immediate_exit;
  nr_slots = ask cap_nr_memslots;
  nr_as = ask cap_multi_address_space;
  soft_vcpus_limit = ask cap_nr_vcpus;
  hard_vcpus_limit = ask cap_max_vcpus;
  coalesced_mmio = ask cap_coalesced_mmio;
}

-- Behind the defaults: where the hard limit is 0 the code only prints.
unfoldable pub kvm_cap_check : (Capability → ℕ) → KvmCap
unfolding ask_caps
kvm_cap_check ask =
    let cap = ask_caps ask in
    record cap {
      nr_slots = if cap.nr_slots == 0 then 32 else cap.nr_slots;
      nr_as = if cap.nr_as == 0 then 1 else cap.nr_as;
      soft_vcpus_limit = if cap.soft_vcpus_limit == 0 then 4 else cap.soft_vcpus_limit;
    }

-- What `kvmCreateVM` gives: the descriptor that the new VM is made with, if it is made, and the
-- returned `int`.
unfoldable pub kvm_create_vm : KvmCap → ℕ → Answer → Option ℕ × ℤ
kvm_create_vm cap vcpu_num (result fd) =
    if ltb cap.hard_vcpus_limit vcpu_num then (none, neg einval) else (some fd, pos fd)
kvm_create_vm cap vcpu_num (errno e) =
    if ltb cap.hard_vcpus_limit vcpu_num then (none, neg einval) else (none, neg e)

-- `KVM`, without the descriptor.
pub record Kvm : Type 0 where
  pub api_ver : ℕ
  pub cap : KvmCap
  pub mmap_size : ℕ

-- `KVM_CAP_CHECK` in a constructor: each call throws where it fails.
unfoldable pub asked : (Capability → Answer) → Attempt (Capability → ℕ)
asked ask = do
  immediate_exit ← or_throw (ask cap_immediate_exit)
  nr_slots ← or_throw (ask cap_nr_memslots)
  nr_as ← or_throw (ask cap_multi_address_space)
  soft ← or_throw (ask cap_nr_vcpus)
  hard ← or_throw (ask cap_max_vcpus)
  coalesced ← or_throw (ask cap_coalesced_mmio)
  made (λ c. elim c [
    | cap_immediate_exit ↦ immediate_exit
    | cap_nr_memslots ↦ nr_slots
    | cap_multi_address_space ↦ nr_as
    | cap_nr_vcpus ↦ soft
    | cap_max_vcpus ↦ hard
    | cap_coalesced_mmio ↦ coalesced
  ])

-- `cpuSupportsVM`; `none` is its exception.
abbrev pub or_thrown : Option Bool → Attempt Bool
or_thrown none = thrown
or_thrown (some b) = made b

-- `KVM::KVM`. The answer of cpuSupportsVM is thrown away.
unfoldable pub construct_kvm : Option Bool → Answer → (Capability → Answer) → Answer → Attempt Kvm
unfolding asked kvm_cap_check
construct_kvm supports api_version ask vcpu_mmap_size = do
  _ ← or_thrown supports
  api_ver ← or_throw api_version
  caps ← asked ask
  mmap_size ← or_throw vcpu_mmap_size
  made (record { api_ver = api_ver; cap = kvm_cap_check caps; mmap_size = mmap_size })
