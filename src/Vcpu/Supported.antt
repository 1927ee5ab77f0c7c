-- ===== src/Vcpu/Supported.antt =====
-- `KVM::getSupportedCPUID` (src/kvm.cpp), whose result the constructor of `Vcpu` throws away.
use lvmm.Base.{ℕ, ◌≡◌, refl, ◌∙◌, ap, List, Option, none, some, ℤ, map, take, replicate, arith}
use lvmm.Ioctl.{Answer, result, errno, zero_or_errno, Attempt, made}
use lvmm.Vcpu.Cpuid.{CpuidEntry, CpuidBuffer, patch, construct_vcpu, construct_vcpu_lem}

abbrev pub kvm_cpuid_entries_num : ℕ
kvm_cpuid_entries_num = 100

-- What `calloc` gives.
abbrev pub blank_cpuid_entry : CpuidEntry
blank_cpuid_entry = record {
  function = 0;
  index = 0;
  flags = 0;
  eax = 0;
  ebx = 0;
  ecx = 0;
  edx = 0;
}

abbrev pub blank_buffer : CpuidBuffer
blank_buffer = record {
  nent = kvm_cpuid_entries_num;
  entries = replicate kvm_cpuid_entries_num blank_cpuid_entry;
}

-- The buffer behind the call, into which KVM may have written, and the result.
unfoldable pub get_supported_cpuid : Answer → Option CpuidBuffer → CpuidBuffer → CpuidBuffer × ℤ
get_supported_cpuid answer (some written) buf = (written, zero_or_errno answer)
get_supported_cpuid answer none buf = (buf, zero_or_errno answer)

-- The whole constructor.
unfoldable pub new_vcpu_of :
    Answer → Option CpuidBuffer → Answer → Answer → Attempt (List CpuidEntry)
unfolding get_supported_cpuid construct_vcpu
new_vcpu_of answer written set_cpuid2 map_run =
    let (buf, r) = get_supported_cpuid answer written blank_buffer in
    construct_vcpu buf set_cpuid2 map_run

blank-patched :
    map patch (take 100 (replicate 100 blank_cpuid_entry)) ≡ replicate 100 blank_cpuid_entry
unfolding patch
blank-patched = refl

-- Where KVM_GET_SUPPORTED_CPUID fails and has written nothing, whatever its error number, and the
-- two later calls succeed, the vCPU is made all the same, with 100 entries for leaf 0 that are all
-- zeros: it has no vendor, no feature, and no leaf with the hypervisor's signature.
pub new_vcpu_of-blank :
    (e r r' : ℕ)
    → new_vcpu_of (errno e) none (result r) (result r') ≡ made (replicate 100 blank_cpuid_entry)
unfolding new_vcpu_of
new_vcpu_of-blank e r r' =
    construct_vcpu_lem blank_buffer r r' (omega arith) ∙ ap made blank-patched
