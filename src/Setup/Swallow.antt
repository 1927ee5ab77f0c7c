-- ===== src/Setup/Swallow.antt =====
-- What `initMachine` makes of vCPUs whose registers cannot be set.
use lvmm.Base.{◌≤◌, ◌≡◌, refl, ◌∙◌, false, ℤ, pos, is_neg, length, arith}
use lvmm.Ioctl.{made}
use lvmm.Boot.{Config}
use lvmm.Pio.{Table}
use lvmm.Setup.Defs.{
  Kernel, Setup, Init, init_each, init_vcpu_sregs, set_regs_of, set_sregs_of, init_machine,
}
use lvmm.Setup.Vcpus.{Works, created, length-created, init_vcpus-ends}
use lvmm.Setup.Head.{start, prepared, init_vcpu_sregs_lem, init_machine-last}

init_each-ends :
    (c : Config) (init : Init) (s : Setup)
    → c.vcpu_num ≤ length s.vcpus
    → (s' : Setup) × (r : ℤ) × (init_each c init s ≡ made (s', r))
      × (is_neg r ≡ false)
      × (length s'.vcpus ≡ length s.vcpus)
unfolding init_each
init_each-ends c init s h =
    let (vs, r, e, n, same) = init_vcpus-ends init c.vcpu_num 0 s.vcpus h in
    (record s { vcpus = vs }, r, rw (e, init_each) refl, n, same)

init_vcpu_sregs-ends :
    (c : Config) (k : Kernel) (s : Setup)
    → c.is_64bit_boot ≡ false
    → c.vcpu_num ≤ length s.vcpus
    → (s' : Setup) × (r : ℤ) × (init_vcpu_sregs c k s ≡ made (s', r)) × (is_neg r ≡ false)
init_vcpu_sregs-ends c k s h g =
    let (s', r, e, n, _) = init_each-ends c (set_sregs_of c k) s g in
    (s', r, init_vcpu_sregs_lem c k s h ∙ e, n)

-- In a 32-bit boot in which every call but those on registers succeeds and the CPUID entries of KVM
-- lie in their array, initMachine returns 0, whatever the calls on registers answer: also when the
-- registers of a vCPU could be neither read nor set.
pub init_machine-register_errors :
    (c : Config) (k : Kernel) (t : Table)
    → c.is_64bit_boot ≡ false
    → Works k
    → (s : Setup) × (init_machine c k (start t) ≡ made (s, pos 0))
init_machine-register_errors c k t h w =
    let enough : c.vcpu_num ≤ length (created k c.vcpu_num 0) =
      omega (arith, length-created k c.vcpu_num 0) in
    let (s1, r1, e1, n1, same) = init_each-ends c (set_regs_of k) (prepared c k t) enough in
    let (s2, r2, e2, n2) = init_vcpu_sregs-ends c k s1 h (omega arith) in
    (s2, init_machine-last c k t w s1 s2 r1 r2 e1 n1 e2 n2)
