-- ===== src/Setup/Ready.antt =====
-- The machine that `initMachine` leaves where every call succeeds.
use lvmm.Base.{
  ℕ, suc, ◌+◌, ◌<◌, ◌≡◌, refl, sym, ap, ◌∙◌, List, [], ◌∷◌, some, false, ℤ, pos, length, get_elem?,
  arith,
}
use lvmm.Ioctl.{result, made}
use lvmm.Boot.{Config}
use lvmm.Pio.{Table}
use lvmm.Vcpu.{
  Sregs, sregs_32, IsProtectedFlat, IsKept, sregs_32-IsProtectedFlat, sregs_32-IsKept,
  init_sregs_lem,
}
use lvmm.Setup.Defs.{
  get_regs, set_regs, get_sregs, set_sregs, Kernel, VcpuState, Setup, Init, init_vcpus, init_each,
  set_regs_of, set_sregs_of, init_machine, new_vcpu,
}
use lvmm.Setup.Vcpus.{
  Works, given, created, length-created, map_from, init_vcpus_lem, get_elem?-map_from,
  get_elem?-created,
}
use lvmm.Setup.Head.{start, zeros, prepared, init_vcpu_sregs_lem, init_machine-last, filled_table}

-- The calls on registers succeed as well.
pub record AlsoRegisters (k : Kernel) : Type 0 where
  pub got : (i : ℕ) → (r : ℕ) × (k.answers (get_regs i) ≡ result r)
  pub put : (i : ℕ) → (r : ℕ) × (k.answers (set_regs i) ≡ result r)
  pub got_special : (i : ℕ) → (r : ℕ) × (k.answers (get_sregs i) ≡ result r)
  pub put_special : (i : ℕ) → (r : ℕ) × (k.answers (set_sregs i) ≡ result r)

-- vCPU `i` as the 32-bit boot protocol wants it: at the kernel's first byte, with the boot
-- parameters in RSI, in protected mode with flat segments; all else as KVM made it.
pub record IsReady (k : Kernel) (i : ℕ) (v : VcpuState) : Type 0 where
  pub at_kernel : v.regs.rip ≡ 0x10_0000
  pub at_params : v.regs.rsi ≡ 0x1_0000
  pub no_interrupts : v.regs.rflags ≡ 2
  pub regs_kept :
      v.regs
      ≡ record (k.reset_regs i) { rip = v.regs.rip; rsi = v.regs.rsi; rflags = v.regs.rflags }
  pub flat_mode : IsProtectedFlat v.sregs
  pub sregs_kept : IsKept v.sregs (k.reset_sregs i)
  pub cpuid_given : v.cpuid ≡ given k

abbrev with_regs : ℕ → VcpuState → VcpuState
with_regs i v = record v { regs = record v.regs { rip = 0x10_0000; rsi = 0x1_0000; rflags = 2 } }

abbrev with_sregs : ℕ → VcpuState → VcpuState
with_sregs i v = record v { sregs = sregs_32 v.sregs }

module _ (c : Config) (k : Kernel) (mode : c.is_64bit_boot ≡ false) (a : AlsoRegisters k) where
  regs_set : (i : ℕ) (v : VcpuState) → set_regs_of k i v ≡ (with_regs i v, pos 0)
  unfolding set_regs_of
  regs_set i v = rw ((a.got i).1, (a.put i).1) refl

  sregs_set : (i : ℕ) (v : VcpuState) → set_sregs_of c k i v ≡ (with_sregs i v, pos 0)
  unfolding set_sregs_of
  sregs_set i v =
      let (r, e) = a.got_special i in
      let (r', e') = a.put_special i in
      rw (e, e', set_sregs_of)
        (ap (λ (p : Sregs × ℤ). (record v { sregs = p.0 }, p.1))
          (init_sregs_lem r r' c.is_64bit_boot v.sregs mode))

init_each_lem :
    (c : Config) (init : Init) (f : ℕ → VcpuState → VcpuState) (s : Setup)
    → c.vcpu_num ≡ length s.vcpus
    → ((j : ℕ) (v : VcpuState) → init j v ≡ (f j v, pos 0))
    → init_each c init s ≡ made (record s { vcpus = map_from f 0 s.vcpus }, pos 0)
unfolding init_each
init_each_lem c init f s n h =
    let e : init_vcpus init c.vcpu_num 0 s.vcpus ≡ some (map_from f 0 s.vcpus, pos 0) =
      ap (λ m. init_vcpus init m 0 s.vcpus) n ∙ init_vcpus_lem init f 0 s.vcpus h in
    rw (e, init_each) refl

length-map_from :
    (f : ℕ → VcpuState → VcpuState) (i : ℕ) (vs : List VcpuState)
    → length (map_from f i vs) ≡ length vs
length-map_from f i [] = refl
length-map_from f i (v ∷ vs) = ap suc (length-map_from f (i + 1) vs)

abbrev pub ready_vcpu : Kernel → ℕ → VcpuState
ready_vcpu k i = with_sregs i (with_regs i (new_vcpu k i (given k)))

pub ready_vcpu-IsReady : (k : Kernel) (i : ℕ) → IsReady k i (ready_vcpu k i)
ready_vcpu-IsReady k i = record {
  at_kernel = refl;
  at_params = refl;
  no_interrupts = refl;
  regs_kept = refl;
  flat_mode = sregs_32-IsProtectedFlat (k.reset_sregs i);
  sregs_kept = sregs_32-IsKept (k.reset_sregs i);
  cpuid_given = refl;
}

-- The machine behind `initMachine`.
abbrev pub ready_setup : Config → Kernel → Table → Setup
ready_setup c k t = record {
  table = filled_table t;
  ram = some (zeros c);
  vcpus = map_from with_sregs 0 (map_from with_regs 0 (created k c.vcpu_num 0));
}

pub ready_setup-get_elem? :
    (c : Config) (k : Kernel) (t : Table) (i : ℕ)
    → i < c.vcpu_num
    → get_elem? (ready_setup c k t).vcpus i ≡ some (ready_vcpu k i)
ready_setup-get_elem? c k t i h =
    let e = get_elem?-created k c.vcpu_num 0 i h in
    let e' = get_elem?-map_from with_regs 0 i (created k c.vcpu_num 0) _ e in
    get_elem?-map_from with_sregs 0 i (map_from with_regs 0 (created k c.vcpu_num 0)) _ e'
    ∙ ap (λ j. some (ready_vcpu k j)) (omega arith)

pub length-ready_setup :
    (c : Config) (k : Kernel) (t : Table) → length (ready_setup c k t).vcpus ≡ c.vcpu_num
length-ready_setup c k t =
    length-map_from with_sregs 0 (map_from with_regs 0 (created k c.vcpu_num 0))
    ∙ length-map_from with_regs 0 (created k c.vcpu_num 0)
    ∙ length-created k c.vcpu_num 0

pub init_machine_lem :
    (c : Config) (k : Kernel) (t : Table)
    → c.is_64bit_boot ≡ false
    → Works k
    → AlsoRegisters k
    → init_machine c k (start t) ≡ made (ready_setup c k t, pos 0)
init_machine_lem c k t h w a =
    let created_vcpus = created k c.vcpu_num 0 in
    let s1 : Setup = record (prepared c k t) { vcpus = map_from with_regs 0 created_vcpus } in
    let n : c.vcpu_num ≡ length created_vcpus = sym (length-created k c.vcpu_num 0) in
    init_machine-last c k t w s1 (ready_setup c k t) (pos 0) (pos 0)
      (init_each_lem c (set_regs_of k) with_regs (prepared c k t) n (regs_set c k h a)) refl
      (init_vcpu_sregs_lem c k s1 h
        ∙ init_each_lem c (set_sregs_of c k) with_sregs s1
            (n ∙ sym (length-map_from with_regs 0 created_vcpus)) (sregs_set c k h a))
      refl

-- In a 32-bit boot in which every call succeeds and the CPUID entries of KVM lie in their array,
-- initMachine returns 0 and leaves the guest's memory mapped, all zeros, and as many vCPUs as were
-- asked for, each at the address of the kernel's first byte with the address of the boot parameters
-- in RSI, in protected mode with flat segments of 4 GiB, with interrupts off, and with all other
-- registers as KVM made them.
pub init_machine-IsReady :
    (c : Config) (k : Kernel) (t : Table) (i : ℕ)
    → c.is_64bit_boot ≡ false
    → Works k
    → AlsoRegisters k
    → i < c.vcpu_num
    → (s : Setup) × (v : VcpuState) × (init_machine c k (start t) ≡ made (s, pos 0))
      × (s.ram ≡ some (zeros c))
      × (length s.vcpus ≡ c.vcpu_num)
      × (get_elem? s.vcpus i ≡ some v)
      × IsReady k i v
init_machine-IsReady c k t i h w a g = (
  ready_setup c k t,
  ready_vcpu k i,
  init_machine_lem c k t h w a,
  refl,
  length-ready_setup c k t,
  ready_setup-get_elem? c k t i g,
  ready_vcpu-IsReady k i,
)
