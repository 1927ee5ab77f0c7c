-- ===== src/Vcpu/Examples.antt =====
-- Registers and CPUID entries at concrete values.
use lvmm.Base.{ℕ, ◌≡◌, refl, arith, [], ◌∷◌, List, some, get_elem?}
use lvmm.Ioctl.{result, made}
use lvmm.Vcpu.Defs.{Segment, Sregs}
use lvmm.Vcpu.Stream.{Stream, codes, padded}
use lvmm.Vcpu.Shown.{decimal}
use lvmm.Vcpu.Cpuid.{CpuidEntry, CpuidBuffer, construct_vcpu, IsShown, construct_vcpu-IsShown}

abbrev segment : Segment
segment = record {
  base = 0;
  limit = 0xffff;
  selector = 0;
  seg_type = 3;
  present = 1;
  dpl = 0;
  db = 0;
  s = 1;
  l = 0;
  g = 0;
  avl = 0;
  unusable = 0;
  padding = 0;
}

abbrev special : Sregs
special = record {
  cs = segment;
  ds = segment;
  es = segment;
  fs = segment;
  gs = segment;
  ss = segment;
  tr = segment;
  ldt = segment;
  gdt = record { base = 0; limit = 0xffff; padding = [] };
  idt = record { base = 0; limit = 0xffff; padding = [] };
  cr0 = 0x6000_0010;
  cr2 = 0;
  cr3 = 0;
  cr4 = 0;
  cr8 = 0;
  efer = 0;
  apic_base = 0xfee0_0900;
  interrupt_bitmap = [];
}

abbrev leaf : ℕ → CpuidEntry
leaf n = record { function = n; index = 0; flags = 0; eax = 7; ebx = 8; ecx = 9; edx = 10 }

abbrev buffer : CpuidBuffer
buffer = record { nent = 2; entries = leaf 1 ∷ leaf 0x4000_0000 ∷ leaf 5 ∷ [] }

construct_vcpu-IsShown_example :
    (given : List CpuidEntry) × (shown : CpuidEntry) × (construct_vcpu buffer (result 0) (result 0)
      ≡ made given)
    × (get_elem? given 1 ≡ some shown)
    × IsShown (leaf 0x4000_0000) shown
construct_vcpu-IsShown_example =
    construct_vcpu-IsShown buffer 0 0 1 (leaf 0x4000_0000) (omega arith) (omega arith) refl

-- The CR0 of a processor after its reset, 0x60000010, as the dump shows it.
reset_cr0 : padded decimal 16 special.cr0 ≡ codes "0000001610612752"
unfolding padded
reset_cr0 = refl

abbrev console : Stream
console = record { radix = 10; pad = b' ' }
