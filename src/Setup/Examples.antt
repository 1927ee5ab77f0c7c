-- ===== src/Setup/Examples.antt =====
-- Hosts that answer, and one on which no registers can be read.
use lvmm.Base.{◌≡◌, refl, arith, if◌then◌else◌, [], ◌∷◌, false, none, true, Bool-cases, inl, inr}
use lvmm.Ioctl.{result, errno, IsSound}
use lvmm.Boot.{Config}
use lvmm.Pio.{Table, init_pio_handler, register_pio_handler, register_from, register_devices}
use lvmm.Vcpu.{Regs, Segment, Sregs, CpuidBuffer, patch_entries, construct_vcpu}
use lvmm.Setup.Defs.{
  Kernel, Call, set_tss_addr, set_identity_map_addr, create_irqchip, create_pit2, create_vcpu,
  set_cpuid2, map_run, mmap, set_user_memory_region, region_of, get_regs, get_sregs, create_vcpus,
  alloc_guest_ram, init_pio, init_each, init_vcpus, init_vcpu_sregs, set_regs_of, set_sregs_of,
}
use lvmm.Setup.Trace.{
  asks, asks_supported, init_machine_calls, run_calls, traced_steps, create_calls, construct_calls,
  each_calls,
}
use lvmm.Setup.Protocol.{obeys, is_next, made_by, after_call, after_request, nothing_made}
use lvmm.Setup.Obeys.{init_machine_calls-obeys}
use lvmm.Setup.Vcpus.{Works, is_register}
use lvmm.Setup.Head.{start}
use lvmm.Setup.Ready.{AlsoRegisters}

abbrev reset : Regs
reset = record {
  rax = 0;
  rbx = 0;
  rcx = 0;
  rdx = 0x600;
  rsi = 0;
  rdi = 0;
  rsp = 0;
  rbp = 0;
  r8 = 0;
  r9 = 0;
  r10 = 0;
  r11 = 0;
  r12 = 0;
  r13 = 0;
  r14 = 0;
  r15 = 0;
  rip = 0xfff0;
  rflags = 2;
}

abbrev segment : Segment
segment = record {
  base = 0xffff_0000;
  limit = 0xffff;
  selector = 0xf000;
  seg_type = 11;
  present = 1;
  dpl = 0;
  db = 0;
  s = 1;
  l = 0;
  g = 0;
  avl = 0;
  unusable = 0;
  padding = 0;
}

abbrev special : Sregs
special = record {
  cs = segment;
  ds = segment;
  es = segment;
  fs = segment;
  gs = segment;
  ss = segment;
  tr = segment;
  ldt = segment;
  gdt = record { base = 0; limit = 0xffff; padding = [] };
  idt = record { base = 0; limit = 0xffff; padding = [] };
  cr0 = 0x6000_0010;
  cr2 = 0;
  cr3 = 0;
  cr4 = 0;
  cr8 = 0;
  efer = 0;
  apic_base = 0xfee0_0900;
  interrupt_bitmap = [];
}

abbrev supported : CpuidBuffer
supported = record {
  nent = 1;
  entries =
      record { function = 0x4000_0000; index = 0; flags = 0; eax = 0; ebx = 0; ecx = 0; edx = 0 }
      ∷ [];
}

abbrev broken : Kernel
broken = record {
  answers = λ c. if is_register c then errno 5 else result 3;
  reset_regs = λ i. reset;
  reset_sregs = λ i. special;
  supported = supported;
}

broken-IsSound : (c : Call) → IsSound (broken.answers c)
broken-IsSound c = elim (Bool-cases (is_register c)) [
  | inl e ↦ rw e (omega arith)
  | inr e ↦ rw e tt
]

abbrev pub working : Kernel
working = record broken { answers = λ c. result 3 }

broken-Works : Works broken
broken-Works = record { answered = λ c e. (3, rw e refl); counted = omega arith }

pub working-Works : Works working
working-Works = record { answered = λ c e. (3, refl); counted = omega arith }

pub working-AlsoRegisters : AlsoRegisters working
working-AlsoRegisters = record {
  got = λ i. (3, refl);
  put = λ i. (3, refl);
  got_special = λ i. (3, refl);
  put_special = λ i. (3, refl);
}

abbrev machine : Config
machine = record { vcpu_num = 2; ram_size = 0x4000_0000; is_64bit_boot = false }

abbrev pub before : Table
before p = record { on_in = none; on_out = none }

-- The identity map address may not be left out.
no_identity :
    obeys 1 working (asks (set_tss_addr 0xf800_0000) ∷ asks create_irqchip ∷ []) nothing_made
    ≡ false
unfolding obeys is_next after_request after_call made_by
no_identity = refl

-- The registers of the first of two vCPUs cannot be read: the second is left out, and the special
-- registers are tried all the same.
broken_calls :
    init_machine_calls machine broken (start before)
    ≡ asks (set_tss_addr 0xf800_0000)
      ∷ asks (set_identity_map_addr 0xf800_3000)
      ∷ asks create_irqchip
      ∷ asks create_pit2
      ∷ asks (create_vcpu 0)
      ∷ asks_supported 0
      ∷ asks (set_cpuid2 0)
      ∷ asks (map_run 0)
      ∷ asks (create_vcpu 1)
      ∷ asks_supported 1
      ∷ asks (set_cpuid2 1)
      ∷ asks (map_run 1)
      ∷ asks mmap
      ∷ asks (set_user_memory_region (region_of machine))
      ∷ asks (get_regs 0)
      ∷ asks (get_sregs 0)
      ∷ []
unfolding init_machine_calls run_calls traced_steps create_calls construct_calls each_calls
    create_vcpus alloc_guest_ram init_pio init_each init_vcpus init_vcpu_sregs set_regs_of
    set_sregs_of patch_entries construct_vcpu init_pio_handler register_pio_handler register_from
    register_devices
broken_calls = refl

init_machine_calls-obeys_example :
    obeys 2 broken (init_machine_calls machine broken (start before)) nothing_made ≡ true
init_machine_calls-obeys_example = init_machine_calls-obeys machine broken before broken-IsSound
