-- ===== src/Debug/Examples.antt =====
-- Single steps of a guest whose memory holds one instruction all over.
use lvmm.Base.{ℕ, zero, suc, ◌^◌, ◌≡◌, refl, List, [], ◌∷◌, length, leb, if◌then◌else◌, arith}
use lvmm.Ioctl.{result, errno}
use lvmm.Vcpu.{Regs}
use lvmm.Exit.{debug, run_once, dump_code, Exit}
use lvmm.Exit.Examples.{machine, now, ready, dumps}
use lvmm.Debug.Defs.{
  rc_max, Probe, Traced, running, returned, debug_loop, debug_round, stopped, trace_exit, code_at,
  set_guest_debug, trace_vcpus,
}
use lvmm.Debug.Rounds.{fresh}
use lvmm.Debug.Steps.{AllSteps, follow, codes, debug_loop-steps}

abbrev at : ℕ → Regs
at rip = record {
  rax = 0;
  rbx = 0;
  rcx = 0;
  rdx = 0;
  rsi = 0;
  rdi = 0;
  rsp = 0;
  rbp = 0;
  r8 = 0;
  r9 = 0;
  r10 = 0;
  r11 = 0;
  r12 = 0;
  r13 = 0;
  r14 = 0;
  r15 = 0;
  rip = rip;
  rflags = 2;
}

abbrev probe : ℕ → Probe
probe rip = record {
  sets = result 0;
  gets = result 0;
  held = at rip;
  ram = record { size = 2 ^ 30; byte = λ a. 0x90 };
}

abbrev traced_exit : Exit → ℕ → Traced
traced_exit e rip = record { exit = e; now = now; probe = probe rip }

-- Two instructions of the kernel, where it is loaded.
abbrev two_steps : List Traced
two_steps = traced_exit debug 0x10_0000 ∷ traced_exit debug 0x10_0001 ∷ []

two_steps-AllSteps : AllSteps two_steps
two_steps-AllSteps = ((refl, (0, refl), omega arith), ((refl, (0, refl), omega arith), tt))

debug_loop-steps_example :
    (debug_loop dumps ready two_steps (fresh (at 0) 0) machine ≡ (
      if leb (length two_steps) rc_max
      then running (follow two_steps (fresh (at 0) 0)) machine
      else returned machine (dump_code dumps)))
    × ((follow two_steps (fresh (at 0) 0)).shown ≡ codes two_steps)
debug_loop-steps_example =
    debug_loop-steps dumps ready two_steps (at 0) 0 machine two_steps-AllSteps

two_steps_run :
    debug_loop dumps ready two_steps (fresh (at 0) 0) machine
    ≡ running (follow two_steps (fresh (at 0) 0)) machine
unfolding debug_loop debug_round run_once stopped trace_exit code_at
two_steps_run = refl

-- `Boot` turns tracing on for each vCPU and goes on where a call fails.
trace_vcpus_run :
    trace_vcpus (λ i. elim i [ zero ↦ result 0 | suc j ↦ errno 22 ]) 0 (0 ∷ 0 ∷ [])
    ≡ 0x0002_0003 ∷ 0 ∷ []
unfolding trace_vcpus set_guest_debug
trace_vcpus_run = refl
