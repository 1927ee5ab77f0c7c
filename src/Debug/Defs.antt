-- ===== src/Debug/Defs.antt =====
-- `SetGuestDebug`, and `RunLoop` as a build with GUEST_DEBUG has it.
use lvmm.Base.{
  ℕ, ◌+◌, ◌*◌, bit_or, Bool, true, false, List, [], ◌∷◌, ◌++◌, Option, none, some, ltb, leb,
  if◌then◌else◌, ℤ, pos, is_nonzero,
}
use lvmm.Ioctl.{Answer, result, errno, zero_or_errno}
use lvmm.Boot.{Ram, load}
use lvmm.Pio.{Table}
use lvmm.Vcpu.{Regs}
use lvmm.Exit.{Machine, Now, Exit, debug, run_once, Dumps, dump_code}

-- The flags of `kvm_guest_debug.control`, from the header of KVM.
abbrev pub kvm_guestdbg_enable : ℕ
kvm_guestdbg_enable = 1

abbrev pub kvm_guestdbg_singlestep : ℕ
kvm_guestdbg_singlestep = 2

abbrev pub kvm_guestdbg_use_hw_bp : ℕ
kvm_guestdbg_use_hw_bp = 0x0002_0000

-- A `bool` as an `int`.
abbrev pub int_of : Bool → ℕ
int_of true = 1
int_of false = 0

abbrev pub debug_control : Bool → Bool → ℕ
debug_control enable singlestep =
    bit_or (bit_or 0 kvm_guestdbg_use_hw_bp) (bit_or (int_of enable * 2) (int_of singlestep))

-- What KVM then holds as the control word, and the result.
unfoldable pub set_guest_debug : Answer → Bool → Bool → ℕ → ℕ × ℤ
set_guest_debug (result r) enable singlestep held = (debug_control enable singlestep, pos 0)
set_guest_debug (errno e) enable singlestep held = (held, zero_or_errno (errno e))

-- The first loop of `Boot`, over the control words of the vCPUs and what each call answers.
unfoldable pub trace_vcpus : (ℕ → Answer) → ℕ → List ℕ → List ℕ
unfolding set_guest_debug
trace_vcpus answers i [] = []
trace_vcpus answers i (held ∷ cs) =
    (set_guest_debug (answers i) true true held).0 ∷ trace_vcpus answers (i + 1) cs

abbrev pub rc_max : ℕ
rc_max = 10

-- The local variables `rc` and `regs`, the control word that KVM holds, and what was printed of each
-- debug exit: the address and the bytes there.
pub record Trace : Type 0 where
  pub rc : ℕ
  pub regs : Regs
  pub control : ℕ
  pub shown : List (ℕ × List ℕ)

-- What the host answers at a debug exit, with the guest's registers and memory at that time.
pub record Probe : Type 0 where
  pub sets : Answer
  pub gets : Answer
  pub held : Regs
  pub ram : Ram

-- `GetRegs(&regs)`, whose result is not looked at.
abbrev pub regs_after : Answer → Regs → Regs → Regs
regs_after (result r) held regs = held
regs_after (errno e) held regs = regs

-- The 16 bytes at `ram_start + regs.rip`; `none` leaves the mapping.
unfoldable pub code_at : Ram → ℕ → Option (List ℕ)
code_at ram rip = if leb (rip + 16) ram.size then some (load ram.byte rip 16) else none

-- The case of a debug exit while `rc < rc_max`, but for the text of `DumpRegs`.
unfoldable pub trace_exit : Probe → Trace → Option Trace
unfolding set_guest_debug code_at
trace_exit p s =
    let regs = regs_after p.gets p.held s.regs in
    elim (code_at p.ram regs.rip) [
      | none ↦ none
      | some bytes ↦ some (record {
        rc = s.rc + 1;
        regs = regs;
        control = (set_guest_debug p.sets true true s.control).0;
        shown = s.shown ++ (regs.rip, bytes) ∷ [];
      })
    ]

-- How a round ends: the loop goes on, it leaves, or there is a fault.
pub data Round : Type 0 where
  goes : Trace → Machine → Round
  stops : Machine → Round
  faults : Round

-- Behind a `RunOnce` that returned nonzero.
unfoldable pub stopped : Exit → Probe → Trace → Machine → Round
unfolding trace_exit
stopped debug p s m =
    if ltb s.rc rc_max
    then elim (trace_exit p s) [ none ↦ faults | some s' ↦ goes s' m ]
    else stops m
stopped e p s m = stops m

-- An exit, with what the host answers while it is handled.
pub record Traced : Type 0 where
  pub exit : Exit
  pub now : Now
  pub probe : Probe

unfoldable pub debug_round : Table → Traced → Trace → Machine → Round
unfolding stopped
debug_round t x s m = elim (run_once x.now t x.exit m) [
  | none ↦ faults
  | some r ↦ if is_nonzero r.ret then stopped x.exit x.probe s r.machine else goes s r.machine
]

pub data DebugState : Type 0 where
  running : Trace → Machine → DebugState
  returned : Machine → ℤ → DebugState
  faulted : DebugState

unfoldable pub debug_loop : Dumps → Table → List Traced → Trace → Machine → DebugState
debug_loop d t [] s m = running s m
debug_loop d t (x ∷ xs) s m = elim (debug_round t x s m) [
  | goes s' m' ↦ debug_loop d t xs s' m'
  | stops m' ↦ returned m' (dump_code d)
  | faults ↦ faulted
]
