-- ===== src/Debug/Build.antt =====
-- The two builds side by side, and the control word of `SetGuestDebug`.
use lvmm.Base.{
  ℕ, ◌≡◌, refl, ◌∙◌, Bool, true, false, List, [], ◌∷◌, none, some, bit_and, ◌*◌, arith, is_nonzero,
  if◌then◌else◌, Bool-cases, Option-cases, inl, inr,
}
use lvmm.Ioctl.{result}
use lvmm.Pio.{Table}
use lvmm.Exit.{
  Machine, Exit, Exits, debug, unknown, intr, hlt, mmio, io, other, run_once, Dumps, LoopState,
  run_loop,
}
use lvmm.Debug.Defs.{
  kvm_guestdbg_enable, kvm_guestdbg_singlestep, int_of, set_guest_debug, Trace, Probe, goes, stops,
  faults, stopped, Traced, debug_round, DebugState, running, returned, faulted, debug_loop,
}
use lvmm.Debug.Rounds.{debug_one, debug_count}

-- What the two builds share.
abbrev pub as_loop : DebugState → LoopState
as_loop (running s m) = LoopState.running m
as_loop (returned m code) = LoopState.returned m code
as_loop faulted = LoopState.faulted

abbrev pub exits_of : List Traced → Exits
exits_of [] = []
exits_of (x ∷ xs) = (x.now, x.exit) ∷ exits_of xs

stopped-stops :
    (e : Exit) (p : Probe) (s : Trace) (m : Machine) → debug_one e ≡ 0 → stopped e p s m ≡ stops m
unfolding stopped
stopped-stops debug p s m h = cc h
stopped-stops unknown p s m h = refl
stopped-stops intr p s m h = refl
stopped-stops hlt p s m h = refl
stopped-stops mmio p s m h = refl
stopped-stops (io a) p s m h = refl
stopped-stops (other reason) p s m h = refl

debug_round-plain :
    (t : Table) (x : Traced) (s : Trace) (m : Machine)
    → debug_one x.exit ≡ 0
    → debug_round t x s m ≡ elim (run_once x.now t x.exit m) [
      | none ↦ faults
      | some r ↦ if is_nonzero r.ret then stops r.machine else goes s r.machine
    ]
unfolding debug_round
debug_round-plain t x s m h = elim (Option-cases (run_once x.now t x.exit m)) [
  | inl e ↦ rw (e, debug_round) refl
  | inr (r, e) ↦ rw (e, debug_round) (rw (stopped-stops x.exit x.probe s r.machine h) refl)
]

-- Over exits of which none is a debug exit, a build with GUEST_DEBUG does what a build without it
-- does, whatever SetGuestDebug and GetRegs would answer.
pub debug_loop-run_loop :
    (d : Dumps) (t : Table) (xs : List Traced) (s : Trace) (m : Machine)
    → debug_count xs ≡ 0
    → as_loop (debug_loop d t xs s m) ≡ run_loop d t (exits_of xs) m
unfolding debug_loop run_loop
debug_loop-run_loop d t [] s m h = refl
debug_loop-run_loop d t (x ∷ xs) s m h =
    let plain = debug_round-plain t x s m (omega (arith, h)) in
    let rest = λ (m' : Machine). debug_loop-run_loop d t xs s m' (omega (arith, h)) in
    elim (Option-cases (run_once x.now t x.exit m)) [
      | inl e ↦
          let fault : debug_round t x s m ≡ faults = plain ∙ rw e refl in
          rw (debug_loop, fault, exits_of, run_loop, e) refl
      | inr (r, e) ↦ elim (Bool-cases (is_nonzero r.ret)) [
        | inl stop ↦
            let stops_here : debug_round t x s m ≡ stops r.machine = plain ∙ rw e (rw stop refl) in
            rw (debug_loop, stops_here, exits_of, run_loop, e) (rw stop refl)
        | inr on ↦
            let goes_on : debug_round t x s m ≡ goes s r.machine = plain ∙ rw e (rw on refl) in
            rw (debug_loop, goes_on, exits_of, run_loop, e) (rw on (rest r.machine))
      ]
    ]

-- The two arguments stand in each other's place: KVM's flag that enables debugging is the second
-- one, its flag for single steps the first.
set_guest_debug-swapped :
    (r held : ℕ) (enable singlestep : Bool)
    → let control = (set_guest_debug (result r) enable singlestep held).0 in
      (bit_and control kvm_guestdbg_enable ≡ kvm_guestdbg_enable * int_of singlestep)
      × (bit_and control kvm_guestdbg_singlestep ≡ kvm_guestdbg_singlestep * int_of enable)
unfolding set_guest_debug
set_guest_debug-swapped r held true true = (refl, refl)
set_guest_debug-swapped r held true false = (refl, refl)
set_guest_debug-swapped r held false true = (refl, refl)
set_guest_debug-swapped r held false false = (refl, refl)
