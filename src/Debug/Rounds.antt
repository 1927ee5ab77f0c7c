-- ===== src/Debug/Rounds.antt =====
-- How many debug exits the loop follows, what it shows of them, and where showing them faults.
use lvmm.Base.{
  ℕ, ◌+◌, ◌≤◌, ◌<◌, ◌≡◌, inl, inr, refl, true, false, List, [], ◌∷◌, ◌++◌, some, ltb, ltb→lt,
  length-append, is_nonzero, length, arith, Bool-cases, Option-cases,
}
use lvmm.Pio.{Table}
use lvmm.Vcpu.{Regs}
use lvmm.Exit.{
  Machine, Called, Exit, debug, unknown, intr, hlt, mmio, io, other, run_once, Dumps, dump_code,
}
use lvmm.Debug.Defs.{
  rc_max, Trace, Probe, regs_after, code_at, trace_exit, Round, goes, stops, faults, stopped,
  Traced, debug_round, DebugState, running, returned, faulted, debug_loop, set_guest_debug,
}

-- The debug exits among the exits.
abbrev pub debug_one : Exit → ℕ
debug_one debug = 1
debug_one unknown = 0
debug_one intr = 0
debug_one hlt = 0
debug_one mmio = 0
debug_one (io a) = 0
debug_one (other reason) = 0

abbrev pub debug_count : List Traced → ℕ
debug_count [] = 0
debug_count (x ∷ xs) = debug_one x.exit + debug_count xs

-- What `rc` counts.
abbrev pub IsTrace : Trace → Type 0
IsTrace s = (s.rc ≤ rc_max) × (length s.shown ≡ s.rc)

-- A round that goes on counts its exit where it is a debug exit.
abbrev Counts : ℕ → Trace → Round → Type 0
Counts n s (goes s' m) = IsTrace s' × (s'.rc ≡ s.rc + n)
Counts n s (stops m) = Unit
Counts n s faults = Unit

-- What a debug exit leaves that is followed.
abbrev pub traced : Probe → Trace → List ℕ → Trace
traced p s bytes =
    let regs = regs_after p.gets p.held s.regs in
    record {
      rc = s.rc + 1;
      regs = regs;
      control = (set_guest_debug p.sets true true s.control).0;
      shown = s.shown ++ (regs.rip, bytes) ∷ [];
    }

trace_exit-traced :
    (p : Probe) (s : Trace) {s' : Trace}
    → trace_exit p s ≡ some s'
    → (bytes : List ℕ) × (code_at p.ram (regs_after p.gets p.held s.regs).rip ≡ some bytes)
      × (traced p s bytes ≡ s')
unfolding trace_exit
trace_exit-traced p s e =
    elim (Option-cases (code_at p.ram (regs_after p.gets p.held s.regs).rip)) [
      | inl q ↦ cc (rw (q, trace_exit) at e)
      | inr (bytes, q) ↦ (bytes, q, cc (rw (q, trace_exit) at e))
    ]

traced-IsTrace :
    (p : Probe) (s : Trace) (bytes : List ℕ)
    → IsTrace s
    → s.rc < rc_max
    → IsTrace (traced p s bytes)
traced-IsTrace p s bytes (low, same) below =
    let regs = regs_after p.gets p.held s.regs in
    (omega arith, omega (arith, same, length-append s.shown ((regs.rip, bytes) ∷ [])))

stopped-Counts :
    (e : Exit) (p : Probe) (s : Trace) (m : Machine)
    → IsTrace s
    → Counts (debug_one e) s (stopped e p s m)
unfolding stopped
stopped-Counts debug p s m ok = elim (Bool-cases (ltb s.rc rc_max)) [
  | inr out ↦ rw out tt
  | inl low ↦ rw low (elim (Option-cases (trace_exit p s)) [
    | inl q ↦ rw q tt
    | inr (s', q) ↦
        let (bytes, there, made) = trace_exit-traced p s q in
        rw (q, ← made) (traced-IsTrace p s bytes ok (ltb→lt s.rc rc_max low), refl)
  ])
]
stopped-Counts unknown p s m ok = tt
stopped-Counts intr p s m ok = tt
stopped-Counts hlt p s m ok = tt
stopped-Counts mmio p s m ok = tt
stopped-Counts (io a) p s m ok = tt
stopped-Counts (other reason) p s m ok = tt

-- A debug exit never lets `RunOnce` return 0.
run_once-debug_one :
    (t : Table) (x : Traced) (m : Machine) (e : Exit) {r : Called}
    → run_once x.now t e m ≡ some r
    → is_nonzero r.ret ≡ false
    → debug_one e ≡ 0
unfolding run_once
run_once-debug_one t x m debug h on = ground arith
run_once-debug_one t x m unknown h on = refl
run_once-debug_one t x m intr h on = refl
run_once-debug_one t x m hlt h on = refl
run_once-debug_one t x m mmio h on = refl
run_once-debug_one t x m (io a) h on = refl
run_once-debug_one t x m (other reason) h on = refl

debug_round-Counts :
    (t : Table) (x : Traced) (s : Trace) (m : Machine)
    → IsTrace s
    → Counts (debug_one x.exit) s (debug_round t x s m)
unfolding debug_round
debug_round-Counts t x s m ok = elim (Option-cases (run_once x.now t x.exit m)) [
  | inl e ↦ rw (e, Counts) tt
  | inr (r, e) ↦
      rw (e, Counts)
        (elim (Bool-cases (is_nonzero r.ret)) [
          | inl stop ↦ rw stop (stopped-Counts x.exit x.probe s r.machine ok)
          | inr on ↦ rw on (ok, omega (arith, run_once-debug_one t x m x.exit e on))
        ])
]

-- The loop still runs, and has followed as many debug exits as `rc` says.
abbrev pub Follows : ℕ → Trace → DebugState → Type 0
Follows n s (running s' m) = IsTrace s' × (s'.rc ≡ s.rc + n)
Follows n s (returned m code) = Unit
Follows n s faulted = Unit

-- The loop behind a round.
abbrev after_round : Dumps → Table → List Traced → Round → DebugState
after_round d t xs (goes s m) = debug_loop d t xs s m
after_round d t xs (stops m) = returned m (dump_code d)
after_round d t xs faults = faulted

Follows-add :
    (n k : ℕ) (s s' : Trace) (st : DebugState)
    → s'.rc ≡ s.rc + n
    → Follows k s' st
    → Follows (n + k) s st
Follows-add n k s s' (running s'' m) e (ok, f) = (ok, omega arith)
Follows-add n k s s' (returned m code) e f = tt
Follows-add n k s s' faulted e f = tt

-- One round, and the loop from there.
round-Follows :
    (d : Dumps) (t : Table) (xs : List Traced) (n : ℕ) (s : Trace) (r : Round)
    → ((s' : Trace) (m' : Machine)
        → IsTrace s'
        → Follows (debug_count xs) s' (debug_loop d t xs s' m'))
    → Counts n s r
    → Follows (n + debug_count xs) s (after_round d t xs r)
round-Follows d t xs n s (goes s' m') ih (ok, e) =
    Follows-add n (debug_count xs) s s' (debug_loop d t xs s' m') e (ih s' m' ok)
round-Follows d t xs n s (stops m') ih c = tt
round-Follows d t xs n s faults ih c = tt

pub debug_loop-Follows :
    (d : Dumps) (t : Table) (xs : List Traced) (s : Trace) (m : Machine)
    → IsTrace s
    → Follows (debug_count xs) s (debug_loop d t xs s m)
unfolding debug_loop
debug_loop-Follows d t [] s m ok = (ok, omega arith)
debug_loop-Follows d t (x ∷ xs) s m ok =
    round-Follows d t xs (debug_one x.exit) s (debug_round t x s m) (debug_loop-Follows d t xs)
      (debug_round-Counts t x s m ok)

-- Before the loop: the registers are not set yet, the control word is KVM's.
abbrev pub fresh : Regs → ℕ → Trace
fresh regs control = record { rc = 0; regs = regs; control = control; shown = [] }

-- Whatever the exits are: a loop that still runs has had at most 10 debug exits, and has shown as
-- many.
pub debug_loop-bound :
    (d : Dumps) (t : Table) (xs : List Traced) (regs : Regs) (control : ℕ) (m : Machine) {s : Trace}
    {m' : Machine}
    → debug_loop d t xs (fresh regs control) m ≡ running s m'
    → (debug_count xs ≤ rc_max) × (s.rc ≡ debug_count xs) × (length s.shown ≡ debug_count xs)
debug_loop-bound d t xs regs control m {s} {m'} h =
    let ((low, same), count) =
      rw (h, Follows) at (debug_loop-Follows d t xs (fresh regs control) m (omega arith, refl)) in
    (omega arith, omega arith, omega arith)
