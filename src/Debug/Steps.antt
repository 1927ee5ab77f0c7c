-- ===== src/Debug/Steps.antt =====
-- A guest that is single-stepped: each exit is a debug exit.
use mathlib.Core.List.{append-nil, append_assoc}
use lvmm.Base.{
  ℕ, ◌+◌, ◌≤◌, ◌<◌, ◌≡◌, refl, ap, sym, ◌∙◌, List, [], ◌∷◌, ◌++◌, none, some, ltb, leb, leb_le,
  leb_gt, ltb→lt, ltb_lt, ltb_ge, if◌then◌else◌, length, arith, Bool-cases, inl, inr,
}
use lvmm.Ioctl.{result}
use lvmm.Boot.{Ram, load}
use lvmm.Pio.{Table}
use lvmm.Vcpu.{Regs}
use lvmm.Exit.{Machine, debug, run_once, Dumps, dump_code}
use lvmm.Debug.Defs.{
  rc_max, Trace, Probe, regs_after, code_at, trace_exit, goes, stops, faults, stopped, Traced,
  debug_round, running, returned, debug_loop,
}
use lvmm.Debug.Rounds.{traced, fresh}

-- The registers can be read.
abbrev pub Reads : Probe → Type 0
Reads p = (r : ℕ) × (p.gets ≡ result r)

-- A debug exit at an instruction whose 16 bytes lie in guest memory.
abbrev pub IsStep : Traced → Type 0
IsStep x = (x.exit ≡ debug) × Reads x.probe × (x.probe.held.rip + 16 ≤ x.probe.ram.size)

abbrev pub AllSteps : List Traced → Type 0
AllSteps [] = Unit
AllSteps (x ∷ xs) = IsStep x × AllSteps xs

-- The addresses and the bytes there.
abbrev pub code_of : Traced → ℕ × List ℕ
code_of x = (x.probe.held.rip, load x.probe.ram.byte x.probe.held.rip 16)

abbrev pub codes : List Traced → List (ℕ × List ℕ)
codes [] = []
codes (x ∷ xs) = code_of x ∷ codes xs

-- What the steps leave where all of them are followed.
abbrev pub follow : List Traced → Trace → Trace
follow [] s = s
follow (x ∷ xs) s = follow xs (traced x.probe s (code_of x).1)

traced-shown :
    (p : Probe) (s : Trace) (bytes : List ℕ)
    → Reads p
    → (traced p s bytes).shown ≡ s.shown ++ (p.held.rip, bytes) ∷ []
traced-shown p s bytes (r, e) = rw e refl

follow-shown :
    (xs : List Traced) (s : Trace) → AllSteps xs → (follow xs s).shown ≡ s.shown ++ codes xs
follow-shown [] s h = sym (append-nil s.shown)
follow-shown (x ∷ xs) s ((debugs, reads, inside), more) =
    follow-shown xs (traced x.probe s (code_of x).1) more
    ∙ ap (λ l. l ++ codes xs) (traced-shown x.probe s (code_of x).1 reads)
    ∙ append_assoc s.shown (code_of x ∷ []) (codes xs)

code_at-inside :
    (ram : Ram) (rip : ℕ) → rip + 16 ≤ ram.size → code_at ram rip ≡ some (load ram.byte rip 16)
unfolding code_at
code_at-inside ram rip h = ground arith

code_at-outside : (ram : Ram) (rip : ℕ) → ram.size < rip + 16 → code_at ram rip ≡ none
unfolding code_at
code_at-outside ram rip h = ground arith

trace_exit-inside :
    (p : Probe) (s : Trace) (bytes : List ℕ)
    → Reads p
    → code_at p.ram p.held.rip ≡ some bytes
    → trace_exit p s ≡ some (traced p s bytes)
unfolding trace_exit
trace_exit-inside p s bytes (r, reads) e =
    let there : code_at p.ram (regs_after p.gets p.held s.regs).rip ≡ some bytes = rw reads e in
    rw (trace_exit, there) refl

trace_exit-outside :
    (p : Probe) (s : Trace) → Reads p → code_at p.ram p.held.rip ≡ none → trace_exit p s ≡ none
unfolding trace_exit
trace_exit-outside p s (r, reads) e =
    let there : code_at p.ram (regs_after p.gets p.held s.regs).rip ≡ none = rw reads e in
    rw (trace_exit, there) refl

-- A debug exit, as long as the code at RIP can be shown.
debug_round-below :
    (t : Table) (x : Traced) (s : Trace) (m : Machine)
    → x.exit ≡ debug
    → s.rc < rc_max
    → debug_round t x s m ≡ elim (trace_exit x.probe s) [ none ↦ faults | some s' ↦ goes s' m ]
unfolding debug_round run_once stopped
debug_round-below t x s m debugs low = rw (debugs, ltb_lt s.rc rc_max low) refl

-- A step that is followed.
pub step-goes :
    (t : Table) (x : Traced) (s : Trace) (m : Machine)
    → IsStep x
    → s.rc < rc_max
    → debug_round t x s m ≡ goes (traced x.probe s (code_of x).1) m
step-goes t x s m (debugs, reads, inside) low =
    debug_round-below t x s m debugs low
    ∙ rw
        (trace_exit-inside x.probe s (code_of x).1 reads
          (code_at-inside x.probe.ram x.probe.held.rip inside))
        refl

-- The one behind the last that is followed.
step-stops :
    (t : Table) (x : Traced) (s : Trace) (m : Machine)
    → x.exit ≡ debug
    → rc_max ≤ s.rc
    → debug_round t x s m ≡ stops m
unfolding debug_round run_once stopped
step-stops t x s m debugs high = rw (debugs, ltb_ge s.rc rc_max high) refl

pub step-faults :
    (t : Table) (x : Traced) (s : Trace) (m : Machine)
    → x.exit ≡ debug
    → Reads x.probe
    → x.probe.ram.size < x.probe.held.rip + 16
    → s.rc < rc_max
    → debug_round t x s m ≡ faults
step-faults t x s m debugs reads outside low =
    debug_round-below t x s m debugs low
    ∙ rw (trace_exit-outside x.probe s reads (code_at-outside x.probe.ram x.probe.held.rip outside))
        refl

-- From a trace that counts `s.rc` exits.
debug_loop-follow :
    (d : Dumps) (t : Table) (xs : List Traced) (s : Trace) (m : Machine)
    → AllSteps xs
    → s.rc ≤ rc_max
    → debug_loop d t xs s m ≡ (
        if leb (s.rc + length xs) rc_max then running (follow xs s) m else returned m (dump_code d))
unfolding debug_loop
debug_loop-follow d t [] s m h low = rw (leb_le (s.rc + 0) rc_max (omega arith)) refl
debug_loop-follow d t (x ∷ xs) s m (step, more) low = elim (Bool-cases (ltb s.rc rc_max)) [
  | inl below ↦
      rw (debug_loop, step-goes t x s m step (ltb→lt s.rc rc_max below))
        (debug_loop-follow d t xs (traced x.probe s (code_of x).1) m more (ground arith)
          ∙ ap
              (λ n.
                if leb n rc_max then running (follow (x ∷ xs) s) m else returned m (dump_code d))
              (omega arith))
  | inr at_end ↦
      rw (debug_loop, step-stops t x s m step.0 (ground arith))
        (rw (leb_gt (s.rc + length (x ∷ xs)) rc_max (ground arith)) refl)
]

-- Of a vCPU that is single-stepped, with registers that can be read and code that lies in guest
-- memory: the loop follows 10 debug exits and ends at the eleventh, whatever SetGuestDebug answers;
-- what it shows is the address of each instruction and the 16 bytes of guest memory there.
pub debug_loop-steps :
    (d : Dumps) (t : Table) (xs : List Traced) (regs : Regs) (control : ℕ) (m : Machine)
    → AllSteps xs
    → (debug_loop d t xs (fresh regs control) m ≡ (
        if leb (length xs) rc_max
        then running (follow xs (fresh regs control)) m
        else returned m (dump_code d)))
      × ((follow xs (fresh regs control)).shown ≡ codes xs)
debug_loop-steps d t xs regs control m h = (
  debug_loop-follow d t xs (fresh regs control) m h (omega arith)
      ∙ ap
          (λ n.
            if leb n rc_max
            then running (follow xs (fresh regs control)) m
            else returned m (dump_code d))
          (omega arith),
  follow-shown xs (fresh regs control) h,
)
