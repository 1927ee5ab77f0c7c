-- ===== src/Debug/Outside.antt =====
-- Where the code at RIP is not in guest memory.
use lvmm.Base.{ℕ, ◌+◌, ◌≤◌, ◌<◌, ◌≡◌, refl, ◌∙◌, List, [], ◌∷◌, ◌++◌, length, arith}
use lvmm.Pio.{Table}
use lvmm.Vcpu.{Regs}
use lvmm.Exit.{Machine, debug, Dumps}
use lvmm.Debug.Defs.{rc_max, Trace, Traced, faulted, debug_loop}
use lvmm.Debug.Rounds.{fresh, traced}
use lvmm.Debug.Steps.{Reads, AllSteps, code_of, follow, step-goes, step-faults}

-- Steps that are followed, and the exits behind them.
debug_loop-append :
    (d : Dumps) (t : Table) (xs ys : List Traced) (s : Trace) (m : Machine)
    → AllSteps xs
    → s.rc + length xs ≤ rc_max
    → debug_loop d t (xs ++ ys) s m ≡ debug_loop d t ys (follow xs s) m
unfolding debug_loop
debug_loop-append d t [] ys s m h low = refl
debug_loop-append d t (x ∷ xs) ys s m (step, more) low =
    rw (debug_loop, step-goes t x s m step (omega arith))
      (debug_loop-append d t xs ys (traced x.probe s (code_of x).1) m more (omega arith))

follow-rc : (xs : List Traced) (s : Trace) → (follow xs s).rc ≡ s.rc + length xs
follow-rc [] s = omega arith
follow-rc (x ∷ xs) s = omega (arith, follow-rc xs (traced x.probe s (code_of x).1))

-- Behind fewer than 10 debug exits with code in guest memory: a debug exit whose RIP, which the
-- registers give, is not 16 bytes below the end of guest memory makes the loop read outside the
-- mapping, whatever follows.
pub debug_loop-outside :
    (d : Dumps) (t : Table) (xs ys : List Traced) (x : Traced) (regs : Regs) (control : ℕ)
    (m : Machine)
    → AllSteps xs
    → length xs < rc_max
    → x.exit ≡ debug
    → Reads x.probe
    → x.probe.ram.size < x.probe.held.rip + 16
    → debug_loop d t (xs ++ x ∷ ys) (fresh regs control) m ≡ faulted
unfolding debug_loop
debug_loop-outside d t xs ys x regs control m steps few debugs reads outside =
    let s = follow xs (fresh regs control) in
    let low : s.rc < rc_max = omega (arith, follow-rc xs (fresh regs control)) in
    debug_loop-append d t xs (x ∷ ys) (fresh regs control) m steps (omega arith)
    ∙ rw (debug_loop, step-faults t x s m debugs reads outside low) refl
