-- ===== src/Run/Alone.antt =====
-- One vCPU alone.
use lvmm.Base.{
  ℤ, pos, ◌≡◌, refl, ap, inl, inr, [], ◌∷◌, some, map, Option-cases, Bool-cases, is_nonzero,
}
use lvmm.Pio.{Table}
use lvmm.Exit.{Machine, Now, Exit, run_once, Dumps, dump_code, Exits, LoopState, run_loop}
use lvmm.Run.Defs.{
  going, ended, Event, round_of, run_threads, booting, Booting, returned, waiting, faulted, boot,
}

-- The exit as one of vCPU 0.
abbrev pub of_first : Now × Exit → Event
of_first (now, e) = record { vcpu = 0; now = now; exit = e }

-- `Boot` with one thread, by what its loop has come to.
abbrev pub booting_of : LoopState → Booting
booting_of (LoopState.running m) = waiting (record { machine = m; threads = going ∷ [] })
booting_of (LoopState.returned m code) = returned m (pos 0)
booting_of LoopState.faulted = faulted

over :
    (d : Dumps) (t : Table) (es : Exits) (m : Machine) (code : ℤ)
    → run_threads d t (map of_first es) (record { machine = m; threads = ended code ∷ [] })
      ≡ some (record { machine = m; threads = ended code ∷ [] })
unfolding run_threads round_of
over d t [] m code = refl
over d t (e ∷ es) m code = over d t es m code

still_going :
    (d : Dumps) (t : Table) (es : Exits) (m : Machine)
    → booting (run_threads d t (map of_first es) (record { machine = m; threads = going ∷ [] }))
      ≡ booting_of (run_loop d t es m)
unfolding run_threads round_of run_loop
still_going d t [] m = refl
still_going d t ((now, e) ∷ es) m = elim (Option-cases (run_once now t e m)) [
  | inl h ↦ rw (run_threads, round_of, run_loop, h) refl
  | inr (c, h) ↦ elim (Bool-cases (is_nonzero c.ret)) [
    | inl stop ↦
        rw (run_threads, round_of, run_loop, h, stop)
          (ap booting (over d t es c.machine (dump_code d)))
    | inr on ↦ rw (run_threads, round_of, run_loop, h, on) (still_going d t es c.machine)
  ]
]

-- With one vCPU, Boot has returned 0 exactly where the loop of RunLoop has returned, with the machine
-- as the loop left it, it waits where the loop goes on, and faults where the loop faults.
pub boot-run_loop :
    (d : Dumps) (t : Table) (es : Exits) (m : Machine)
    → boot d t 1 (map of_first es) m ≡ booting_of (run_loop d t es m)
unfolding boot
boot-run_loop d t es m = still_going d t es m
