-- ===== src/Run/Defs.antt =====
-- `VM::Boot` over a schedule: whose exit comes next, and what it is. An exit is handled as a whole;
-- with one vCPU, as in `main`, the threads run no other way, with more of them the devices have no
-- lock that would keep it so.
use lvmm.Base.{
  ℕ, Bool, true, false, List, [], ◌∷◌, Option, none, some, ℤ, pos, is_nonzero, if◌then◌else◌,
  get_elem?, set, replicate,
}
use lvmm.Pio.{Table}
use lvmm.Exit.{Machine, Now, Exit, run_once, Dumps, dump_code}

-- A thread is in `RunLoop`, or `RunLoop` has returned.
pub data Thread : Type 0 where
  going : Thread
  ended : ℤ → Thread

pub record Running : Type 0 where
  pub machine : Machine
  pub threads : List Thread

-- The next exit: the vCPU's number, the exit and what the host answers meanwhile.
pub record Event : Type 0 where
  pub vcpu : ℕ
  pub now : Now
  pub exit : Exit

-- One round of the loop of a thread that goes on; a vCPU without one has no exits. `none`: a fault.
unfoldable pub round_of : Dumps → Table → Event → Running → Option Running
round_of d t e r = elim (get_elem? r.threads e.vcpu) [
  | some going ↦ elim (run_once e.now t e.exit r.machine) [
    | none ↦ none
    | some c ↦ some (record {
      machine = c.machine;
      threads = if is_nonzero c.ret then set r.threads e.vcpu (ended (dump_code d)) else r.threads;
    })
  ]
  | _ ↦ some r
]

unfoldable pub run_threads : Dumps → Table → List Event → Running → Option Running
run_threads d t [] r = some r
run_threads d t (e ∷ es) r = elim (round_of d t e r) [
  | none ↦ none
  | some r' ↦ run_threads d t es r'
]

abbrev pub all_ended : List Thread → Bool
all_ended [] = true
all_ended (going ∷ ts) = false
all_ended (ended code ∷ ts) = all_ended ts

-- `Boot` after the given exits: it has returned, it waits for a thread, or an exit has faulted.
pub data Booting : Type 0 where
  returned : Machine → ℤ → Booting
  waiting : Running → Booting
  faulted : Booting

-- The loop of the joins.
abbrev pub booting : Option Running → Booting
booting none = faulted
booting (some r) = if all_ended r.threads then returned r.machine (pos 0) else waiting r

unfoldable pub boot : Dumps → Table → ℕ → List Event → Machine → Booting
unfolding run_threads
boot d t vcpu_num es m =
    booting (run_threads d t es (record { machine = m; threads = replicate vcpu_num going }))
