-- ===== src/Exit/Enter.antt =====
-- `Vcpu::Run`, and the loop of `RunLoop` with it: what a round handles is what the run page then
-- holds, whether or not `KVM_RUN` succeeded.
use lvmm.Base.{
  ℕ, ◌≡◌, refl, not, ◌&&◌, List, [], ◌∷◌, Option, none, some, ◌==◌, if◌then◌else◌, ℤ, pos, neg,
  is_nonzero, inl, inr, Option-cases,
}
use lvmm.Ioctl.{Answer, result, errno, kvm_ioctl}
use lvmm.Irq.{HasErrno}
use lvmm.Cmos.{IsValid}
use lvmm.Pio.{Table}
use lvmm.Exit.Defs.{Machine, Now, Exit, io, run_once}
use lvmm.Exit.Safety.{IsFull, InTable}
use lvmm.Exit.Loop.{
  Dumps, LoopState, running, returned, faulted, dump_code, Exits, run_loop, AllInTable, Healthy,
  run_loop-Healthy,
}

-- The error numbers of Linux that `Run` tells apart.
abbrev pub eintr : ℕ
eintr = 4

abbrev pub eagain : ℕ
eagain = 11

-- One call of `KVM_RUN`: its answer, the exit that it wrote to the run page, or none where it failed
-- before, and what the host answers while the exit is handled.
pub record Entry : Type 0 where
  pub answer : Answer
  pub written : Option Exit
  pub now : Now

-- What `Run` returns.
unfoldable pub run_result : Answer → ℤ
run_result (result r) = pos r
run_result (errno e) = if not (e == eagain) && not (e == eintr) then neg e else kvm_ioctl (errno e)

-- `Run` over the exit in the run page: the result and the page.
unfoldable pub run_vcpu : Entry → Exit → ℤ × Exit
unfolding run_result
run_vcpu n page = (run_result n.answer, elim n.written [ none ↦ page | some e ↦ e ])

-- The run page behind the handlers: an input has put its bytes into it.
abbrev pub page_after : Exit → List ℕ → Exit
page_after (io a) buf = io (record a { buf = buf })
page_after e buf = e

-- `RunLoop` over calls of `KVM_RUN`, from what the run page holds.
unfoldable pub run_entries : Dumps → Table → List Entry → Exit → Machine → LoopState
run_entries d t [] page m = running m
run_entries d t (n ∷ ns) page m =
    let seen = (run_vcpu n page).1 in
    elim (run_once n.now t seen m) [
      | none ↦ faulted
      | some r ↦
          let rest = run_entries d t ns (page_after seen r.buf) r.machine in
          if is_nonzero r.ret then returned r.machine (dump_code d) else rest
    ]

-- The exits that the loop handles.
abbrev pub seen_exits : Table → List Entry → Exit → Machine → Exits
seen_exits t [] page m = []
seen_exits t (n ∷ ns) page m =
    let seen = (run_vcpu n page).1 in
    elim (run_once n.now t seen m) [
      | none ↦ (n.now, seen) ∷ []
      | some r ↦ (n.now, seen) ∷ seen_exits t ns (page_after seen r.buf) r.machine
    ]

pub run_entries-run_loop :
    (d : Dumps) (t : Table) (ns : List Entry) (page : Exit) (m : Machine)
    → run_entries d t ns page m ≡ run_loop d t (seen_exits t ns page m) m
unfolding run_entries run_loop
run_entries-run_loop d t [] page m = refl
run_entries-run_loop d t (n ∷ ns) page m =
    let seen = (run_vcpu n page).1 in
    elim (Option-cases (run_once n.now t seen m)) [
      | inl e ↦ rw (e, seen_exits, run_entries, run_loop) (rw e refl)
      | inr (r, e) ↦
          rw (e, seen_exits, run_entries, run_loop)
            (rw (e, run_entries-run_loop d t ns (page_after seen r.buf) r.machine) refl)
    ]

-- Every exit that `KVM_RUN` writes lies in the table.
abbrev pub WrittenInTable : Option Exit → Type 0
WrittenInTable none = Unit
WrittenInTable (some e) = InTable e

abbrev pub WritesInTable : List Entry → Type 0
WritesInTable [] = Unit
WritesInTable (n ∷ ns) = WrittenInTable n.written × WritesInTable ns

pub page_after-InTable : (e : Exit) (buf : List ℕ) → InTable e → InTable (page_after e buf)
page_after-InTable (io a) buf h = h
page_after-InTable _ buf h = tt

pub entered-InTable :
    (n : Entry) (page : Exit)
    → InTable page
    → WrittenInTable n.written
    → InTable (run_vcpu n page).1
unfolding run_vcpu
entered-InTable n page p w = elim (Option-cases n.written) [
  | inl e ↦ rw e p
  | inr (x, e) ↦ rw e (rw e at w)
]

seen_exits-AllInTable :
    (t : Table) (ns : List Entry) (page : Exit) (m : Machine)
    → InTable page
    → WritesInTable ns
    → AllInTable (seen_exits t ns page m)
seen_exits-AllInTable t [] page m p w = tt
seen_exits-AllInTable t (n ∷ ns) page m p (here, more) =
    let seen = (run_vcpu n page).1 in
    let q : InTable seen = entered-InTable n page p here in
    elim (Option-cases (run_once n.now t seen m)) [
      | inl e ↦ rw (e, seen_exits) (q, tt)
      | inr (r, e) ↦
          rw (e, seen_exits)
            (
              q,
              seen_exits-AllInTable t ns (page_after seen r.buf) r.machine
                  (page_after-InTable seen r.buf q) more,
            )
    ]

-- Whatever KVM_RUN answers and whether or not it writes the run page: with a full table, a valid
-- CMOS and positive error numbers, the loop handles what the run page holds without a fault, keeps
-- the CMOS valid and returns no 0, as long as neither the run page at first nor an exit that is
-- written to it is an access to port 0xFFFF.
pub run_entries-Healthy :
    (d : Dumps) (t : Table) (ns : List Entry) (page : Exit) (m : Machine)
    → HasErrno d.regs_errno
    → HasErrno d.sregs_errno
    → IsFull t
    → InTable page
    → WritesInTable ns
    → IsValid m.rtc
    → Healthy (run_entries d t ns page m)
run_entries-Healthy d t ns page m p q full here more v = rw (run_entries-run_loop d t ns page m) (
    run_loop-Healthy d t (seen_exits t ns page m) m p q full
      (seen_exits-AllInTable t ns page m here more) v)
