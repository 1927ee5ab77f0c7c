-- ===== src/Run/Calls.antt =====
-- One vCPU over its calls of `KVM_RUN`.
use lvmm.Base.{
  ◌≡◌, ◌∙◌, sym, ap, refl, ◌⊎◌, inl, inr, Bool-cases, true, pos, is_nonzero, List, [], ◌∷◌, some,
  map,
}
use lvmm.Cmos.{IsValid}
use lvmm.Pio.{Table}
use lvmm.Exit.{
  Machine, Called, Exit, unknown, run_once, Dumps, dump_code, LoopState, Entry, run_vcpu,
  page_after, run_entries, seen_exits, run_entries-run_loop, WritesInTable, IsFull, InTable,
  entered-InTable, page_after-InTable, run_once-IsValid, run_entries-step,
}
use lvmm.Run.Defs.{Booting, boot}
use lvmm.Run.Rounds.{stops, run_once-stops}
use lvmm.Run.Alone.{of_first, booting_of, boot-run_loop}

-- `Boot` with one vCPU, whose run page is all zeros at first.
unfoldable pub boot_calls : Dumps → Table → List Entry → Machine → Booting
boot_calls d t ns m = booting_of (run_entries d t ns unknown m)

-- It is `Boot` over the exits that the loop handles.
pub boot_calls-boot :
    (d : Dumps) (t : Table) (ns : List Entry) (m : Machine)
    → boot_calls d t ns m ≡ boot d t 1 (map of_first (seen_exits t ns unknown m)) m
unfolding boot_calls
boot_calls-boot d t ns m =
    ap booting_of (run_entries-run_loop d t ns unknown m)
    ∙ sym (boot-run_loop d t (seen_exits t ns unknown m) m)

-- `KVM_RUN` writes an exit that stops the vCPU.
abbrev pub Stops : Entry → Type 0
Stops n = (e : Exit) × (n.written ≡ some e) × (stops e ≡ true)

abbrev pub SomeStops : List Entry → Type 0
SomeStops [] = ⊥
SomeStops (n ∷ ns) = Stops n ⊎ SomeStops ns

seen-Stops : (n : Entry) (page : Exit) → Stops n → stops (run_vcpu n page).1 ≡ true
unfolding run_vcpu
seen-Stops n page (e, written, stop) = rw written stop

run_entries-next :
    (d : Dumps) (t : Table) (n : Entry) (ns : List Entry) (page : Exit) (m : Machine) (r : Called)
    → run_once n.now t (run_vcpu n page).1 m ≡ some r
    → is_nonzero r.ret ≡ true
    → run_entries d t (n ∷ ns) page m ≡ LoopState.returned r.machine (dump_code d)
unfolding run_entries
run_entries-next d t n ns page m r handled stop = rw (run_entries, handled) (rw stop refl)

-- With a full table, a valid CMOS and no access to port 0xFFFF: once KVM_RUN has written an exit that
-- stops the vCPU, RunLoop has returned the code of the register dumps, whatever KVM_RUN answered and
-- whatever the run page held before.
pub run_entries-returned :
    (d : Dumps) (t : Table) (ns : List Entry) (page : Exit) (m : Machine)
    → IsFull t
    → InTable page
    → WritesInTable ns
    → IsValid m.rtc
    → SomeStops ns
    → (m' : Machine) × (run_entries d t ns page m ≡ LoopState.returned m' (dump_code d))
run_entries-returned d t [] page m full p w v s = absurd s
run_entries-returned d t (n ∷ ns) page m full p (here, more) v s =
    let seen = (run_vcpu n page).1 in
    let q : InTable seen = entered-InTable n page p here in
    let (r, handled, v') = run_once-IsValid n.now t seen m full q v in
    elim (Bool-cases (is_nonzero r.ret)) [
      | inl stop ↦ (r.machine, run_entries-next d t n ns page m r handled stop)
      | inr on ↦ elim s [
        | inl now_stops ↦ (
          m,
          run_entries-next d t n ns page m (record { machine = m; buf = []; ret = pos 1 })
              (run_once-stops n.now t seen m (seen-Stops n page now_stops)) refl,
        )
        | inr later ↦
            let (m', e) =
              run_entries-returned d t ns (page_after seen r.buf) r.machine full
                (page_after-InTable seen r.buf q) more v' later in
            (m', run_entries-step d t n ns page m {r = r} handled on ∙ e)
      ]
    ]
