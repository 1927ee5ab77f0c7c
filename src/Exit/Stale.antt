-- ===== src/Exit/Stale.antt =====
-- `RunOnce` throws the result of `Run` away: what it does while `KVM_RUN` fails.
use mathlib.Core.List.{append-nil, append_assoc}
use lvmm.Base.{
  ℕ, suc, ◌≡◌, refl, sym, ap, ◌∙◌, false, is_nonzero, List, [], ◌∷◌, none, length, replicate, arith,
  some,
}
use lvmm.Ioctl.{errno}
use lvmm.Pio.{com1, read, write, slot, Table}
use lvmm.Exit.Defs.{Machine, Called, unknown, io, Exit, run_once}
use lvmm.Exit.Loop.{Dumps, running}
use lvmm.Exit.Enter.{Entry, run_vcpu, page_after, run_entries}
use lvmm.Exit.Strings.{Plain, com1_out, sent, run_once-repeats}

-- `KVM_RUN` fails, whatever its `errno`, and has not written the run page.
abbrev pub Fails : Entry → Type 0
Fails n = (e : ℕ) × (n.answer ≡ errno e) × (n.written ≡ none)

abbrev pub AllFail : List Entry → Type 0
AllFail [] = Unit
AllFail (n ∷ ns) = Fails n × AllFail ns

-- The host takes the bytes that are printed.
abbrev pub AllPrint : List Entry → Type 0
AllPrint [] = Unit
AllPrint (n ∷ ns) = (n.now.sys.write_errno ≡ none) × AllPrint ns

seen-Fails : (n : Entry) (page : Exit) → Fails n → (run_vcpu n page).1 ≡ page
unfolding run_vcpu
seen-Fails n page (e, fails, kept) = rw kept refl

-- A round that goes on.
pub run_entries-step :
    (d : Dumps) (t : Table) (n : Entry) (ns : List Entry) (page : Exit) (m : Machine) {r : Called}
    → run_once n.now t (run_vcpu n page).1 m ≡ some r
    → is_nonzero r.ret ≡ false
    → run_entries d t (n ∷ ns) page m
      ≡ run_entries d t ns (page_after (run_vcpu n page).1 r.buf) r.machine
unfolding run_entries
run_entries-step d t n ns page m {r} handled on = rw (run_entries, handled) (rw on refl)

-- The same for a failed call, which leaves the run page.
run_entries-Fails :
    (d : Dumps) (t : Table) (n : Entry) (ns : List Entry) (page : Exit) (m : Machine) {r : Called}
    → Fails n
    → run_once n.now t page m ≡ some r
    → is_nonzero r.ret ≡ false
    → run_entries d t (n ∷ ns) page m ≡ run_entries d t ns (page_after page r.buf) r.machine
run_entries-Fails d t n ns page m {r} fails handled on =
    rw (seen-Fails n page fails) at
      (run_entries-step d t n ns page m {r = r} (rw (seen-Fails n page fails) handled) on)

-- On the run page of a new vCPU, which is all zeros.
pub run_entries-unknown :
    (d : Dumps) (t : Table) (ns : List Entry) (m : Machine)
    → AllFail ns
    → run_entries d t ns unknown m ≡ running m
unfolding run_entries run_once
run_entries-unknown d t [] m f = refl
run_entries-unknown d t (n ∷ ns) m (fails, more) =
    run_entries-Fails d t n ns unknown m fails refl refl ∙ run_entries-unknown d t ns m more

sent-zero : (m : Machine) (b : ℕ) → sent m 0 b ≡ m
sent-zero m b = ground (arith, append-nil m.host.stdout)

sent-suc : (m : Machine) (k b : ℕ) → sent (sent m 1 b) k b ≡ sent m (suc k) b
sent-suc m k b = ground (arith, append_assoc m.host.stdout (b ∷ []) (replicate k b))

-- The guest has sent one byte to the serial port, which serves the port, with DLAB and loopback clear
-- and the transmit interrupt disabled, and the host takes what is printed. While KVM_RUN fails without
-- writing the run page, whatever its error number, the loop goes on, and each failed call sends that
-- byte once more.
pub run_entries-repeats :
    (d : Dumps) (t : Table) (ns : List Entry) (b : ℕ) (bs : List ℕ) (m : Machine)
    → AllFail ns
    → AllPrint ns
    → t 0x3F8 ≡ slot (read com1) (write com1)
    → Plain m.uart
    → run_entries d t ns (io (com1_out 1 (b ∷ bs))) m ≡ running (sent m (length ns) b)
unfolding run_entries
run_entries-repeats d t [] b bs m f p served plain = ap running (sym (sent-zero m b))
run_entries-repeats d t (n ∷ ns) b bs m (fails, more) (takes, prints) served plain =
    run_entries-Fails d t n ns (io (com1_out 1 (b ∷ bs))) m fails
      (run_once-repeats n.now t 1 b bs m takes served plain) refl
    ∙ run_entries-repeats d t ns b bs (sent m 1 b) more prints served plain
    ∙ ap running (sent-suc m (length ns) b)
