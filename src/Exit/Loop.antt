-- ===== src/Exit/Loop.antt =====
-- `Vcpu::RunLoop`: exits are handled one after another until one of them stops the vCPU.
use lvmm.Base.{
  ℕ, ◌≡◌, true, List, [], ◌∷◌, ◌++◌, Option, none, some, arith, pos, neg, ℤ, is_nonzero,
  if◌then◌else◌, Bool-cases, inl, inr, ◌∙◌, Option-cases,
}
use lvmm.Cmos.{IsValid}
use lvmm.Irq.{HasErrno}
use lvmm.Pio.{Table}
use lvmm.Exit.Defs.{Machine, Now, Called, Exit, run_once}
use lvmm.Exit.Safety.{IsFull, InTable, run_once-IsValid}

-- The `errno` of `KVM_GET_REGS` and `KVM_GET_SREGS` when the registers are dumped.
pub record Dumps : Type 0 where
  pub regs_errno : Option ℕ
  pub sregs_errno : Option ℕ

-- `if ((r = DumpRegs())) return r; if ((r = DumpSregs())) return r; return 1;`
unfoldable pub dump_code : Dumps → ℤ
dump_code d = elim d.regs_errno [
  | some e ↦ neg e
  | none ↦ elim d.sregs_errno [ some e ↦ neg e | none ↦ pos 1 ]
]

-- The loop after the given exits: it goes on, it has returned, or an exit has faulted.
pub data LoopState : Type 0 where
  running : Machine → LoopState
  returned : Machine → ℤ → LoopState
  faulted : LoopState

-- Each exit comes with what the host answers while it is handled.
abbrev pub Exits : Type 0
Exits = List (Now × Exit)

unfoldable pub run_loop : Dumps → Table → Exits → Machine → LoopState
run_loop d t [] m = running m
run_loop d t ((now, e) ∷ es) m = elim (run_once now t e m) [
  | none ↦ faulted
  | some r ↦
      let rest = run_loop d t es r.machine in
      if is_nonzero r.ret then returned r.machine (dump_code d) else rest
]

-- Exits that all lie in the table.
abbrev pub AllInTable : Exits → Type 0
AllInTable [] = Unit
AllInTable ((now, e) ∷ es) = InTable e × AllInTable es

-- Running or returned, with a valid CMOS; returned with a code other than 0.
abbrev pub Healthy : LoopState → Type 0
Healthy (running m) = IsValid m.rtc
Healthy (returned m r) = IsValid m.rtc × (is_nonzero r ≡ true)
Healthy faulted = ⊥

dump_code-nonzero :
    (d : Dumps) → HasErrno d.regs_errno → HasErrno d.sregs_errno → is_nonzero (dump_code d) ≡ true
unfolding dump_code
dump_code-nonzero d p q = ground arith

-- With a full table, a valid CMOS and positive error numbers, the loop handles any sequence of
-- exits
-- that leaves out port 0xFFFF without a fault, and returns no 0.
pub run_loop-Healthy :
    (d : Dumps) (t : Table) (es : Exits) (m : Machine)
    → HasErrno d.regs_errno
    → HasErrno d.sregs_errno
    → IsFull t
    → AllInTable es
    → IsValid m.rtc
    → Healthy (run_loop d t es m)
unfolding run_loop
run_loop-Healthy d t [] m p q full low v = v
run_loop-Healthy d t ((now, e) ∷ es) m p q full (here, more) v =
    let (r, eq, w) = run_once-IsValid now t e m full here v in
    rw (eq, Healthy)
      (elim (Bool-cases (is_nonzero r.ret)) [
        | inl stop ↦ rw stop (w, dump_code-nonzero d p q)
        | inr on ↦ rw on (run_loop-Healthy d t es r.machine p q full more w)
      ])

run_loop-append :
    (d : Dumps) (t : Table) (es fs : Exits) (m m' : Machine)
    → run_loop d t es m ≡ running m'
    → run_loop d t (es ++ fs) m ≡ run_loop d t fs m'
unfolding run_loop
run_loop-append d t [] fs m m' h = ground arith
run_loop-append d t ((now, e) ∷ es) fs m m' h = elim (Option-cases (run_once now t e m)) [
  | inl q ↦ ground (arith, q)
  | inr (r, q) ↦ ground (arith, q, run_loop-append d t es fs r.machine m')
]

-- The first exit that stops the vCPU ends the loop: the machine is what that exit left, the code is
-- that of the register dumps, and later exits are not handled.
pub run_loop-stop :
    (d : Dumps) (t : Table) (es fs : Exits) (now : Now) (e : Exit) (m m' : Machine) (r : Called)
    → run_loop d t es m ≡ running m'
    → run_once now t e m' ≡ some r
    → is_nonzero r.ret ≡ true
    → run_loop d t (es ++ (now, e) ∷ fs) m ≡ returned r.machine (dump_code d)
unfolding run_loop
run_loop-stop d t es fs now e m m' r going stops nonzero =
    run_loop-append d t es ((now, e) ∷ fs) m m' going ∙ ground arith
