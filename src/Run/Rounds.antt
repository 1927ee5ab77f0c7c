-- ===== src/Run/Rounds.antt =====
-- What one exit keeps, and what it ends.
use lvmm.Base.{
  ℤ, ℕ, zero, suc, ◌<◌, ◌≡◌, refl, ap, Bool, Bool-cases, inl, inr, ◌⊎◌, true, false, List, [], ◌∷◌,
  none, some, pos, is_nonzero, length, length-set, ◌∙◌, get_elem?, get_elem?-lt, set, Option-cases,
  arith,
}
use lvmm.Cmos.{IsValid}
use lvmm.Pio.{Table}
use lvmm.Exit.{
  Machine, Now, Called, Exit, debug, hlt, mmio, other, unknown, intr, io, run_once, Dumps,
  dump_code, IsFull, InTable, run_once-IsValid,
}
use lvmm.Run.Defs.{Thread, going, ended, Running, Event, round_of}

abbrev pub EventsInTable : List Event → Type 0
EventsInTable [] = Unit
EventsInTable (e ∷ es) = InTable e.exit × EventsInTable es

-- Exits behind which `RunLoop` returns, whatever the machine is like.
abbrev pub stops : Exit → Bool
stops debug = true
stops hlt = true
stops mmio = true
stops (other reason) = true
stops e = false

abbrev pub HasEnded : List Thread → ℕ → Type 0
HasEnded ts i = (code : ℤ) × (get_elem? ts i ≡ some (ended code))

-- Among the exits is one of vCPU `i` that stops it.
abbrev pub StopsAt : ℕ → List Event → Type 0
StopsAt i [] = ⊥
StopsAt i (e ∷ es) = (e.vcpu ≡ i) × (stops e.exit ≡ true) ⊎ StopsAt i es

pub run_once-stops :
    (now : Now) (t : Table) (e : Exit) (m : Machine)
    → stops e ≡ true
    → run_once now t e m ≡ some (record { machine = m; buf = []; ret = pos 1 })
unfolding run_once
run_once-stops now t debug m h = refl
run_once-stops now t hlt m h = refl
run_once-stops now t mmio m h = refl
run_once-stops now t (other reason) m h = refl
run_once-stops now t unknown m h = cc h
run_once-stops now t intr m h = cc h
run_once-stops now t (io a) m h = cc h

goes_on :
    (now : Now) (t : Table) (e : Exit) (m : Machine) (c : Called)
    → stops e ≡ true
    → run_once now t e m ≡ some c
    → is_nonzero c.ret ≡ false
    → ⊥
goes_on now t e m c s called on =
    let same : record { machine = m; buf = []; ret = pos 1 } ≡ c =
      cc (run_once-stops now t e m s) in
    cc (ap (λ (x : Called). is_nonzero x.ret) same ∙ on)

no_element :
    (ts : List Thread) (i : ℕ)
    → get_elem? ts i ≡ none
    → (a : Thread) × (get_elem? ts i ≡ some a)
    → ⊥
no_element ts i h (a, g) = cc (h, g)

set-keeps :
    (ts : List Thread) (i j : ℕ) (code : ℤ) → HasEnded ts j → HasEnded (set ts i (ended code)) j
set-keeps [] i j code h = h
set-keeps (x ∷ xs) zero zero code h = (code, refl)
set-keeps (x ∷ xs) zero (suc j) code h = h
set-keeps (x ∷ xs) (suc i) zero code h = h
set-keeps (x ∷ xs) (suc i) (suc j) code h = set-keeps xs i j code h

set-ends :
    (ts : List Thread) (i : ℕ) (code : ℤ) → i < length ts → HasEnded (set ts i (ended code)) i
set-ends [] i code h = elim h [ ]
set-ends (x ∷ xs) zero code h = (code, refl)
set-ends (x ∷ xs) (suc i) code h = set-ends xs i code (omega arith)

-- What one round leaves of the threads.
pub record RoundEnds (e : Event) (ts ts' : List Thread) : Type 0 where
  pub same_length : length ts' ≡ length ts
  pub keeps : (i : ℕ) → HasEnded ts i → HasEnded ts' i
  pub stopped : stops e.exit ≡ true → e.vcpu < length ts → HasEnded ts' e.vcpu

set-RoundEnds :
    (e : Event) (ts : List Thread) (code : ℤ) → RoundEnds e ts (set ts e.vcpu (ended code))
set-RoundEnds e ts code = record {
  same_length = length-set ts e.vcpu (ended code);
  keeps = λ i h. set-keeps ts e.vcpu i code h;
  stopped = λ s h. set-ends ts e.vcpu code h;
}

same-RoundEnds :
    (e : Event) (ts : List Thread)
    → (stops e.exit ≡ true → e.vcpu < length ts → HasEnded ts e.vcpu)
    → RoundEnds e ts ts
same-RoundEnds e ts k = record { same_length = refl; keeps = λ i h. h; stopped = k }

module _ (d : Dumps) (t : Table) (full : IsFull t) where
  pub round_of_lem :
      (e : Event) (r : Running)
      → InTable e.exit
      → IsValid r.machine.rtc
      → (r' : Running) × (round_of d t e r ≡ some r')
        × IsValid r'.machine.rtc
        × RoundEnds e r.threads r'.threads
  unfolding round_of
  round_of_lem e r low v = elim (Option-cases (get_elem? r.threads e.vcpu)) [
    | inl h ↦ (
      r,
      rw (round_of, h) refl,
      v,
      same-RoundEnds e r.threads (λ s inside.
          absurd (no_element r.threads e.vcpu h (get_elem?-lt r.threads e.vcpu inside))),
    )
    | inr (ended code, h) ↦
        (r, rw (round_of, h) refl, v, same-RoundEnds e r.threads (λ s inside. (code, h)))
    | inr (going, h) ↦
        let (c, called, w) = run_once-IsValid e.now t e.exit r.machine full low v in
        elim (Bool-cases (is_nonzero c.ret)) [
          | inl stop ↦ (
            record { machine = c.machine; threads = set r.threads e.vcpu (ended (dump_code d)) },
            rw (round_of, h, called, stop) refl,
            w,
            set-RoundEnds e r.threads (dump_code d),
          )
          | inr on ↦ (
            record { machine = c.machine; threads = r.threads },
            rw (round_of, h, called, on) refl,
            w,
            same-RoundEnds e r.threads
                (λ s inside. absurd (goes_on e.now t e.exit r.machine c s called on)),
          )
        ]
  ]
