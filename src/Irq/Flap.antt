-- ===== src/Irq/Flap.antt =====
-- What a flap leaves on the line.
use lvmm.Base.{ℕ, ◌≡◌, ◌<◌, List, [], ◌∷◌, ◌++◌, Option, none, some, ℤ, pos, neg, arith}
use mathlib.Core.List.{append-nil, append_assoc}
use lvmm.Irq.Defs.{Sys, Host, flap_irq_line}

-- A failed call has a positive `errno`.
abbrev pub HasErrno : Option ℕ → Type 0
HasErrno none = Unit
HasErrno (some e) = 0 < e

-- The levels that a flap sets: low and then high, and nothing after a failure.
abbrev pub flap_lines : Sys → ℕ → List (ℕ × ℕ)
flap_lines sys irq = elim (sys.irq_errno 0) [
  | some e ↦ []
  | none ↦ elim (sys.irq_errno 1) [ some e ↦ (irq, 0) ∷ [] | none ↦ (irq, 0) ∷ (irq, 1) ∷ [] ]
]

-- The code that it returns: that of the first call that fails, or 0.
abbrev pub flap_code : Sys → ℤ
flap_code sys = elim (sys.irq_errno 0) [
  | some e ↦ neg e
  | none ↦ elim (sys.irq_errno 1) [ some e ↦ neg e | none ↦ pos 0 ]
]

-- With positive error numbers, `flapIRQLine` lowers the line and then raises it; a call that fails
-- ends it with that call's code, so that a line that could not be lowered is not raised.
pub flap_irq_line_lem :
    (sys : Sys) (irq : ℕ) (h : Host)
    → HasErrno (sys.irq_errno 0)
    → HasErrno (sys.irq_errno 1)
    → flap_irq_line sys irq h ≡ (record h { lines = h.lines ++ flap_lines sys irq }, flap_code sys)
unfolding flap_irq_line
flap_irq_line_lem sys irq h p q =
    ground (arith, append-nil h.lines, append_assoc h.lines ((irq, 0) ∷ []) ((irq, 1) ∷ []))
