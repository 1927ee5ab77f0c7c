-- ===== src/Irq/Defs.antt =====
-- `irqLine` and `flapIRQLine`, over the outcomes of the system calls.
use lvmm.Base.{ℕ, List, [], ◌∷◌, ◌++◌, Option, none, some, ℤ, pos, neg, is_nonzero, if◌then◌else◌}

-- How the system calls of one access come out: the `errno` of `write` to standard output, and of
-- `KVM_IRQ_LINE` for each level; `none` is success.
pub record Sys : Type 0 where
  pub write_errno : Option ℕ
  pub irq_errno : ℕ → Option ℕ

-- What the host has seen: the bytes on standard output, and the levels that `KVM_IRQ_LINE` has set,
-- each with its line, in order.
pub record Host : Type 0 where
  pub stdout : List ℕ
  pub lines : List (ℕ × ℕ)

unfoldable pub irq_line : Sys → ℕ → ℕ → Host → Host × ℤ
irq_line sys irq level h = elim (sys.irq_errno level) [
  | none ↦ (record h { lines = h.lines ++ (irq, level) ∷ [] }, pos 0)
  | some e ↦ (h, neg e)
]

-- The raise that follows a successful lowering.
unfoldable pub raise_line : Sys → ℕ → Host → Host × ℤ
unfolding irq_line
raise_line sys irq h =
    let (h', r) = irq_line sys irq 1 h in if is_nonzero r then (h', r) else (h', pos 0)

unfoldable pub flap_irq_line : Sys → ℕ → Host → Host × ℤ
unfolding irq_line raise_line
flap_irq_line sys irq h =
    let (h', r) = irq_line sys irq 0 h in if is_nonzero r then (h', r) else raise_line sys irq h'
