-- ===== src/Pio/Register.antt =====
-- What a registration leaves in the table.
use lvmm.Base.{
  ℕ, zero, suc, ◌+◌, ◌-◌, ◌%◌, ◌≤◌, ◌<◌, ◌≡◌, true, ◌&&◌, some, ltb, leb, if◌then◌else◌, arith,
  fun_ext, Bool-cases, ltb→lt, inl, inr, ap, ◌∙◌,
}
use lvmm.Pio.Defs.{
  Table, Slot, Handler, slot, assign, register_from, register_pio_handler, pio_port_num,
}

-- The table with the ports from `lo` up to `hi` at `s`.
abbrev pub fill : ℕ → ℕ → Slot → Table → Table
fill lo hi s t p = if leb lo p && ltb p hi then s else t p

fill-assign :
    (lo hi : ℕ) (s : Slot) (t : Table)
    → lo < hi
    → fill (lo + 1) hi s (assign t lo s) ≡ fill lo hi s t
fill-assign lo hi s t h = fun_ext λ p. ground arith

fill_empty : (lo hi : ℕ) (s : Slot) (t : Table) → hi ≤ lo → t ≡ fill lo hi s t
fill_empty lo hi s t h = fun_ext λ p. ground arith

register_from_lem :
    (fuel i port_end : ℕ) (s : Slot) (t : Table)
    → port_end - i < fuel
    → i < 65536
    → port_end ≤ pio_port_num
    → register_from fuel i port_end s t ≡ some (fill i port_end s t)
unfolding register_from
register_from_lem zero i port_end s t f h k = absurd (omega arith)
register_from_lem (suc fuel) i port_end s t f h k = elim (Bool-cases (ltb i port_end)) [
  | inl more ↦
      let below : i < port_end = ltb→lt i port_end more in
      let fits : (i + 1) % 65536 ≡ i + 1 = omega arith in
      let inside : ltb i pio_port_num ≡ true = ground arith in
      rw (more, inside, fits)
        (register_from_lem fuel (i + 1) port_end s (assign t i s) (omega arith) (omega arith) k
          ∙ ap some (fill-assign i port_end s t below))
  | inr over ↦ rw over (ap some (fill_empty i port_end s t (ground arith)))
]

-- For bounds that fit `uint16_t`, the loop ends, writes inside the array, and puts the two handlers
-- at
-- the ports from the first bound up to the second, leaving the others.
pub register_pio_handler_lem :
    (port_start port_end : ℕ) (i o : Handler) (t : Table)
    → port_start < 65536
    → port_end < 65536
    → register_pio_handler port_start port_end i o t ≡ some (fill port_start port_end (slot i o) t)
unfolding register_pio_handler
register_pio_handler_lem port_start port_end i o t h k =
    register_from_lem 65536 port_start port_end (slot i o) t (omega arith) h (omega arith)
