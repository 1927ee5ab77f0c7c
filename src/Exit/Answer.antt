-- ===== src/Exit/Answer.antt =====
-- Which single accesses stop the vCPU.
use lvmm.Base.{
  ℕ, ◌≤◌, ◌<◌, ◌≡◌, refl, true, List, [], ◌∷◌, Option, none, some, arith, ltb, leb, pos, ℤ,
  is_nonzero, if◌then◌else◌, Bool-cases, inl, inr, ◌&&◌, ◌∙◌, ap,
}
use lvmm.Cmos.{IsValid, cmos_read, cmos_write, data_value-some, store_data}
use lvmm.Com1.{Works, in_range, com1_read_ret, com1_write_ret}
use lvmm.Pio.{
  Device, post, cmos, com1, Handler, default_pio, do_nothing_pio, reset_generator_out, read, write,
  Slot, slot, Table, pio_port_num, Range, find_slot, port_map,
}
use lvmm.Exit.Defs.{
  Machine, Now, Called, device_read, device_write, call, Direction, io_in, io_out, handler, Io,
  io_call, io_loop, io, run_once,
}

-- The code of a handler that is called at a port of its device, one byte wide.
abbrev pub answer : Handler → ℤ
answer default_pio = pos 1
answer reset_generator_out = pos 1
answer do_nothing_pio = pos 0
answer (read d) = pos 0
answer (write d) = pos 0

-- The ports that a device answers for.
abbrev Owns : Device → ℕ → Type 0
Owns post p = Unit
Owns cmos p = (0x70 ≤ p) × (p < 0x72)
Owns com1 p = in_range p ≡ true

abbrev Serves : Handler → ℕ → Type 0
Serves default_pio p = Unit
Serves reset_generator_out p = Unit
Serves do_nothing_pio p = Unit
Serves (read d) p = Owns d p
Serves (write d) p = Owns d p

abbrev SlotServes : Slot → ℕ → Type 0
SlotServes s p = (i o : Handler) × (s ≡ slot i o) × Serves i p × Serves o p

abbrev RangesServe : List Range → Type 0
RangesServe [] = Unit
RangesServe (r ∷ rs) =
    ((p : ℕ) → r.lo ≤ p → p < r.hi → Serves r.on_in p × Serves r.on_out p) × RangesServe rs

find_slot-SlotServes : (rs : List Range) (p : ℕ) → RangesServe rs → SlotServes (find_slot rs p) p
find_slot-SlotServes [] p h = (default_pio, default_pio, refl, tt, tt)
find_slot-SlotServes (r ∷ rs) p (here, more) = elim (Bool-cases (leb r.lo p && ltb p r.hi)) [
  | inl e ↦
      let (i, o) = here p (ground arith) (ground arith) in (r.on_in, r.on_out, rw e refl, i, o)
  | inr e ↦ rw e (find_slot-SlotServes rs p more)
]

port_map-RangesServe : RangesServe port_map
port_map-RangesServe = grind arith

-- The call returns with code `r`.
abbrev Returns : ℤ → Option Called → Type 0
Returns r none = ⊥
Returns r (some c) = c.ret ≡ r

module _ (now : Now) (m : Machine) (p b : ℕ) (bs : List ℕ) where
  cmos_read-Returns :
      IsValid m.rtc → Owns cmos p → Returns (pos 0) (device_read now cmos m p (b ∷ bs) 1)
  unfolding device_read cmos_read
  cmos_read-Returns v h = ground (arith, data_value-some now.time m.rtc)

  cmos_write-Returns :
      IsValid m.rtc → Owns cmos p → Returns (pos 0) (device_write now cmos m p (b ∷ bs) 1)
  unfolding device_write cmos_write store_data
  cmos_write-Returns v h = ground arith

  com1_read-Returns : Owns com1 p → Returns (pos 0) (device_read now com1 m p (b ∷ bs) 1)
  unfolding device_read
  com1_read-Returns h = ground (arith, com1_read_ret m.uart p (b ∷ bs) 1)

  com1_write-Returns :
      Works now.sys
      → now.sys.write_errno ≡ none
      → Owns com1 p
      → Returns (pos 0) (device_write now com1 m p (b ∷ bs) 1)
  unfolding device_write
  com1_write-Returns w e h =
      ground (arith, com1_write_ret now.sys m.uart m.host p (b ∷ bs) 1 e w.0 w.1)

  call-Returns :
      (f : Handler)
      → Works now.sys
      → now.sys.write_errno ≡ none
      → IsValid m.rtc
      → Serves f p
      → Returns (answer f) (call now f m p (b ∷ bs) 1)
  unfolding call
  call-Returns default_pio w e v h = refl
  call-Returns do_nothing_pio w e v h = refl
  call-Returns reset_generator_out w e v h = refl
  call-Returns (read post) w e v h = refl
  call-Returns (write post) w e v h = refl
  call-Returns (read cmos) w e v h = cmos_read-Returns v h
  call-Returns (write cmos) w e v h = cmos_write-Returns v h
  call-Returns (read com1) w e v h = com1_read-Returns h
  call-Returns (write com1) w e v h = com1_write-Returns w e h

handler-Serves :
    (s : Slot) (d : Direction) (p : ℕ)
    → SlotServes s p
    → (f : Handler) × (handler s d ≡ some f) × Serves f p
handler-Serves s io_in p (i, o, e, si, so) = (i, rw e refl, si)
handler-Serves s io_out p (i, o, e, si, so) = (o, rw e refl, so)

-- The access of one byte `b` at port `p`.
abbrev pub one_byte : ℕ → Direction → ℕ → List ℕ → Io
one_byte p d b bs = record { port = p; direction = d; size = 1; count = 1; buf = b ∷ bs }

-- The code that an exit returns for the handler that is found.
abbrev pub answer_of : Option Handler → ℤ
answer_of none = pos 1
answer_of (some f) = answer f

Returns-some : (r : ℤ) (o : Option Called) → Returns r o → (c : Called) × (o ≡ some c) × (c.ret ≡ r)
Returns-some r none h = absurd h
Returns-some r (some c) h = (c, refl, h)

-- The result of a loop of one round.
abbrev after_round : Called → Called
after_round c = record c { ret = if is_nonzero c.ret then pos 1 else pos 0 }

io_call-found :
    (now : Now) (t : Table) (a : Io) (m : Machine) (buf : List ℕ) (f : Handler)
    → a.port < pio_port_num
    → handler (t a.port) a.direction ≡ some f
    → io_call now t a m buf ≡ call now f m a.port buf a.size
unfolding io_call
io_call-found now t a m buf f low e =
    let inside : ltb a.port pio_port_num ≡ true = ground arith in rw (inside, e) refl

io_loop-one :
    (now : Now) (t : Table) (a : Io) (m : Machine) (buf : List ℕ) (c : Called)
    → io_call now t a m buf ≡ some c
    → io_loop 1 now t a m buf ≡ some (after_round c)
unfolding io_loop
io_loop-one now t a m buf c e = rw (e, io_loop) (ground arith)

answer-round : (f : Handler) → (if is_nonzero (answer f) then pos 1 else pos 0) ≡ answer f
answer-round f = ground arith

-- On a machine that is set up, with the host's calls succeeding: an access of one byte to a port
-- below
-- 0xFFFF is handled, and stops the vCPU exactly where the port map has the default handler or, for
-- an
-- output, the reset generator; a device never stops it.
pub run_once-answer :
    (now : Now) (t : Table) (m : Machine) (d : Direction) (p b : ℕ) (bs : List ℕ)
    → Works now.sys
    → now.sys.write_errno ≡ none
    → IsValid m.rtc
    → p < pio_port_num
    → t p ≡ find_slot port_map p
    → (r : Called) × (run_once now t (io (one_byte p d b bs)) m ≡ some r)
      × (r.ret ≡ answer_of (handler (find_slot port_map p) d))
unfolding run_once
run_once-answer now t m d p b bs w e v low served =
    let (f, found, owns) =
      handler-Serves (find_slot port_map p) d p
        (find_slot-SlotServes port_map p port_map-RangesServe) in
    let (c, called, code) = Returns-some (answer f) _ (call-Returns now m p b bs f w e v owns) in
    let there : handler (t p) d ≡ some f = ap (λ s. handler s d) served ∙ found in
    let made = io_call-found now t (one_byte p d b bs) m (b ∷ bs) f low there ∙ called in
    (
      after_round c,
      io_loop-one now t (one_byte p d b bs) m (b ∷ bs) c made,
      rw (found, code) (answer-round f),
    )
