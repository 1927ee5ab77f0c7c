-- ===== src/Exit/Safety.antt =====
-- An exit is handled without a fault, but for an access to the last port.
use lvmm.Base.{
  ℕ, zero, suc, ◌<◌, ◌≡◌, refl, true, List, [], ◌∷◌, Option, none, some, arith, ltb, is_nonzero,
  Bool-cases, inl, inr, ◌∙◌, ◌&&◌, leb,
}
use lvmm.Cmos.{IsValid, read-Done, write-Done}
use lvmm.Pio.{
  Device, post, cmos, com1, Handler, default_pio, do_nothing_pio, reset_generator_out, read, write,
  slot, Table, pio_port_num, Range, find_slot, port_map,
}
use lvmm.Exit.Defs.{
  Machine, Now, Called, device_read, device_write, call, Direction, io_in, io_out, handler, Io,
  io_call, io_loop, Exit, io, run_once,
}

-- Every place of the table holds two handlers.
abbrev pub IsFull : Table → Type 0
IsFull t = (p : ℕ) → p < pio_port_num → (i o : Handler) × (t p ≡ slot i o)

-- The call returns, and leaves the CMOS with a register of the array selected.
abbrev pub Fine : Option Called → Type 0
Fine none = ⊥
Fine (some r) = IsValid r.machine.rtc

device_read-Fine :
    (now : Now) (d : Device) (m : Machine) (port : ℕ) (buf : List ℕ) (size : ℕ)
    → IsValid m.rtc
    → Fine (device_read now d m port buf size)
unfolding device_read
device_read-Fine now post m port buf size v = v
device_read-Fine now com1 m port buf size v = v
device_read-Fine now cmos m port buf size v =
    ground (arith, read-Done now.time m.rtc port buf size v)

device_write-Fine :
    (now : Now) (d : Device) (m : Machine) (port : ℕ) (buf : List ℕ) (size : ℕ)
    → IsValid m.rtc
    → Fine (device_write now d m port buf size)
unfolding device_write
device_write-Fine now post m port buf size v = v
device_write-Fine now com1 m port buf size v = v
device_write-Fine now cmos m port buf size v = ground (arith, write-Done m.rtc port buf size v)

call-Fine :
    (now : Now) (f : Handler) (m : Machine) (port : ℕ) (buf : List ℕ) (size : ℕ)
    → IsValid m.rtc
    → Fine (call now f m port buf size)
unfolding call
call-Fine now default_pio m port buf size v = v
call-Fine now do_nothing_pio m port buf size v = v
call-Fine now reset_generator_out m port buf size v = v
call-Fine now (read d) m port buf size v = device_read-Fine now d m port buf size v
call-Fine now (write d) m port buf size v = device_write-Fine now d m port buf size v

Fine-some : (o : Option Called) → Fine o → (r : Called) × (o ≡ some r) × IsValid r.machine.rtc
Fine-some none d = absurd d
Fine-some (some r) d = (r, refl, d)

handler-some :
    (t : Table) (p : ℕ) (d : Direction)
    → IsFull t
    → p < pio_port_num
    → (f : Handler) × (handler (t p) d ≡ some f)
handler-some t p io_in full low = let (i, o, e) = full p low in (i, rw e refl)
handler-some t p io_out full low = let (i, o, e) = full p low in (o, rw e refl)

module _ (now : Now) (t : Table) (a : Io) (full : IsFull t) (low : a.port < pio_port_num) where
  io_call-Fine : (m : Machine) (buf : List ℕ) → IsValid m.rtc → Fine (io_call now t a m buf)
  unfolding io_call
  io_call-Fine m buf v =
      let (f, e) = handler-some t a.port a.direction full low in
      let inside : ltb a.port pio_port_num ≡ true = ground arith in
      rw (inside, e) (call-Fine now f m a.port buf a.size v)

  io_loop-Fine :
      (n : ℕ) (m : Machine) (buf : List ℕ) → IsValid m.rtc → Fine (io_loop n now t a m buf)
  unfolding io_loop
  io_loop-Fine zero m buf v = v
  io_loop-Fine (suc n) m buf v =
      let (r, e, w) = Fine-some (io_call now t a m buf) (io_call-Fine m buf v) in
      rw (e, Fine)
        (elim (Bool-cases (is_nonzero r.ret)) [
          | inl stop ↦ rw stop w
          | inr on ↦ rw on (io_loop-Fine n r.machine r.buf w)
        ])

-- The exit is not an access to a port past the last place of the table.
abbrev pub InTable : Exit → Type 0
InTable (io a) = a.port < pio_port_num
InTable _ = Unit

run_once-Fine :
    (now : Now) (t : Table) (e : Exit) (m : Machine)
    → IsFull t
    → InTable e
    → IsValid m.rtc
    → Fine (run_once now t e m)
unfolding run_once
run_once-Fine now t (io a) m full low v = io_loop-Fine now t a full low a.count m a.buf v
run_once-Fine now t _ m full low v = v

-- With a full table and a valid CMOS, every exit but an access to port 0xFFFF is handled without a
-- fault and leaves a valid CMOS.
pub run_once-IsValid :
    (now : Now) (t : Table) (e : Exit) (m : Machine)
    → IsFull t
    → InTable e
    → IsValid m.rtc
    → (r : Called) × (run_once now t e m ≡ some r) × IsValid r.machine.rtc
run_once-IsValid now t e m full low v =
    Fine-some (run_once now t e m) (run_once-Fine now t e m full low v)

-- An access to port 0xFFFF, in either direction and of any size, reads outside the table, whatever
-- the
-- table holds.
pub run_once-last_port :
    (now : Now) (t : Table) (m : Machine) (d : Direction) (size n : ℕ) (buf : List ℕ)
    → run_once now t
        (io (record { port = 0xFFFF; direction = d; size = size; count = suc n; buf = buf }))
        m
      ≡ none
unfolding run_once io_loop io_call
run_once-last_port now t m d size n buf = refl

find_slot-full : (rs : List Range) (p : ℕ) → (i o : Handler) × (find_slot rs p ≡ slot i o)
find_slot-full [] p = (default_pio, default_pio, refl)
find_slot-full (r ∷ rs) p = elim (Bool-cases (leb r.lo p && ltb p r.hi)) [
  | inl e ↦ (r.on_in, r.on_out, rw e refl)
  | inr e ↦ let (i, o, q) = find_slot-full rs p in (i, o, rw e q)
]

-- A table that agrees with the port map is full.
pub port_map-IsFull :
    (t : Table) → ((p : ℕ) → p < pio_port_num → t p ≡ find_slot port_map p) → IsFull t
port_map-IsFull t h p low = let (i, o, e) = find_slot-full port_map p in (i, o, h p low ∙ e)
