-- ===== src/Exit/Console.antt =====
-- The console as the guest sees it through its port accesses: what the serial port of src/com1.cpp is
-- to print, over the exits that RunLoop of src/vcpu.cpp handles.
use lvmm.Base.{
  ℕ, zero, suc, ◌<◌, ◌≡◌, Bool, ◌||◌, List, [], ◌∷◌, ◌++◌, ◌==◌, if◌then◌else◌, truthy, bit_and,
}
use lvmm.IoDev.{first}
use lvmm.Com1.{is_dlab_set, in_loopback}
use lvmm.Pio.{Table, pio_port_num, find_slot, port_map}
use lvmm.Exit.Defs.{Machine, Direction, io_in, io_out, Exit, io}
use lvmm.Exit.Loop.{Exits}

-- `dlab`: the data port is that of the divisor; `loopback`: what is sent goes back to the guest.
pub record Console : Type 0 where
  pub dlab : Bool
  pub loopback : Bool
  pub shown : List ℕ

-- An access of one byte at a port.
unfoldable pub sends : Direction → ℕ → ℕ → Console → Console
sends io_in port v c = c
sends io_out port v c =
    if port == 0x3F8
    then (if c.dlab || c.loopback then c else record c { shown = c.shown ++ v ∷ [] })
    else if port == 0x3FB
    then record c { dlab = truthy (bit_and v 0b1000_0000) }
    else if port == 0x3FC
    then record c { loopback = truthy (bit_and v 0b0001_0000) }
    else c

abbrev pub times : ℕ → (Console → Console) → Console → Console
times zero f c = c
times (suc n) f c = times n f (f c)

-- An exit: an I/O access of `count` elements sends its first byte each time.
abbrev pub console_step : Exit → Console → Console
console_step (io a) c = times a.count (sends a.direction a.port (first a.buf)) c
console_step _ c = c

abbrev pub console : Exits → Console → Console
console [] c = c
console ((now, e) ∷ es) c = console es (console_step e c)

abbrev pub console_of : Machine → Console
console_of m = record {
  dlab = is_dlab_set m.uart;
  loopback = in_loopback m.uart;
  shown = m.host.stdout;
}

-- The table as initPIOHandler fills it.
abbrev pub IsMapped : Table → Type 0
IsMapped t = (p : ℕ) → p < pio_port_num → t p ≡ find_slot port_map p
