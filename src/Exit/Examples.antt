-- ===== src/Exit/Examples.antt =====
-- The handler table and the exits, at concrete inputs.
use lvmm.Base.{ℕ, ◌≡◌, ◌<◌, refl, List, [], ◌∷◌, none, some, arith}
use lvmm.Cmos.{Tm, new_cmos, IsValid}
use lvmm.Com1.{new_com1, is_dlab_set, com1_write, write_thr}
use lvmm.Pio.{
  Table, slot, do_nothing_pio, pio_port_num, find_slot, port_map, fill, register_pio_handler,
  register_pio_handler_lem, machine_devices, init_pio_handler, init_pio_handler-port_map,
}
use lvmm.Exit.Defs.{
  Machine, Now, Called, io_out, handler, io, unknown, run_once, io_loop, io_call, call,
}
use lvmm.Exit.Safety.{IsFull, port_map-IsFull}
use lvmm.Exit.Strings.{com1_out, sent}
use lvmm.Exit.Answer.{one_byte, answer_of, run_once-answer}
use lvmm.Ioctl.{errno, result}
use lvmm.Exit.Enter.{eintr, eagain, Entry, run_vcpu, run_entries, run_entries-Healthy}
use lvmm.Exit.Stale.{run_entries-repeats}
use lvmm.Exit.Loop.{running, Dumps, Healthy, Exits, run_loop}
use lvmm.Exit.Console.{console, console_of}
use lvmm.Exit.Refines.{run_loop-console}

abbrev unset : Table
unset p = record { on_in = none; on_out = none }

abbrev pub ready : Table
ready = find_slot port_map

pub ready-IsFull : IsFull ready
ready-IsFull = port_map-IsFull ready (λ p low. refl)

abbrev pub noon : Tm
noon = record {
  tm_sec = 0;
  tm_min = 0;
  tm_hour = 12;
  tm_mday = 1;
  tm_mon = 0;
  tm_year = 123;
  tm_wday = 0;
}

abbrev pub now : Now
now = record { time = noon; sys = record { write_errno = none; irq_errno = λ level. none } }

abbrev pub machine : Machine
machine = record { rtc = new_cmos 0; uart = new_com1; host = record { stdout = []; lines = [] } }

pub rtc-IsValid : IsValid machine.rtc
unfolding new_cmos
rtc-IsValid = omega arith

register_pio_handler_lem_example :
    register_pio_handler 0x60 0x70 do_nothing_pio do_nothing_pio unset
    ≡ some (fill 0x60 0x70 (slot do_nothing_pio do_nothing_pio) unset)
register_pio_handler_lem_example =
    register_pio_handler_lem 0x60 0x70 do_nothing_pio do_nothing_pio unset (omega arith)
      (omega arith)

init_pio_handler-port_map_example :
    (t : Table) × (init_pio_handler machine_devices unset ≡ some t)
    × ((p : ℕ) → p < pio_port_num → t p ≡ find_slot port_map p)
init_pio_handler-port_map_example = init_pio_handler-port_map unset

-- The port 0xED of the delay loop lies in the range of the POST device.
delay_slot :
    (find_slot port_map 0xED ≡ find_slot port_map 0x80)
    × (find_slot port_map 0x92 ≡ find_slot port_map 0x80)
delay_slot = (refl, refl)

run_once-answer_example :
    (r : Called) × (run_once now ready (io (one_byte 0x3F9 io_out 3 [])) machine ≡ some r)
    × (r.ret ≡ answer_of (handler (find_slot port_map 0x3F9) io_out))
run_once-answer_example =
    run_once-answer now ready machine io_out 0x3F9 3 [] (refl, refl) refl rtc-IsValid (omega arith)
      refl

abbrev pub dumps : Dumps
dumps = record { regs_errno = none; sregs_errno = some 9 }

-- A call that is interrupted, on a fresh run page, one that writes an output, and two that fail.
abbrev failing : ℕ → Entry
failing e = record { answer = errno e; written = none; now = now }

abbrev entries : List Entry
entries =
    failing eintr
    ∷ record { answer = result 0; written = some (io (com1_out 1 (b'a' ∷ []))); now = now }
    ∷ failing eagain
    ∷ failing 14
    ∷ []

run_entries-Healthy_example : Healthy (run_entries dumps ready entries unknown machine)
run_entries-Healthy_example =
    run_entries-Healthy dumps ready entries unknown machine tt (omega arith) ready-IsFull tt
      (tt, (omega arith, (tt, (tt, tt)))) rtc-IsValid

entries_run : run_entries dumps ready entries unknown machine ≡ running (sent machine 3 b'a')
unfolding run_entries run_vcpu run_once io_loop io_call call com1_write new_com1 is_dlab_set
    write_thr
entries_run = refl

run_entries-repeats_example :
    run_entries dumps ready (failing 14 ∷ failing 14 ∷ []) (io (com1_out 1 (b'a' ∷ []))) machine
    ≡ running (sent machine 2 b'a')
unfolding new_com1 is_dlab_set
run_entries-repeats_example =
    run_entries-repeats dumps ready (failing 14 ∷ failing 14 ∷ []) b'a' [] machine
      ((14, refl, refl), ((14, refl, refl), tt)) (refl, (refl, tt)) refl (refl, refl, refl)

-- The divisor is set, the byte `a` is sent twice in one exit, and `b` in loopback.
abbrev console_exits : Exits
console_exits =
    (now, io (one_byte 0x3FB io_out 0x83 []))
    ∷ (now, io (one_byte 0x3F8 io_out 0x0C []))
    ∷ (now, io (one_byte 0x3FB io_out 0x03 []))
    ∷ (now, io (com1_out 2 (b'a' ∷ b'b' ∷ [])))
    ∷ (now, io (one_byte 0x3FC io_out 0x10 []))
    ∷ (now, io (one_byte 0x3F8 io_out b'b' []))
    ∷ []

abbrev console_machine : Machine
console_machine = record machine {
  uart = record new_com1 { dll = 0x0C; lcr = 3; mcr = 0x10; rx_buf = b'b' ∷ [] };
  host = record { stdout = b'a' ∷ b'a' ∷ []; lines = [] };
}

console_run : run_loop dumps ready console_exits machine ≡ running console_machine
unfolding run_loop run_once io_loop io_call call com1_write new_com1 is_dlab_set write_thr
console_run = refl

run_loop-console_example : console_of console_machine ≡ console console_exits (console_of machine)
run_loop-console_example =
    run_loop-console dumps ready console_exits machine console_machine (λ p low. refl)
      (tt, (tt, (tt, (tt, (tt, (tt, tt)))))) console_run
