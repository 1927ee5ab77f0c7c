-- ===== src/Com1/Examples.antt =====
-- Runs of the serial port, and its theorems at concrete inputs.
use lvmm.Base.{
  ℕ, Bool, not, ◌||◌, ◌&&◌, ◌%◌, ◌≡◌, refl, true, false, List, [], ◌∷◌, ◌++◌, none, if◌then◌else◌,
  ◌==◌, inl,
}
use lvmm.Irq.{Sys, Host, flap_lines, flap_irq_line}
use lvmm.Com1.Defs.{
  is_empty, rx_enabled, tx_enabled, new_com1, is_dlab_set, com1_read, com1_write, read_rbr,
  write_thr, write_ier,
}
use lvmm.Com1.Loop.{
  Event, typed, guest_in, guest_out, Port, serve, run, along, taken, arrived, reader_round,
}
use lvmm.Com1.Status.{reads, writes, writes_ier-lines}
use lvmm.Com1.Threads.{
  System, at_loop, idle, pushed, raising, ier_set, sampled, set_ier, goes, Reach, here, next,
  guest_sets, guest_samples, guest_decides, byte_arrives, reader_tests, reader_flaps, flapped,
}
use lvmm.Com1.Wakeup.{start, told_at_rest}
use lvmm.Com1.Queue.{run-rx_buf}
use lvmm.Com1.Terminal.{Termios, TerminalCalls, raw_of, construct_com1, untouched}

abbrev fine : Sys
fine = record { write_errno = none; irq_errno = λ level. none }

abbrev quiet : Host
quiet = record { stdout = []; lines = [] }

-- The guest prints "OK", enables receive interrupts, gets two typed bytes and reads one of them.
abbrev talk : List Event
talk =
    guest_out fine 0x3F8 b'O'
    ∷ guest_out fine 0x3F8 b'K'
    ∷ guest_out fine 0x3F9 1
    ∷ typed fine b'l'
    ∷ typed fine b's'
    ∷ guest_in 0x3F8
    ∷ []

abbrev fresh : Port
fresh = record { dev = new_com1; host = quiet }

talk_prints :
    let p = run talk fresh in
    (p.host.stdout ≡ b'O' ∷ b'K' ∷ [])
    × (p.dev.rx_buf ≡ b's' ∷ [])
    × (p.host.lines ≡ (4, 0) ∷ (4, 1) ∷ (4, 0) ∷ (4, 1) ∷ [])
unfolding run serve reader_round com1_read com1_write write_thr write_ier read_rbr new_com1
    is_dlab_set flap_irq_line
talk_prints = (refl, refl, refl)

run-rx_buf_example :
    along taken talk fresh ++ (run talk fresh).dev.rx_buf
    ≡ fresh.dev.rx_buf ++ along arrived talk fresh
run-rx_buf_example = run-rx_buf talk fresh

fresh_dlab : is_dlab_set new_com1 ≡ false
unfolding is_dlab_set new_com1
fresh_dlab = refl

writes_ier-lines_example :
    let w = writes fine new_com1 quiet 0x3F9 2 in
    w.host.lines ≡ (if reads w.dev 0x3FA % 2 == 0 then flap_lines fine 4 else [])
writes_ier-lines_example = writes_ier-lines fine new_com1 quiet 2 fresh_dlab tt tt

-- The three steps of a write to IER, and the first two of a round of the reader.
abbrev after_set : System → ℕ → System
after_set s v = goes s (set_ier s.uart v) s.host s.reader ier_set

abbrev after_sample : System → System
after_sample s = goes s s.uart s.host s.reader (sampled (not (is_empty s.uart.rx_buf)))

abbrev after_decide : Sys → System → Bool → System
after_decide sys s pending =
    goes s s.uart
      (if tx_enabled s.uart || (rx_enabled s.uart && pending) then flapped sys s.host else s.host)
      s.reader idle

abbrev after_push : System → ℕ → System
after_push s b = goes s (record s.uart { rx_buf = s.uart.rx_buf ++ b ∷ [] }) s.host pushed s.guest

abbrev after_test : System → System
after_test s = goes s s.uart s.host (if rx_enabled s.uart then raising else at_loop) s.guest

-- The guest enables receive interrupts, and a byte arrives.
abbrev enabled : System
enabled = after_decide fine (after_sample (after_set (start quiet) 1)) false

abbrev delivered : System
delivered =
    goes (after_test (after_push enabled 7)) (after_test (after_push enabled 7)).uart
      (flapped fine (after_test (after_push enabled 7)).host) at_loop idle

delivered-Reach : Reach (start quiet) delivered
unfolding new_com1 is_dlab_set
delivered-Reach =
    next
      (next
        (next
          (next (next (next here (guest_sets 1 refl refl refl)) (guest_samples refl refl))
            (guest_decides fine false (refl, refl) refl refl))
          (byte_arrives 7 refl refl refl))
        (reader_tests refl refl))
      (reader_flaps fine (refl, refl) refl refl)

told_at_rest_example : delivered.told ≡ true
unfolding new_com1
told_at_rest_example = told_at_rest quiet delivered delivered-Reach (inl refl) refl refl

-- The settings of a shell's terminal.
abbrev cooked : Termios
cooked = record { c_oflag = 5; vmin = 1; vtime = 0; others = 0x8a3b ∷ 0x500 ∷ [] }

abbrev clear_all : Termios → Termios
clear_all v = record v { c_oflag = 0; others = 0 ∷ 0 ∷ [] }

abbrev tty : TerminalCalls
tty = record { isatty = true; gets = true; sets = true }

raw_run : (construct_com1 clear_all tty (untouched cooked)).settings ≡ raw_of clear_all cooked
unfolding construct_com1
raw_run = refl
