-- ===== src/Exit/Refines.antt =====
-- The loop of `RunLoop` as an implementation of the console.
use lvmm.Base.{
  ℕ, zero, suc, ◌≡◌, false, List, [], ◌∷◌, some, is_nonzero, arith, ltb, Bool-cases, Option-cases,
  inl, inr, ◌∙◌, ap, sym, fun_ext,
}
use lvmm.IoDev.{first}
use lvmm.Irq.{HasErrno}
use lvmm.Pio.{Table, pio_port_num}
use lvmm.Exit.Defs.{Machine, Now, Called, call, handler, Io, io_call, io_loop, Exit, io, run_once}
use lvmm.Exit.Loop.{Dumps, running, Exits, run_loop}
use lvmm.Exit.Console.{sends, times, console_step, console, console_of, IsMapped}
use lvmm.Exit.Accesses.{listens, listens-find_slot, Sends, quiet-Sends, loud-Sends}

module _ (now : Now) (t : Table) (a : Io) (mapped : IsMapped t)
    (errs : HasErrno now.sys.write_errno) where
  io_call-Sends :
      (m : Machine) (buf : List ℕ) {r : Called}
      → io_call now t a m buf ≡ some r
      → is_nonzero r.ret ≡ false
      → Sends a.direction a.port m buf r
  unfolding io_call
  io_call-Sends m buf {r} e on = elim (Bool-cases (ltb a.port pio_port_num)) [
    | inr out ↦ cc (rw (io_call, out) at e)
    | inl inside ↦ elim (Option-cases (handler (t a.port) a.direction)) [
      | inl n ↦ cc (rw (io_call, inside, n) at e)
      | inr (f, n) ↦
          let called : call now f m a.port buf a.size ≡ some r = rw (io_call, inside, n) at e in
          elim (Bool-cases (listens a.port)) [
            | inr quiet ↦ quiet-Sends now a.port a.size m buf errs a.direction f quiet called
            | inl loud ↦
                let place = mapped a.port (ground arith) ∙ listens-find_slot a.port loud in
                loud-Sends now a.port a.size m buf errs a.direction f
                  (ap (λ s. handler s a.direction) (sym place) ∙ n) called on
          ]
    ]
  ]

  io_loop-times :
      (n : ℕ) (m : Machine) (buf : List ℕ) {r : Called}
      → io_loop n now t a m buf ≡ some r
      → is_nonzero r.ret ≡ false
      → console_of r.machine ≡ times n (sends a.direction a.port (first buf)) (console_of m)
  unfolding io_loop
  io_loop-times zero m buf e on = ground (arith, e)
  io_loop-times (suc n) m buf {r} e on = elim (Option-cases (io_call now t a m buf)) [
    | inl none_called ↦ cc (rw (io_loop, none_called) at e)
    | inr (x, q) ↦ elim (Bool-cases (is_nonzero x.ret)) [
      | inl stop ↦ ground (arith, on, rw (q, io_loop) at e, stop)
      | inr goes_on ↦
          let after_it = rw (q, io_loop) at e in
          let (step, same) = io_call-Sends m buf q goes_on in
          let rest : io_loop n now t a x.machine x.buf ≡ some r = rw goes_on at after_it in
          io_loop-times n x.machine x.buf rest on
          ∙ ap (λ f. times n f (console_of x.machine)) (fun_ext same)
          ∙ ap (times n (sends a.direction a.port (first buf))) step
    ]
  ]

-- The host's answers give positive error numbers.
abbrev pub WritesHaveErrno : Exits → Type 0
WritesHaveErrno [] = Unit
WritesHaveErrno ((now, e) ∷ es) = HasErrno now.sys.write_errno × WritesHaveErrno es

run_once-console_step :
    (now : Now) (t : Table) (e : Exit) (m : Machine) {r : Called}
    → IsMapped t
    → HasErrno now.sys.write_errno
    → run_once now t e m ≡ some r
    → is_nonzero r.ret ≡ false
    → console_of r.machine ≡ console_step e (console_of m)
unfolding run_once
run_once-console_step now t (io a) m mapped errs e on =
    io_loop-times now t a mapped errs a.count m a.buf e on
run_once-console_step now t _ m mapped errs e on = ground (arith, e)

-- Over the table that initPIOHandler fills, and with positive error numbers where a write to standard
-- output fails: as long as the loop goes on, what stands on standard output, and whether the guest has
-- DLAB and loopback set, are what the console has after the same exits.
pub run_loop-console :
    (d : Dumps) (t : Table) (es : Exits) (m m' : Machine)
    → IsMapped t
    → WritesHaveErrno es
    → run_loop d t es m ≡ running m'
    → console_of m' ≡ console es (console_of m)
unfolding run_loop
run_loop-console d t [] m m' mapped errs e = let same : m' ≡ m = cc e in ap console_of same
run_loop-console d t ((now, x) ∷ es) m m' mapped (err, errs) e =
    elim (Option-cases (run_once now t x m)) [
      | inl q ↦ cc (rw (q, run_loop) at e)
      | inr (r, q) ↦ elim (Bool-cases (is_nonzero r.ret)) [
        | inl stop ↦ cc (rw stop at (rw (q, run_loop) at e))
        | inr on ↦
            let rest : run_loop d t es r.machine ≡ running m' = rw on at (rw (q, run_loop) at e) in
            run_loop-console d t es r.machine m' mapped errs rest
            ∙ ap (console es) (run_once-console_step now t x m mapped err q on)
      ]
    ]
