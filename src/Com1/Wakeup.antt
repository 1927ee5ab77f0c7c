-- ===== src/Com1/Wakeup.antt =====
-- No interleaving of the two threads loses a receive interrupt.
use lvmm.Base.{
  ℕ, ◌≡◌, refl, true, false, List, [], ◌∷◌, ◌++◌, arith, ltb, length, length-append, ap, ℤ, pos,
  ◌⊎◌,
}
use lvmm.Irq.{Sys, Host, flap_irq_line_lem}
use lvmm.Com1.Constants.{com1_irq}
use lvmm.Com1.Defs.{
  Com1, is_empty, is_dlab_set, rx_enabled, in_loopback, com1_read, com1_write, read_rbr, write_thr,
  new_com1,
}
use lvmm.Com1.Threads.{
  at_loop, pushed, raising, ended, idle, ier_set, sampled, System, armed, Works, is_plain, flapped,
  Step, byte_arrives, reader_fails, reader_ends, reader_tests, reader_flaps, shut_down, guest_reads,
  guest_writes, guest_sets, guest_samples, guest_decides, Reach, here, next,
}

-- If a byte waits with its interrupt enabled, then the line has moved since, or a thread has yet to
-- look: the reader between its push and its flap, the guest between its write to IER and the end of
-- it, unless it has sampled an empty buffer.
abbrev pub Watched : System → Type 0
Watched s =
    armed s.uart ≡ true
    → (s.told ≡ true)
      ⊎ (s.reader ≡ pushed)
      ⊎ (s.reader ≡ raising)
      ⊎ (s.guest ≡ ier_set)
      ⊎ (s.guest ≡ sampled true)

flapped-longer :
    (sys : Sys) (h : Host) → Works sys → ltb (length h.lines) (length (flapped sys h).lines) ≡ true
flapped-longer sys h (low, high) = ground (
  arith,
  ap (λ (r : Host × ℤ). r.0.lines) (flap_irq_line_lem sys com1_irq h (rw low tt) (rw high tt)),
  length-append h.lines ((com1_irq, 0) ∷ (com1_irq, 1) ∷ []),
)

is_empty-append : (bs : List ℕ) (b : ℕ) → is_empty (bs ++ b ∷ []) ≡ false
is_empty-append [] b = refl
is_empty-append (a ∷ bs) b = refl

-- Reading never makes a byte wait, and a plain write changes neither IER nor the buffer.
com1_read-armed :
    (c : Com1) (port : ℕ) → armed (com1_read c port (0 ∷ []) 1).dev ≡ true → armed c ≡ true
unfolding com1_read read_rbr
com1_read-armed c port h = ground arith

com1_write-armed :
    (sys : Sys) (c : Com1) (h : Host) (port v : ℕ)
    → is_plain c port ≡ true
    → armed (com1_write sys c h port (v ∷ []) 1).dev ≡ armed c
unfolding com1_write write_thr
com1_write-armed sys c h port v p = ground arith

Step-Watched : {s t : System} → Step s t → Watched s → Watched t
Step-Watched {s} {t} (byte_arrives b r d e) w = rw e (ground arith)
Step-Watched {s} {t} (reader_fails r e) w = rw e (ground arith)
Step-Watched {s} {t} (reader_ends r e) w = rw e (ground arith)
Step-Watched {s} {t} (reader_tests r e) w = rw e (ground arith)
Step-Watched {s} {t} (reader_flaps sys ok r e) w =
    rw e (ground (arith, flapped-longer sys s.host ok))
Step-Watched {s} {t} (shut_down g e) w = rw e (ground arith)
Step-Watched {s} {t} (guest_reads port g e) w = rw e (ground (arith, com1_read-armed s.uart port))
Step-Watched {s} {t} (guest_writes sys port v g p e) w =
    rw e (ground (arith, com1_write-armed sys s.uart s.host port v p))
Step-Watched {s} {t} (guest_sets v g d e) w = rw e (ground arith)
Step-Watched {s} {t} (guest_samples g e) w = rw e (ground arith)
Step-Watched {s} {t} (guest_decides sys pending ok g e) w =
    rw e (ground (arith, flapped-longer sys s.host ok))

-- The system as it starts, with the host in any state.
abbrev pub start : Host → System
start h = record { uart = new_com1; host = h; reader = at_loop; guest = idle; told = false }

start-Watched : (h : Host) → Watched (start h)
unfolding new_com1
start-Watched h = ground arith

Reach-Watched : {s t : System} → Watched s → Reach s t → Watched t
Reach-Watched w here = w
Reach-Watched w (next r st) = Step-Watched st (Reach-Watched w r)

-- In every interleaving in which `KVM_IRQ_LINE` succeeds and the guest sends no byte in loopback:
-- when the reader stands at the head of its loop or has left it, the guest is in no access, a byte
-- waits and its interrupt is enabled, then the interrupt line has moved since both became so.
pub told_at_rest :
    (h : Host) (s : System)
    → Reach (start h) s
    → (s.reader ≡ at_loop) ⊎ (s.reader ≡ ended)
    → s.guest ≡ idle
    → armed s.uart ≡ true
    → s.told ≡ true
told_at_rest h s r rest g a = ground (arith, Reach-Watched (start-Watched h) r a)

-- In loopback, with DLAB clear, a sent byte waits in the buffer and the interrupt line stays as it
-- is, also when the receive interrupt is enabled.
pub loopback_silent :
    (sys : Sys) (c : Com1) (h : Host) (v : ℕ)
    → is_dlab_set c ≡ false
    → in_loopback c ≡ true
    → rx_enabled c ≡ true
    → let w = com1_write sys c h 0x3F8 (v ∷ []) 1 in
      (armed w.dev ≡ true) × (w.host ≡ h) × (w.ret ≡ pos 0)
unfolding com1_write write_thr
loopback_silent sys c h v d l r = ground (arith, is_empty-append c.rx_buf v)
