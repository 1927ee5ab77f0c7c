-- ===== src/Com1/Threads.antt =====
-- The reader thread and the guest's thread, interleaved at the points where they touch shared
-- state. The mutex makes each use of `rx_buf` one step; each use of IER is one step of its own, in
-- the order of the source (sequential consistency).
use lvmm.Base.{
  ℕ, ◌≡◌, Bool, true, false, ◌&&◌, ◌||◌, not, [], ◌∷◌, ◌++◌, none, ltb, ◌==◌, if◌then◌else◌, length,
  bit_and,
}
use lvmm.Irq.{Sys, Host, flap_irq_line}
use lvmm.Com1.Constants.{com1_irq}
use lvmm.Com1.Defs.{
  Com1, is_empty, is_dlab_set, rx_enabled, tx_enabled, in_loopback, com1_read, com1_write,
}

-- Where `readerLoop` stands: at its head, after the `push_back`, inside the `if (IER & …)`, left.
pub data Reader : Type 0 where
  at_loop pushed raising ended : Reader

-- Where a write to IER stands: not in one, after the assignment, after `rx_pending` was computed.
pub data Guest : Type 0 where
  idle ier_set : Guest
  sampled : Bool → Guest

-- `told`: the interrupt line has moved since a byte waits and IER.0 is set.
pub record System : Type 0 where
  pub uart : Com1
  pub host : Host
  pub reader : Reader
  pub guest : Guest
  pub told : Bool

-- A byte waits and its interrupt is enabled.
abbrev pub armed : Com1 → Bool
armed c = rx_enabled c && not (is_empty c.rx_buf)

-- The system after a step that leaves these.
abbrev pub goes : System → Com1 → Host → Reader → Guest → System
goes s c h reader guest = record {
  uart = c;
  host = h;
  reader = reader;
  guest = guest;
  told = armed c && (s.told || ltb (length s.host.lines) (length h.lines));
}

-- Both calls of `KVM_IRQ_LINE` succeed.
abbrev pub Works : Sys → Type 0
Works sys = (sys.irq_errno 0 ≡ none) × (sys.irq_errno 1 ≡ none)

-- The writes that are one step: not IER, which is taken apart, and no byte sent in loopback.
abbrev pub is_plain : Com1 → ℕ → Bool
is_plain c port = is_dlab_set c || not (port == 0x3F9 || (port == 0x3F8 && in_loopback c))

abbrev pub set_ier : Com1 → ℕ → Com1
set_ier c v = record c { ier = bit_and v 0b0000_1111 }

abbrev pub flapped : Sys → Host → Host
flapped sys h = (flap_irq_line sys com1_irq h).0

pub data Step (s t : System) : Type 0 where
  byte_arrives :
      (b : ℕ)
      → s.reader ≡ at_loop
      → s.uart.shutting_down ≡ false
      → t ≡ goes s (record s.uart { rx_buf = s.uart.rx_buf ++ b ∷ [] }) s.host pushed s.guest
      → Step s t
  reader_fails : s.reader ≡ at_loop → t ≡ goes s s.uart s.host at_loop s.guest → Step s t
  reader_ends : s.reader ≡ at_loop → t ≡ goes s s.uart s.host ended s.guest → Step s t
  reader_tests :
      s.reader ≡ pushed
      → t ≡ goes s s.uart s.host (if rx_enabled s.uart then raising else at_loop) s.guest
      → Step s t
  reader_flaps :
      (sys : Sys)
      → Works sys
      → s.reader ≡ raising
      → t ≡ goes s s.uart (flapped sys s.host) at_loop s.guest
      → Step s t
  shut_down :
      s.guest ≡ idle
      → t ≡ goes s (record s.uart { shutting_down = true }) s.host s.reader idle
      → Step s t
  guest_reads :
      (port : ℕ)
      → s.guest ≡ idle
      → t ≡ goes s (com1_read s.uart port (0 ∷ []) 1).dev s.host s.reader idle
      → Step s t
  guest_writes :
      (sys : Sys) (port v : ℕ)
      → s.guest ≡ idle
      → is_plain s.uart port ≡ true
      → t
        ≡ goes s
            (com1_write sys s.uart s.host port (v ∷ []) 1).dev
            (com1_write sys s.uart s.host port (v ∷ []) 1).host
            s.reader
            idle
      → Step s t
  guest_sets :
      (v : ℕ)
      → s.guest ≡ idle
      → is_dlab_set s.uart ≡ false
      → t ≡ goes s (set_ier s.uart v) s.host s.reader ier_set
      → Step s t
  guest_samples :
      s.guest ≡ ier_set
      → t ≡ goes s s.uart s.host s.reader (sampled (not (is_empty s.uart.rx_buf)))
      → Step s t
  guest_decides :
      (sys : Sys) (pending : Bool)
      → Works sys
      → s.guest ≡ sampled pending
      → t
        ≡ goes s s.uart
            (if tx_enabled s.uart || (rx_enabled s.uart && pending)
              then flapped sys s.host
              else s.host)
            s.reader
            idle
      → Step s t

pub data Reach (s : System) : System → Type 0 where
  here : Reach s s
  next : {t u : System} → Reach s t → Step t u → Reach s u
