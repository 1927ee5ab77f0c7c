-- ===== src/Com1/Loop.antt =====
-- The reader thread and the guest's accesses as events, each of which runs as a whole, and the
-- bytes that they carry.
use lvmm.Base.{
  ℕ, Bool, true, false, ◌&&◌, not, List, [], ◌∷◌, ◌++◌, none, some, ◌==◌, if◌then◌else◌, bit_and,
  truthy,
}
use lvmm.IoDev.{first}
use lvmm.Irq.{Sys, Host, flap_irq_line}
use lvmm.Com1.Constants.{com1_irq}
use lvmm.Com1.Defs.{Com1, is_dlab_set, rx_enabled, in_loopback, com1_read, com1_write}

-- What `read` of standard input returns: a byte, the end of the file, or an error.
pub data Input : Type 0 where
  byte : ℕ → Input
  eof failed : Input

-- A round of `readerLoop`; `false` when the loop is left.
pub record Round : Type 0 where
  pub dev : Com1
  pub host : Host
  pub running : Bool

unfoldable pub reader_round : Sys → Input → Com1 → Host → Round
reader_round sys input c h =
    if c.shutting_down then record { dev = c; host = h; running = false } else elim input [
      | byte b ↦
          let c' = record c { rx_buf = c.rx_buf ++ b ∷ [] } in
          record {
            dev = c';
            host = if rx_enabled c' then (flap_irq_line sys com1_irq h).0 else h;
            running = true;
          }
      | eof ↦ record { dev = c; host = h; running = false }
      | failed ↦ record { dev = c; host = h; running = true }
    ]

pub data Event : Type 0 where
  typed : Sys → ℕ → Event
  guest_in : ℕ → Event
  guest_out : Sys → ℕ → ℕ → Event

pub record Port : Type 0 where
  pub dev : Com1
  pub host : Host

-- One event; the guest's accesses are one byte wide.
unfoldable pub serve : Event → Port → Port
serve (typed sys b) p =
    let r = reader_round sys (byte b) p.dev p.host in record { dev = r.dev; host = r.host }
serve (guest_in port) p = record p { dev = (com1_read p.dev port (0 ∷ []) 1).dev }
serve (guest_out sys port v) p =
    let w = com1_write sys p.dev p.host port (v ∷ []) 1 in record { dev = w.dev; host = w.host }

unfoldable pub run : List Event → Port → Port
run [] p = p
run (e ∷ es) p = run es (serve e p)

-- The data ready bit of the line status register, as the guest reads it.
unfoldable pub data_ready : Com1 → Bool
data_ready c = truthy (bit_and (first (com1_read c 0x3FD (0 ∷ []) 1).buf) 1)

-- The byte that a guest takes which reads the data port while data ready is set.
unfoldable pub taken : Event → Port → List ℕ
taken (typed sys b) p = []
taken (guest_in port) p =
    if port == 0x3F8 && not (is_dlab_set p.dev) && data_ready p.dev
    then first (com1_read p.dev port (0 ∷ []) 1).buf ∷ []
    else []
taken (guest_out sys port v) p = []

-- The byte that comes in: typed on the host, or looped back.
unfoldable pub arrived : Event → Port → List ℕ
arrived (typed sys b) p = if p.dev.shutting_down then [] else b ∷ []
arrived (guest_in port) p = []
arrived (guest_out sys port v) p =
    if port == 0x3F8 && not (is_dlab_set p.dev) && in_loopback p.dev then v ∷ [] else []

-- The byte that goes out: sent by the guest outside loopback, and accepted by the host.
unfoldable pub sent : Event → Port → List ℕ
sent (typed sys b) p = []
sent (guest_in port) p = []
sent (guest_out sys port v) p =
    if port == 0x3F8 && not (is_dlab_set p.dev) && not (in_loopback p.dev)
    then elim sys.write_errno [ none ↦ v ∷ [] | some e ↦ [] ]
    else []

-- Along a sequence of events.
abbrev pub along : (Event → Port → List ℕ) → List Event → Port → List ℕ
along f [] p = []
along f (e ∷ es) p = f e p ++ along f es (serve e p)
