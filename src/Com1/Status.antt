-- ===== src/Com1/Status.antt =====
-- What the guest reads in the status and control registers, and when an access fails.
use lvmm.Base.{
  ℕ, ◌+◌, ◌*◌, ◌/◌, ◌%◌, ◌<◌, ◌≡◌, refl, Bool, true, false, ◌&&◌, List, [], ◌∷◌, ◌++◌, none, arith,
  ◌==◌, if◌then◌else◌, pos, ==_iff, leb,
}
use lvmm.Base.Bits.{holds_below, holds_below-elim, bit_and-ones}
use lvmm.IoDev.{first}
use lvmm.Irq.{Sys, Host, HasErrno, flap_lines, flap_irq_line_lem}
use mathlib.Core.List.{append-nil}
use lvmm.Com1.Defs.{
  Com1, Written, is_dlab_set, in_loopback, or_if, read_rbr, com1_read, com1_write, write_thr,
  write_ier, iir_value, msr_value,
}

-- The byte that a one-byte read of `port` gives.
abbrev pub reads : Com1 → ℕ → ℕ
reads c port = first (com1_read c port (0 ∷ []) 1).buf

-- A one-byte write of `v` to `port`.
abbrev pub writes : Sys → Com1 → Host → ℕ → ℕ → Written
writes sys c h port v = com1_write sys c h port (v ∷ []) 1

-- With DLAB clear and positive error numbers, a write to IER flaps the interrupt line exactly when the
-- identification register then shows a pending interrupt (its bit 0 is clear): the record of the line
-- gains the levels of that flap whose calls succeed, 0 and then 1, and none where the first call
-- fails. Otherwise the record stays.
pub writes_ier-lines :
    (sys : Sys) (c : Com1) (h : Host) (v : ℕ)
    → is_dlab_set c ≡ false
    → HasErrno (sys.irq_errno 0)
    → HasErrno (sys.irq_errno 1)
    → let w = writes sys c h 0x3F9 v in
      w.host.lines ≡ h.lines ++ (if reads w.dev 0x3FA % 2 == 0 then flap_lines sys 4 else [])
unfolding com1_write write_ier com1_read iir_value
writes_ier-lines sys c h v d p q = ground (arith, append-nil h.lines, flap_irq_line_lem sys 4 h p q)

abbrev mirror : ℕ → ℕ
mirror mcr = or_if mcr 0b0000_1000 0b1000_0000 (
    or_if mcr 0b0000_0100 0b0100_0000
      (or_if mcr 0b0000_0010 0b0001_0000 (or_if mcr 0b0000_0001 0b0010_0000 0)))

-- DTR, RTS, OUT1 and OUT2 at the places of DSR, CTS, RI and DCD.
abbrev pub crossed : ℕ → ℕ
crossed mcr = mcr % 2 * 32 + mcr / 2 % 2 * 16 + mcr / 4 % 2 * 64 + mcr / 8 % 2 * 128

mirror_table : holds_below 256 (λ m. mirror m == crossed m) ≡ true
unfolding holds_below
mirror_table = refl

mirror_lem : (m : ℕ) → m < 256 → mirror m ≡ crossed m
mirror_lem m h = (==_iff _ _).0 (holds_below-elim 256 (λ m. mirror m == crossed m) m mirror_table h)

-- In loopback the modem status mirrors the modem control register, DTR as DSR, RTS as CTS, OUT1 as
-- RI and OUT2 as DCD; outside it CTS, DSR and DCD are always set and RI is clear.
pub reads_msr :
    (c : Com1)
    → c.mcr < 256
    → reads c 0x3FE ≡ (if in_loopback c then crossed c.mcr else 16 + 32 + 128)
unfolding com1_read msr_value
reads_msr c h = ground (arith, mirror_lem c.mcr h)

-- What a read of `port` gives after a byte `v` was written to it: the control and scratch registers
-- keep the byte, IER its low half, the divisor stays at 9600 baud.
pub reads-writes :
    (sys : Sys) (c : Com1) (h : Host) (v : ℕ)
    → v < 256
    → (reads (writes sys c h 0x3FB v).dev 0x3FB ≡ v)
      × (reads (writes sys c h 0x3FC v).dev 0x3FC ≡ v)
      × (reads (writes sys c h 0x3FF v).dev 0x3FF ≡ v)
      × (is_dlab_set c ≡ false → reads (writes sys c h 0x3F9 v).dev 0x3F9 ≡ v % 16)
      × (is_dlab_set c ≡ true
          → (reads (writes sys c h 0x3F8 v).dev 0x3F8 ≡ 12)
            × (reads (writes sys c h 0x3F9 v).dev 0x3F9 ≡ 0))
unfolding com1_write com1_read write_ier is_dlab_set
reads-writes sys c h v b = (
  ground arith,
  ground arith,
  ground arith,
  λ d. ground (arith, bit_and-ones 4 v),
  λ d. (ground arith, ground arith),
)

abbrev pub in_range : ℕ → Bool
in_range port = leb 0x3F8 port && leb port 0x3FF

-- A read fails only outside the device's eight ports, and then changes nothing.
pub com1_read_ret :
    (c : Com1) (port : ℕ) (buf : List ℕ) (size : ℕ)
    → ((com1_read c port buf size).ret ≡ (if in_range port then pos 0 else pos 1))
      × (in_range port ≡ false
          → com1_read c port buf size ≡ record { dev = c; buf = buf; ret = pos 1 })
unfolding com1_read read_rbr
com1_read_ret c port buf size = (ground arith, λ h. ground arith)

-- A write returns 0 inside the eight ports when the host's calls succeed; outside them it returns 1
-- and changes nothing.
pub com1_write_ret :
    (sys : Sys) (c : Com1) (h : Host) (port : ℕ) (buf : List ℕ) (size : ℕ)
    → sys.write_errno ≡ none
    → sys.irq_errno 0 ≡ none
    → sys.irq_errno 1 ≡ none
    → ((com1_write sys c h port buf size).ret ≡ (if in_range port then pos 0 else pos 1))
      × (in_range port ≡ false
          → com1_write sys c h port buf size ≡ record { dev = c; host = h; ret = pos 1 })
unfolding com1_write write_thr write_ier
com1_write_ret sys c h port buf size p q r = (ground arith, λ k. ground arith)
