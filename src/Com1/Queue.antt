-- ===== src/Com1/Queue.antt =====
-- The serial port passes bytes on in order, in both directions.
use mathlib.Core.List.{append-nil, append_assoc}
use lvmm.Base.{ℕ, ◌≡◌, not, List, [], ◌∷◌, ◌++◌, none, some, arith, if◌then◌else◌, ap, ◌∙◌, sym}
use lvmm.Irq.{Sys, Host, flap_irq_line}
use lvmm.Com1.Constants.{com1_irq}
use lvmm.Com1.Defs.{
  Com1, is_empty, in_loopback, read_rbr, com1_read, com1_write, write_thr, write_ier, lsr_value,
}
use lvmm.Com1.Loop.{
  Event, typed, guest_in, guest_out, Port, serve, run, taken, arrived, sent, along, reader_round,
  data_ready,
}

-- An interrupt writes nothing to standard output.
flap-stdout : (sys : Sys) (irq : ℕ) (h : Host) → (flap_irq_line sys irq h).0.stdout ≡ h.stdout
unfolding flap_irq_line
flap-stdout sys irq h = ground arith

pub data_ready_lem : (c : Com1) → data_ready c ≡ not (is_empty c.rx_buf)
unfolding data_ready com1_read lsr_value
data_ready_lem c = ground arith

module _ (sys : Sys) (c : Com1) (h : Host) (v : ℕ) where
  write_thr-rx_buf :
      (write_thr sys c h v).dev.rx_buf ≡ c.rx_buf ++ (if in_loopback c then v ∷ [] else [])
  unfolding write_thr
  write_thr-rx_buf = ground (arith, append-nil c.rx_buf)

  write_thr-stdout :
      (write_thr sys c h v).host.stdout
      ≡ h.stdout
        ++ (if not (in_loopback c)
            then elim sys.write_errno [ none ↦ v ∷ [] | some e ↦ [] ]
            else [])
  unfolding write_thr
  write_thr-stdout = ground (
    arith,
    append-nil h.stdout,
    flap-stdout sys com1_irq (record h { stdout = h.stdout ++ v ∷ [] }),
  )

  write_ier-rx_buf : (write_ier sys c h v).dev.rx_buf ≡ c.rx_buf
  unfolding write_ier
  write_ier-rx_buf = ground arith

  write_ier-stdout : (write_ier sys c h v).host.stdout ≡ h.stdout
  unfolding write_ier
  write_ier-stdout = ground (arith, flap-stdout sys com1_irq h)

-- One event: what is taken leaves the front of the buffer, and what arrives joins its end.
serve-rx_buf :
    (e : Event) (p : Port) → taken e p ++ (serve e p).dev.rx_buf ≡ p.dev.rx_buf ++ arrived e p
unfolding serve taken arrived reader_round com1_read read_rbr com1_write
serve-rx_buf (typed sys b) p = ground (arith, append-nil p.dev.rx_buf)
serve-rx_buf (guest_in port) p = ground (arith, append-nil p.dev.rx_buf, data_ready_lem p.dev)
serve-rx_buf (guest_out sys port v) p = ground (
  arith,
  append-nil p.dev.rx_buf,
  write_thr-rx_buf sys p.dev p.host v,
  write_ier-rx_buf sys p.dev p.host v,
)

serve-stdout : (e : Event) (p : Port) → (serve e p).host.stdout ≡ p.host.stdout ++ sent e p
unfolding serve sent reader_round com1_read com1_write
serve-stdout (typed sys b) p =
    ground (arith, append-nil p.host.stdout, flap-stdout sys com1_irq p.host)
serve-stdout (guest_in port) p = ground (arith, append-nil p.host.stdout)
serve-stdout (guest_out sys port v) p = ground (
  arith,
  append-nil p.host.stdout,
  write_thr-stdout sys p.dev p.host v,
  write_ier-stdout sys p.dev p.host v,
)

-- Over any sequence of events the bytes that the guest takes, followed by those that still wait,
-- are
-- the bytes that waited at first followed by those that arrived, in order: none is lost, repeated
-- or
-- overtaken.
pub run-rx_buf :
    (es : List Event) (p : Port)
    → along taken es p ++ (run es p).dev.rx_buf ≡ p.dev.rx_buf ++ along arrived es p
unfolding run
run-rx_buf [] p = sym (append-nil p.dev.rx_buf)
run-rx_buf (e ∷ es) p =
    append_assoc (taken e p) (along taken es (serve e p)) (run es (serve e p)).dev.rx_buf
    ∙ ap (λ l. taken e p ++ l) (run-rx_buf es (serve e p))
    ∙ sym (append_assoc (taken e p) (serve e p).dev.rx_buf (along arrived es (serve e p)))
    ∙ ap (λ l. l ++ along arrived es (serve e p)) (serve-rx_buf e p)
    ∙ append_assoc p.dev.rx_buf (arrived e p) (along arrived es (serve e p))

-- Over any sequence of events standard output gains the bytes that the guest sends, in order, and
-- nothing else.
pub run-stdout :
    (es : List Event) (p : Port) → (run es p).host.stdout ≡ p.host.stdout ++ along sent es p
unfolding run
run-stdout [] p = sym (append-nil p.host.stdout)
run-stdout (e ∷ es) p =
    run-stdout es (serve e p)
    ∙ ap (λ l. l ++ along sent es (serve e p)) (serve-stdout e p)
    ∙ append_assoc p.host.stdout (sent e p) (along sent es (serve e p))
