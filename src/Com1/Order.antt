-- ===== src/Com1/Order.antt =====
-- The bytes of the serial port keep their order when several vCPUs read and write at once.
use mathlib.Core.Path.{subst}
use mathlib.Core.List.{append-nil, append_assoc}
use lvmm.Base.{
  ℕ, ◌≡◌, refl, ap, sym, ◌∙◌, List, [], ◌∷◌, ◌++◌, Option, ◌==◌, arith, Bool-cases, inl, inr,
}
use lvmm.Irq.{Sys, Host}
use lvmm.Com1.Defs.{Com1}
use lvmm.Com1.Vcpus.{
  PortOp, read_data, write_data, set_ier, assign, Point, rest, sending, looping, printing,
  enter_port, go_on, SharedPort, vcpu_enters, got, put_back, vcpu_goes_on, byte_comes, PortMove,
  begins, goes_on, reader_pushes, reader_flaps, PortReach, here, next,
}

-- A write that is under way carries the byte that the vCPU handed over.
abbrev Carries : Point → ℕ → Type 0
Carries (sending v) g = v ≡ g
Carries (looping v) g = v ≡ g
Carries (printing v) g = v ≡ g
Carries _ g = Unit

enter_port-rx_buf : (op : PortOp) (c : Com1) (h : Host) → (enter_port op c h).uart.rx_buf ≡ c.rx_buf
unfolding enter_port
enter_port-rx_buf read_data c h = refl
enter_port-rx_buf (write_data v) c h = refl
enter_port-rx_buf (set_ier v) c h = refl
enter_port-rx_buf (assign port v) c h = ground arith

vcpu_enters-Carries :
    (s : SharedPort) (i : ℕ) (op : PortOp) (j : ℕ)
    → Carries (s.points j) (s.given j)
    → Carries ((vcpu_enters s i op).points j) ((vcpu_enters s i op).given j)
unfolding enter_port
vcpu_enters-Carries s i read_data j h = ground (arith, h)
vcpu_enters-Carries s i (write_data v) j h = ground (arith, h)
vcpu_enters-Carries s i (set_ier v) j h = ground (arith, h)
vcpu_enters-Carries s i (assign port v) j h = ground (arith, h)

go_on-Carries :
    (sys : Sys) (c : Com1) (h : Host) (p : Point) (g : ℕ)
    → Carries p g
    → Carries (go_on sys c h p).point g
unfolding go_on
go_on-Carries sys c h p g e = ground arith

-- A move gives a vCPU the byte from the front of the buffer, or puts what it wrote to its end.
go_on-rx_buf :
    (sys : Sys) (c : Com1) (h : Host) (p : Point) (g : ℕ)
    → Carries p g
    → let m = go_on sys c h p in got c p m.point ++ m.uart.rx_buf ≡ c.rx_buf ++ put_back p g
unfolding go_on
go_on-rx_buf sys c h p g e = ground (arith, append-nil c.rx_buf)

-- What vCPUs have got, and what waits, are what waited at first and what has come since.
record InOrder (waited : List ℕ) (s : SharedPort) : Type 0 where
  conserved : s.taken ++ s.uart.rx_buf ≡ waited ++ s.arrived
  carried : (j : ℕ) → Carries (s.points j) (s.given j)

-- Two lists that grow at their ends, and the buffer between them.
exchange :
    (taken took rest_left waiting came waited arrived : List ℕ)
    → took ++ rest_left ≡ waiting ++ came
    → taken ++ waiting ≡ waited ++ arrived
    → (taken ++ took) ++ rest_left ≡ waited ++ (arrived ++ came)
exchange taken took rest_left waiting came waited arrived e h =
    append_assoc taken took rest_left
    ∙ ap (λ x. taken ++ x) e
    ∙ sym (append_assoc taken waiting came)
    ∙ ap (λ x. x ++ came) h
    ∙ append_assoc waited arrived came

vcpu_enters-InOrder :
    (l : List ℕ) (s : SharedPort) (i : ℕ) (op : PortOp)
    → InOrder l s
    → InOrder l (vcpu_enters s i op)
vcpu_enters-InOrder l s i op h = record {
  conserved = ap (λ x. s.taken ++ x) (enter_port-rx_buf op s.uart s.host) ∙ h.conserved;
  carried = λ j. vcpu_enters-Carries s i op j (h.carried j);
}

vcpu_goes_on-InOrder :
    (l : List ℕ) (sys : Sys) (s : SharedPort) (i : ℕ)
    → InOrder l s
    → InOrder l (vcpu_goes_on sys s i)
vcpu_goes_on-InOrder l sys s i h =
    let m = go_on sys s.uart s.host (s.points i) in
    record {
      conserved =
          exchange s.taken (got s.uart (s.points i) m.point) m.uart.rx_buf s.uart.rx_buf
            (put_back (s.points i) (s.given i)) l s.arrived
            (go_on-rx_buf sys s.uart s.host (s.points i) (s.given i) (h.carried i)) h.conserved;
      carried = λ j. elim (Bool-cases (j == i)) [
        | inl e ↦
            let same : j ≡ i = ground arith in
            rw e (
              subst (λ x. Carries m.point (s.given x)) (sym same)
                (go_on-Carries sys s.uart s.host (s.points i) (s.given i) (h.carried i)))
        | inr e ↦ rw e (h.carried j)
      ];
    }

byte_comes-InOrder :
    (l : List ℕ) (s : SharedPort) (b : ℕ) → InOrder l s → InOrder l (byte_comes s b)
byte_comes-InOrder l s b h = record {
  conserved =
      sym (append_assoc s.taken s.uart.rx_buf (b ∷ []))
      ∙ ap (λ x. x ++ b ∷ []) h.conserved
      ∙ append_assoc l s.arrived (b ∷ []);
  carried = h.carried;
}

move-InOrder : (l : List ℕ) {s t : SharedPort} → PortMove s t → InOrder l s → InOrder l t
move-InOrder l {s} (begins i op heard idle e) h = rw e (vcpu_enters-InOrder l s i op h)
move-InOrder l {s} (goes_on sys i e) h = rw e (vcpu_goes_on-InOrder l sys s i h)
move-InOrder l {s} (reader_pushes b e) h = rw e (byte_comes-InOrder l s b h)
move-InOrder l (reader_flaps sys e) h =
    rw e (record { conserved = h.conserved; carried = h.carried })

reach-InOrder : (l : List ℕ) {s t : SharedPort} → PortReach s t → InOrder l s → InOrder l t
reach-InOrder l here h = h
reach-InOrder l (next r m) h = move-InOrder l m (reach-InOrder l r h)

-- However the points of the accesses of any number of vCPUs and of the reader thread interleave, with
-- the registers unlocked and DLAB and loopback changing in between: counted from a state in which no
-- vCPU is in an access, the bytes that the reads of the data port have given to the vCPUs while one was
-- waiting, in the order of these reads, followed by those that wait, are the bytes that waited in that
-- state followed by those that have come, typed or written in loopback. None is lost, repeated, changed
-- or overtaken.
pub reach-taken :
    (s t : SharedPort)
    → ((i : ℕ) → (heard : Option ℕ) × (s.points i ≡ rest heard))
    → s.taken ≡ []
    → s.arrived ≡ []
    → PortReach s t
    → t.taken ++ t.uart.rx_buf ≡ s.uart.rx_buf ++ t.arrived
reach-taken s t at_rest none_taken none_arrived r =
    (reach-InOrder s.uart.rx_buf r (record {
      conserved = rw (none_taken, none_arrived) (sym (append-nil s.uart.rx_buf));
      carried = λ j. let (heard, e) = at_rest j in rw e tt;
    })).conserved
