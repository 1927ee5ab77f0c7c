-- ===== src/Com1/Solo.antt =====
-- One vCPU at the serial port: the points of an access, one after the other, come to the access as a
-- whole.
use lvmm.Base.{ℕ, zero, suc, ◌≡◌, ◌≤◌, [], ◌∷◌, none, some, arith}
use lvmm.IoDev.{first}
use lvmm.Irq.{Sys, Host}
use lvmm.Com1.Defs.{
  Com1, is_dlab_set, read_rbr, com1_read, write_thr, write_ier, com1_write, should_raise,
}
use lvmm.Com1.Vcpus.{PortOp, read_data, write_data, set_ier, assign, rest, Moved, enter_port, go_on}

-- The next points of an access, with no other thread between them.
unfoldable pub straight : ℕ → Sys → Moved → Moved
straight zero sys m = m
straight (suc n) sys m = straight n sys (go_on sys m.uart m.host m.point)

-- A read of the data port: what COM1::Read leaves, and the byte that it gives.
abbrev pub Reads : Sys → Com1 → Host → Type 0
Reads sys c h =
    let m = straight 5 sys (enter_port read_data c h) in
    let r = com1_read c 0x3F8 (0 ∷ []) 1 in
    (m.uart ≡ r.dev) × (m.host ≡ h) × (m.point ≡ rest (some (first r.buf)))

straight-read : (sys : Sys) (c : Com1) (h : Host) → Reads sys c h
unfolding straight enter_port go_on com1_read read_rbr is_dlab_set
straight-read sys c h = ground arith

-- A write: what COM1::Write leaves of the port and of the host.
abbrev pub Writes : Sys → PortOp → ℕ → ℕ → Com1 → Host → Type 0
Writes sys op port v c h =
    let m = straight 5 sys (enter_port op c h) in
    let w = com1_write sys c h port (v ∷ []) 1 in
    (m.uart ≡ w.dev) × (m.host ≡ w.host) × (m.point ≡ rest none)

straight-write_data :
    (sys : Sys) (v : ℕ) (c : Com1) (h : Host) → Writes sys (write_data v) 0x3F8 v c h
unfolding straight enter_port go_on com1_write write_thr is_dlab_set
straight-write_data sys v c h = ground arith

straight-set_ier : (sys : Sys) (v : ℕ) (c : Com1) (h : Host) → Writes sys (set_ier v) 0x3F9 v c h
unfolding straight enter_port go_on com1_write write_ier should_raise is_dlab_set
straight-set_ier sys v c h = ground arith

straight-assign :
    (sys : Sys) (port v : ℕ) (c : Com1) (h : Host)
    → 0x3FA ≤ port
    → port ≤ 0x3FF
    → Writes sys (assign port v) port v c h
unfolding straight enter_port go_on com1_write
straight-assign sys port v c h low high = ground arith

-- Whatever the host's calls answer, an access that no other thread comes between leaves the port and
-- the host as COM1::Read or COM1::Write, taken as a whole, leaves them, and is over within five of its
-- points: a read of the data port, with the byte that Read gives, and each write of a byte.
pub straight-access :
    (sys : Sys) (c : Com1) (h : Host)
    → Reads sys c h
      × ((v : ℕ) → Writes sys (write_data v) 0x3F8 v c h)
      × ((v : ℕ) → Writes sys (set_ier v) 0x3F9 v c h)
      × ((port v : ℕ) → 0x3FA ≤ port → port ≤ 0x3FF → Writes sys (assign port v) port v c h)
straight-access sys c h = (
  straight-read sys c h,
  λ v. straight-write_data sys v c h,
  λ v. straight-set_ier sys v c h,
  λ port v low high. straight-assign sys port v c h low high,
)
