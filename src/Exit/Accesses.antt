-- ===== src/Exit/Accesses.antt =====
-- What one call of a handler does to the console.
use mathlib.Core.Path.{subst}
use lvmm.Base.{
  ℕ, ◌≡◌, ◌⊎◌, refl, Bool, true, false, ◌||◌, List, [], ◌∷◌, ◌++◌, Option, none, some, ◌==◌,
  is_nonzero, arith, inl, inr, ◌∙◌, ap, sym,
}
use lvmm.IoDev.{first}
use lvmm.Irq.{Sys, Host, HasErrno, flap_irq_line}
use lvmm.Cmos.{cmos_read}
use lvmm.Com1.{is_dlab_set, read_rbr, com1_read, write_thr, write_ier, com1_write}
use lvmm.Pio.{
  Device, Slot, slot, post, cmos, com1, Handler, default_pio, do_nothing_pio, reset_generator_out,
  read, write, find_slot, port_map,
}
use lvmm.Exit.Defs.{
  Machine, Now, Called, device_read, device_write, call, Direction, io_in, io_out, handler,
}
use lvmm.Exit.Console.{Console, sends, console_of}

flap-stdout : (sys : Sys) (irq : ℕ) (h : Host) → (flap_irq_line sys irq h).0.stdout ≡ h.stdout
unfolding flap_irq_line
flap-stdout sys irq h = ground arith

-- The call leaves the console as it is, where it returns.
abbrev Keeps : Machine → Option Called → Type 0
Keeps m none = Unit
Keeps m (some r) = console_of r.machine ≡ console_of m

-- The ports that the console listens to.
abbrev pub listens : ℕ → Bool
listens p = p == 0x3F8 || p == 0x3FB || p == 0x3FC

module _ (now : Now) (m : Machine) (port : ℕ) (buf : List ℕ) (size : ℕ) where
  device_read-Keeps : (d : Device) → Keeps m (device_read now d m port buf size)
  unfolding device_read cmos_read com1_read read_rbr is_dlab_set
  device_read-Keeps post = refl
  device_read-Keeps cmos = ground arith
  device_read-Keeps com1 = ground arith

  device_write-Keeps :
      listens port ≡ false → (d : Device) → Keeps m (device_write now d m port buf size)
  unfolding device_write com1_write write_ier is_dlab_set
  device_write-Keeps h post = refl
  device_write-Keeps h cmos = ground arith
  device_write-Keeps h com1 = ground (arith, flap-stdout now.sys 4 m.host)

  call-Keeps : listens port ≡ false → (h : Handler) → Keeps m (call now h m port buf size)
  unfolding call
  call-Keeps k default_pio = refl
  call-Keeps k do_nothing_pio = refl
  call-Keeps k reset_generator_out = refl
  call-Keeps k (read d) = device_read-Keeps d
  call-Keeps k (write d) = device_write-Keeps k d

-- The serial port at a port of the console. A byte that is not printed stops the vCPU.
write-sends :
    (now : Now) (m : Machine) (port : ℕ) (buf : List ℕ) (size : ℕ) {r : Called}
    → HasErrno now.sys.write_errno
    → call now (write com1) m port buf size ≡ some r
    → is_nonzero r.ret ≡ false
    → (console_of r.machine ≡ sends io_out port (first buf) (console_of m)) × (r.buf ≡ buf)
unfolding call device_write com1_write write_thr write_ier sends is_dlab_set
write-sends now m port buf size {r} errs e on = ground (
  arith,
  e,
  flap-stdout now.sys 4 m.host,
  flap-stdout now.sys 4 (record m.host { stdout = m.host.stdout ++ first buf ∷ [] }),
)

sends-quiet : (d : Direction) (p v : ℕ) (c : Console) → listens p ≡ false → sends d p v c ≡ c
unfolding sends
sends-quiet io_in p v c h = refl
sends-quiet io_out p v c h = ground arith

listens-cases : (p : ℕ) → listens p ≡ true → (p ≡ 0x3F8) ⊎ ((p ≡ 0x3FB) ⊎ (p ≡ 0x3FC))
listens-cases p h = ground arith

-- The serial port serves the ports of the console.
abbrev pub IsServed : ℕ → Type 0
IsServed p = ◌≡◌ {A = Slot} (find_slot port_map p) (slot (read com1) (write com1))

pub listens-find_slot : (p : ℕ) → listens p ≡ true → IsServed p
listens-find_slot p h = elim (listens-cases p h) [
  | inl e ↦ subst IsServed (sym e) refl
  | inr (inl e) ↦ subst IsServed (sym e) refl
  | inr (inr e) ↦ subst IsServed (sym e) refl
]

-- What one iteration does to the console, and that the next one does the same.
abbrev pub Sends : Direction → ℕ → Machine → List ℕ → Called → Type 0
Sends d p m buf r =
    (console_of r.machine ≡ sends d p (first buf) (console_of m))
    × ((c : Console) → sends d p (first r.buf) c ≡ sends d p (first buf) c)

module _ (now : Now) (p size : ℕ) (m : Machine) (buf : List ℕ)
    (errs : HasErrno now.sys.write_errno) where
  pub quiet-Sends :
      (d : Direction) (f : Handler) {r : Called}
      → listens p ≡ false
      → call now f m p buf size ≡ some r
      → Sends d p m buf r
  quiet-Sends d f {r} quiet e =
      let kept : Keeps m (some r) = rw e at (call-Keeps now m p buf size quiet f) in
      (
        kept ∙ sym (sends-quiet d p (first buf) (console_of m) quiet),
        λ c. sends-quiet d p (first r.buf) c quiet ∙ sym (sends-quiet d p (first buf) c quiet),
      )

  pub loud-Sends :
      (d : Direction) (f : Handler) {r : Called}
      → handler (slot (read com1) (write com1)) d ≡ some f
      → call now f m p buf size ≡ some r
      → is_nonzero r.ret ≡ false
      → Sends d p m buf r
  unfolding sends call
  loud-Sends io_in f {r} found e on =
      let same : read com1 ≡ f = cc found in
      let called : device_read now com1 m p buf size ≡ some r =
        ap (λ g. call now g m p buf size) same ∙ e in
      (subst (Keeps m) called (device_read-Keeps now m p buf size com1), λ c. refl)
  loud-Sends io_out f {r} found e on =
      let same : write com1 ≡ f = cc found in
      let called : call now (write com1) m p buf size ≡ some r =
        ap (λ g. call now g m p buf size) same ∙ e in
      let (sent, kept) = write-sends now m p buf size {r = r} errs called on in
      (sent, λ c. ap (λ b. sends io_out p (first b) c) kept)
