-- ===== src/Com1/Vcpus.antt =====
-- Several vCPUs and the reader thread at the serial port: `COM1::Read` and `COM1::Write` taken apart at
-- each use of a register, with the mutex around each use of `rx_buf` (sequential consistency). The two
-- ioctls of a flap are one step. Reads of other ports than the data port change nothing.
use lvmm.Base.{
  ℕ, ◌≡◌, Bool, ◌&&◌, ◌||◌, not, List, [], ◌∷◌, ◌++◌, Option, none, some, ◌==◌, if◌then◌else◌,
  bit_and,
}
use lvmm.Irq.{Sys, Host, flap_irq_line}
use lvmm.Com1.Constants.{
  com1_irq, reg_dll_9600, reg_ier_writable_mask, pio_port_com1_iir_fcr, pio_port_com1_lcr,
  pio_port_com1_mcr, pio_port_com1_sr,
}
use lvmm.Com1.Defs.{Com1, is_empty, is_dlab_set, rx_enabled, tx_enabled, in_loopback}

-- A read of the data port, writes to it, to IER, and to another port.
pub data PortOp : Type 0 where
  read_data : PortOp
  write_data set_ier : ℕ → PortOp
  assign : ℕ → ℕ → PortOp

-- Where a vCPU stands. `rest`: in no access, with the byte that the last one has read. In a read past
-- the test of DLAB. In a write to the data port past that test; past that of MCR, before the byte goes
-- to the buffer or to standard output; behind the `write`. Before the assignment to DLL, DLH and IER;
-- behind that to IER, and behind the sample of the buffer. Before the flap.
pub data Point : Type 0 where
  rest : Option ℕ → Point
  popping : Point
  sending looping printing : ℕ → Point
  printed : Point
  latching_dll latching_dlh enabling : ℕ → Point
  enabled : Point
  sampled : Bool → Point
  flapping : Point

-- What a move leaves: the device, the host, and where the vCPU stands.
pub record Moved : Type 0 where
  pub uart : Com1
  pub host : Host
  pub point : Point

abbrev pub at_point : Com1 → Host → Point → Moved
at_point c h p = record { uart = c; host = h; point = p }

-- The registers that are only assigned.
unfoldable pub assigned : ℕ → ℕ → Com1 → Com1
assigned port v c =
    if port == pio_port_com1_iir_fcr
    then record c { fcr = v }
    else if port == pio_port_com1_lcr
    then record c { lcr = v }
    else if port == pio_port_com1_mcr
    then record c { mcr = v }
    else if port == pio_port_com1_sr
    then record c { sr = v }
    else c

-- The first point of an access.
unfoldable pub enter_port : PortOp → Com1 → Host → Moved
unfolding assigned
enter_port read_data c h =
    at_point c h (if is_dlab_set c then rest (some reg_dll_9600) else popping)
enter_port (write_data v) c h = at_point c h (if is_dlab_set c then latching_dll v else sending v)
enter_port (set_ier v) c h = at_point c h (if is_dlab_set c then latching_dlh v else enabling v)
enter_port (assign port v) c h = at_point (assigned port v c) h (rest none)

-- The next point of the access that a vCPU is in.
unfoldable pub go_on : Sys → Com1 → Host → Point → Moved
go_on sys c h (rest heard) = at_point c h (rest heard)
go_on sys c h popping = elim c.rx_buf [
  | [] ↦ at_point c h (rest (some 0))
  | b ∷ bs ↦ at_point (record c { rx_buf = bs }) h (rest (some b))
]
go_on sys c h (sending v) = at_point c h (if in_loopback c then looping v else printing v)
go_on sys c h (looping v) = at_point (record c { rx_buf = c.rx_buf ++ v ∷ [] }) h (rest none)
go_on sys c h (printing v) = elim sys.write_errno [
  | some e ↦ at_point c h (rest none)
  | none ↦ at_point c (record h { stdout = h.stdout ++ v ∷ [] }) printed
]
go_on sys c h printed = at_point c h (if tx_enabled c then flapping else rest none)
go_on sys c h (latching_dll v) = at_point (record c { dll = v }) h (rest none)
go_on sys c h (latching_dlh v) = at_point (record c { dlh = v }) h (rest none)
go_on sys c h (enabling v) = at_point (record c { ier = bit_and v reg_ier_writable_mask }) h enabled
go_on sys c h enabled = at_point c h (sampled (not (is_empty c.rx_buf)))
go_on sys c h (sampled pending) =
    at_point c h (if tx_enabled c || (rx_enabled c && pending) then flapping else rest none)
go_on sys c h flapping = at_point c (flap_irq_line sys com1_irq h).0 (rest none)

-- The port, where each vCPU stands, and the byte that its last write of the data port has handed
-- over. `taken`: the bytes that reads of the data port have given to vCPUs where one was waiting.
-- `arrived`: those that were typed, and those that vCPUs have written in loopback. Both in order.
pub record SharedPort : Type 0 where
  pub uart : Com1
  pub host : Host
  pub points : ℕ → Point
  pub given : ℕ → ℕ
  pub taken : List ℕ
  pub arrived : List ℕ

-- vCPU `i` begins an access.
abbrev pub vcpu_enters : SharedPort → ℕ → PortOp → SharedPort
vcpu_enters s i op =
    let m = enter_port op s.uart s.host in
    record s {
      uart = m.uart;
      host = m.host;
      points = λ j. if j == i then m.point else s.points j;
      given = λ j. elim op [
        | write_data v ↦ (if j == i then v else s.given j)
        | read_data ↦ s.given j
        | set_ier v ↦ s.given j
        | assign port v ↦ s.given j
      ];
    }

-- The byte that a vCPU has got when it comes from the pop of a buffer that was not empty.
abbrev pub got : Com1 → Point → Point → List ℕ
got c popping (rest (some b)) = if is_empty c.rx_buf then [] else b ∷ []
got c _ _ = []

-- The byte of the access that comes from the push in loopback.
abbrev pub put_back : Point → ℕ → List ℕ
put_back (looping v) handed_over = handed_over ∷ []
put_back _ handed_over = []

-- vCPU `i` goes on within its access.
abbrev pub vcpu_goes_on : Sys → SharedPort → ℕ → SharedPort
vcpu_goes_on sys s i =
    let m = go_on sys s.uart s.host (s.points i) in
    record s {
      uart = m.uart;
      host = m.host;
      points = λ j. if j == i then m.point else s.points j;
      taken = s.taken ++ got s.uart (s.points i) m.point;
      arrived = s.arrived ++ put_back (s.points i) (s.given i);
    }

-- The `push_back` of the reader thread, and its flap, at whatever time.
abbrev pub byte_comes : SharedPort → ℕ → SharedPort
byte_comes s b = record s {
  uart = record s.uart { rx_buf = s.uart.rx_buf ++ b ∷ [] };
  arrived = s.arrived ++ b ∷ [];
}

pub data PortMove (s t : SharedPort) : Type 0 where
  begins :
      (i : ℕ) (op : PortOp) (heard : Option ℕ)
      → s.points i ≡ rest heard
      → t ≡ vcpu_enters s i op
      → PortMove s t
  goes_on : (sys : Sys) (i : ℕ) → t ≡ vcpu_goes_on sys s i → PortMove s t
  reader_pushes : (b : ℕ) → t ≡ byte_comes s b → PortMove s t
  reader_flaps :
      (sys : Sys) → t ≡ record s { host = (flap_irq_line sys com1_irq s.host).0 } → PortMove s t

pub data PortReach (s : SharedPort) : SharedPort → Type 0 where
  here : PortReach s s
  next : {t u : SharedPort} → PortReach s t → PortMove t u → PortReach s u
