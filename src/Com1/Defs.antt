-- ===== src/Com1/Defs.antt =====
-- `COM1::Read`, `COM1::Write` and one round of `COM1::readerLoop`. Each runs as a whole here, with
-- the mutex held around every use of `rx_buf`; `Threads` takes them apart.
use lvmm.Base.{
  ℕ, bit_and, bit_or, Bool, true, false, ◌&&◌, ◌||◌, not, List, [], ◌∷◌, ◌++◌, none, some, ◌==◌,
  truthy, if◌then◌else◌, ℤ, pos, neg, is_nonzero,
}
use lvmm.Com1.Constants.{
  com1_irq, pio_port_com1_thr_rbr_dll, pio_port_com1_ier_dlh, pio_port_com1_iir_fcr,
  pio_port_com1_lcr, pio_port_com1_mcr, pio_port_com1_lsr, pio_port_com1_msr, pio_port_com1_sr,
  reg_dll_9600, reg_ier_writable_mask, reg_ier_data_avl_mask, reg_dlh_9600, reg_lcr_dlab,
  reg_lsr_temt, reg_lsr_thre, reg_fcr_enable, reg_iir_no_int_pend, reg_iir_fifo_16550a, reg_mcr_dtr,
  reg_mcr_rts, reg_mcr_out1, reg_mcr_out2, reg_mcr_loop, reg_msr_cts, reg_msr_dsr, reg_msr_ri,
  reg_msr_dcd,
}
use lvmm.IoDev.{Reply, first, put_first}
use lvmm.Irq.{Sys, Host, flap_irq_line}

-- The registers are `uint8_t`. The saved terminal settings and the thread handle are left out.
pub record Com1 : Type 0 where
  pub thr : ℕ
  pub rbr : ℕ
  pub dll : ℕ
  pub ier : ℕ
  pub dlh : ℕ
  pub iir : ℕ
  pub fcr : ℕ
  pub lcr : ℕ
  pub mcr : ℕ
  pub lsr : ℕ
  pub msr : ℕ
  pub sr : ℕ
  pub rx_buf : List ℕ
  pub shutting_down : Bool

-- The members' initial values.
unfoldable pub new_com1 : Com1
new_com1 = record {
  thr = 0;
  rbr = 0;
  dll = 0;
  ier = 0;
  dlh = 0;
  iir = 0;
  fcr = 0;
  lcr = 0;
  mcr = 0;
  lsr = 0;
  msr = 0;
  sr = 0;
  rx_buf = [];
  shutting_down = false;
}

abbrev pub is_empty : List ℕ → Bool
is_empty [] = true
is_empty (b ∷ bs) = false

unfoldable pub is_dlab_set : Com1 → Bool
is_dlab_set c = truthy (bit_and c.lcr reg_lcr_dlab)

-- IER.0 and a byte waiting; IER.1; MCR.4; FCR.0.
abbrev pub rx_enabled : Com1 → Bool
rx_enabled c = truthy (bit_and c.ier reg_ier_data_avl_mask)

abbrev pub tx_enabled : Com1 → Bool
tx_enabled c = truthy (bit_and c.ier 0b0000_0010)

abbrev pub in_loopback : Com1 → Bool
in_loopback c = truthy (bit_and c.mcr reg_mcr_loop)

-- The case of RBR.
unfoldable pub read_rbr : Com1 → List ℕ → Reply Com1
read_rbr c buf = elim c.rx_buf [
  | [] ↦ record { dev = c; buf = put_first buf 0; ret = pos 0 }
  | b ∷ bs ↦ record { dev = record c { rx_buf = bs }; buf = put_first buf b; ret = pos 0 }
]

-- The cases of IIR, LSR and MSR compute a byte.
unfoldable pub iir_value : Com1 → ℕ
iir_value c =
    let source : ℕ =
      if rx_enabled c && not (is_empty c.rx_buf)
      then 0b0000_0100
      else if tx_enabled c
      then 0b0000_0010
      else reg_iir_no_int_pend in
    if truthy (bit_and c.fcr reg_fcr_enable) then bit_or source reg_iir_fifo_16550a else source

unfoldable pub lsr_value : Com1 → ℕ
lsr_value c =
    let v = bit_or reg_lsr_temt reg_lsr_thre in
    if not (is_empty c.rx_buf) then bit_or v 0b0000_0001 else v

-- `if (MCR & mask) value |= flag`.
abbrev pub or_if : ℕ → ℕ → ℕ → ℕ → ℕ
or_if mcr mask flag v = if truthy (bit_and mcr mask) then bit_or v flag else v

unfoldable pub msr_value : Com1 → ℕ
msr_value c =
    if in_loopback c
    then or_if c.mcr reg_mcr_out2 reg_msr_dcd (
        or_if c.mcr reg_mcr_out1 reg_msr_ri
          (or_if c.mcr reg_mcr_rts reg_msr_cts (or_if c.mcr reg_mcr_dtr reg_msr_dsr 0)))
    else bit_or (bit_or reg_msr_cts reg_msr_dsr) reg_msr_dcd

abbrev answer : Com1 → List ℕ → ℕ → Reply Com1
answer c buf v = record { dev = c; buf = put_first buf v; ret = pos 0 }

unfoldable pub com1_read : Com1 → ℕ → List ℕ → ℕ → Reply Com1
com1_read c port buf size =
    if port == pio_port_com1_thr_rbr_dll
    then (if not (is_dlab_set c) then read_rbr c buf else answer c buf reg_dll_9600)
    else if port == pio_port_com1_ier_dlh
    then answer c buf (if not (is_dlab_set c) then c.ier else reg_dlh_9600)
    else if port == pio_port_com1_iir_fcr
    then answer c buf (iir_value c)
    else if port == pio_port_com1_lcr
    then answer c buf c.lcr
    else if port == pio_port_com1_mcr
    then answer c buf c.mcr
    else if port == pio_port_com1_lsr
    then answer c buf (lsr_value c)
    else if port == pio_port_com1_msr
    then answer c buf (msr_value c)
    else if port == pio_port_com1_sr
    then answer c buf c.sr
    else record { dev = c; buf = buf; ret = pos 1 }

-- A write also acts on the host. It never changes the buffer.
pub record Written : Type 0 where
  pub dev : Com1
  pub host : Host
  pub ret : ℤ

-- `if ((r = vm->flapIRQLine(COM1_IRQ))) return r;`, and 0 at the end of `Write`.
unfoldable pub flap_then_done : Sys → Com1 → Host → Written
unfolding flap_irq_line
flap_then_done sys c h =
    let (h', r) = flap_irq_line sys com1_irq h in
    record { dev = c; host = h'; ret = if is_nonzero r then r else pos 0 }

unfoldable pub write_thr : Sys → Com1 → Host → ℕ → Written
unfolding flap_then_done
write_thr sys c h v =
    if in_loopback c
    then record { dev = record c { rx_buf = c.rx_buf ++ v ∷ [] }; host = h; ret = pos 0 }
    else elim sys.write_errno [
      | some e ↦ record { dev = c; host = h; ret = neg e }
      | none ↦
          let h' = record h { stdout = h.stdout ++ v ∷ [] } in
          if tx_enabled c
          then flap_then_done sys c h'
          else record { dev = c; host = h'; ret = pos 0 }
    ]

unfoldable pub should_raise : Com1 → Bool
should_raise c = tx_enabled c || (rx_enabled c && not (is_empty c.rx_buf))

unfoldable pub write_ier : Sys → Com1 → Host → ℕ → Written
unfolding flap_then_done should_raise
write_ier sys c h v =
    let c' = record c { ier = bit_and v reg_ier_writable_mask } in
    if should_raise c' then flap_then_done sys c' h else record { dev = c'; host = h; ret = pos 0 }

abbrev keep : Com1 → Host → Written
keep c h = record { dev = c; host = h; ret = pos 0 }

unfoldable pub com1_write : Sys → Com1 → Host → ℕ → List ℕ → ℕ → Written
com1_write sys c h port buf size =
    let v = first buf in
    if port == pio_port_com1_thr_rbr_dll
    then (if not (is_dlab_set c) then write_thr sys c h v else keep (record c { dll = v }) h)
    else if port == pio_port_com1_ier_dlh
    then (if not (is_dlab_set c) then write_ier sys c h v else keep (record c { dlh = v }) h)
    else if port == pio_port_com1_iir_fcr
    then keep (record c { fcr = v }) h
    else if port == pio_port_com1_lcr
    then keep (record c { lcr = v }) h
    else if port == pio_port_com1_mcr
    then keep (record c { mcr = v }) h
    else if port == pio_port_com1_lsr
    then keep c h
    else if port == pio_port_com1_msr
    then keep c h
    else if port == pio_port_com1_sr
    then keep (record c { sr = v }) h
    else record { dev = c; host = h; ret = pos 1 }
