-- ===== src/Pio/Defs.antt =====
-- The handler table and `VM::registerPIOHandler`, `VM::initPIOHandler`.
use lvmm.Base.{
  ℕ, zero, suc, ◌+◌, ◌%◌, List, [], ◌∷◌, ◌++◌, Option, none, some, ltb, ◌==◌, if◌then◌else◌,
}
use lvmm.Cmos.{pio_port_cmos_start, pio_port_cmos_size}
use lvmm.Com1.{pio_port_com1_start, pio_port_com1_size}
use lvmm.Pio.Constants.{
  pio_port_alt_delay_start, pio_port_alt_delay_end, pio_port_com4_start, pio_port_com4_end,
  pio_port_com2_start, pio_port_com2_end, pio_port_vga_0_start, pio_port_vga_0_end,
  pio_port_vga_1_start, pio_port_vga_1_end, pio_port_com3_start, pio_port_com3_end,
  pio_port_rst_gen_start, pio_port_rst_gen_end, pio_port_unknown_1_start, pio_port_unknown_1_end,
  pio_port_unknown_2_start, pio_port_unknown_2_end, pio_port_pci_config_addr_start,
  pio_port_pci_config_addr_end, pio_port_pci_config_data_start, pio_port_pci_config_data_end,
  pio_port_pci_csam2_start, pio_port_pci_csam2_end, pio_port_post_start, pio_port_post_size,
}

abbrev pub pio_port_num : ℕ
pio_port_num = 65535

-- The classes that derive from `IODev`.
pub data Device : Type 0 where
  post cmos com1 : Device

-- What a `std::function` of the table may hold. `read` and `write` stand for the two lambdas that
-- call the device.
pub data Handler : Type 0 where
  default_pio do_nothing_pio reset_generator_out : Handler
  read write : Device → Handler

-- `pio_handler[port]`: the handlers of the two directions; `none` is an empty `std::function`.
pub record Slot : Type 0 where
  pub on_in : Option Handler
  pub on_out : Option Handler

-- The array, as the slot of each of its `pio_port_num` indices.
abbrev pub Table : Type 0
Table = ℕ → Slot

abbrev pub slot : Handler → Handler → Slot
slot i o = record { on_in = some i; on_out = some o }

abbrev pub assign : Table → ℕ → Slot → Table
assign t port s p = if port == p then s else t p

-- `for (uint16_t i = port_start; i < port_end; ++i)`, with fuel; `none` is an index outside the
-- array,
-- or that the fuel ran out.
unfoldable pub register_from : ℕ → ℕ → ℕ → Slot → Table → Option Table
register_from zero i port_end s t = none
register_from (suc fuel) i port_end s t =
    let rest = register_from fuel ((i + 1) % 65536) port_end s (assign t i s) in
    if ltb i port_end then (if ltb i pio_port_num then rest else none) else some t

-- A `uint16_t` counter makes at most 65535 rounds.
unfoldable pub register_pio_handler : ℕ → ℕ → Handler → Handler → Table → Option Table
register_pio_handler port_start port_end i o t =
    register_from 65536 port_start port_end (slot i o) t

infixl 5 ◌>>=◌
abbrev pub ◌>>=◌ : Option Table → (Table → Option Table) → Option Table
none >>= f = none
some t >>= f = f t

-- `IODev::port` and `IODev::size`.
pub record IoDev : Type 0 where
  pub device : Device
  pub port : ℕ
  pub size : ℕ

-- The loop over `iodev`; the end of the range is cut to `uint16_t`.
unfoldable pub register_devices : List IoDev → Table → Option Table
register_devices [] t = some t
register_devices (e ∷ es) t = do
  t' ← register_pio_handler e.port ((e.port + e.size) % 65536) (read e.device) (write e.device) t
  register_devices es t'

abbrev nothing : ℕ → ℕ → Table → Option Table
nothing port_start port_end = register_pio_handler port_start port_end do_nothing_pio do_nothing_pio

unfoldable pub init_pio_handler : List IoDev → Table → Option Table
init_pio_handler iodev t₀ = do
  t ← register_pio_handler 0 pio_port_num default_pio default_pio t₀
  t ← nothing pio_port_alt_delay_start pio_port_alt_delay_end t
  t ← nothing pio_port_com4_start pio_port_com4_end t
  t ← nothing pio_port_com2_start pio_port_com2_end t
  t ← nothing pio_port_vga_0_start pio_port_vga_0_end t
  t ← nothing pio_port_vga_1_start pio_port_vga_1_end t
  t ← nothing pio_port_com3_start pio_port_com3_end t
  t ← nothing pio_port_unknown_1_start pio_port_unknown_1_end t
  t ←
      register_pio_handler pio_port_rst_gen_start pio_port_rst_gen_end default_pio
        reset_generator_out t
  t ← nothing pio_port_pci_config_addr_start pio_port_pci_config_addr_end t
  t ← nothing pio_port_unknown_2_start pio_port_unknown_2_end t
  t ← nothing pio_port_pci_config_data_start pio_port_pci_config_data_end t
  t ← nothing pio_port_pci_csam2_start pio_port_pci_csam2_end t
  t ← nothing 0x60 0x70 t
  register_devices iodev t

-- The constructor of `IODev`.
abbrev pub construct_iodev : Device → ℕ → ℕ → IoDev
construct_iodev d port size = record { device = d; port = port % 65536; size = size % 256 }

abbrev pub new_post : IoDev
new_post = construct_iodev post pio_port_post_start pio_port_post_size

abbrev pub new_cmos_dev : IoDev
new_cmos_dev = construct_iodev cmos pio_port_cmos_start pio_port_cmos_size

abbrev pub new_com1_dev : IoDev
new_com1_dev = construct_iodev com1 pio_port_com1_start pio_port_com1_size

abbrev pub add_iodev : List IoDev → IoDev → List IoDev
add_iodev iodev d = iodev ++ d ∷ []

-- The devices that `VM::initMachine` adds.
abbrev pub machine_devices : List IoDev
machine_devices = add_iodev (add_iodev (add_iodev [] new_post) new_cmos_dev) new_com1_dev
