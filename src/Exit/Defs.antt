-- ===== src/Exit/Defs.antt =====
-- `Vcpu::RunOnce`, over the devices and the handler table. What the host answers during one access
-- is an argument of it.
use lvmm.Base.{ℕ, zero, suc, List, [], Option, none, some, ltb, if◌then◌else◌, ℤ, pos, is_nonzero}
use lvmm.Irq.{Sys, Host}
use lvmm.Cmos.{Tm, Cmos, cmos_read, cmos_write}
use lvmm.Com1.{Com1, com1_read, com1_write}
use lvmm.Pio.{
  Device, post, cmos, com1, Handler, default_pio, do_nothing_pio, reset_generator_out, read, write,
  Slot, Table, pio_port_num,
}

-- The devices and the host. The POST device keeps no state.
pub record Machine : Type 0 where
  pub rtc : Cmos
  pub uart : Com1
  pub host : Host

-- The host's local time and the outcome of its calls during an access.
pub record Now : Type 0 where
  pub time : Tm
  pub sys : Sys

-- What a handler leaves: the machine, the bytes at `data_ptr`, and the returned `int`.
pub record Called : Type 0 where
  pub machine : Machine
  pub buf : List ℕ
  pub ret : ℤ

abbrev returns : Machine → List ℕ → ℤ → Option Called
returns m buf r = some (record { machine = m; buf = buf; ret = r })

-- `Post::Read` and `Post::Write`.
unfoldable pub post_access : Machine → List ℕ → Option Called
post_access m buf = returns m buf (pos 0)

unfoldable pub device_read : Now → Device → Machine → ℕ → List ℕ → ℕ → Option Called
unfolding post_access
device_read now post m port buf size = post_access m buf
device_read now cmos m port buf size = elim (cmos_read now.time m.rtc port buf size) [
  | none ↦ none
  | some r ↦ returns (record m { rtc = r.dev }) r.buf r.ret
]
device_read now com1 m port buf size =
    let r = com1_read m.uart port buf size in returns (record m { uart = r.dev }) r.buf r.ret

unfoldable pub device_write : Now → Device → Machine → ℕ → List ℕ → ℕ → Option Called
unfolding post_access
device_write now post m port buf size = post_access m buf
device_write now cmos m port buf size = elim (cmos_write m.rtc port buf size) [
  | none ↦ none
  | some r ↦ returns (record m { rtc = r.dev }) r.buf r.ret
]
device_write now com1 m port buf size =
    let w = com1_write now.sys m.uart m.host port buf size in
    returns (record m { uart = w.dev; host = w.host }) buf w.ret

-- A call of a handler. The three functions of src/pio.cpp only print.
unfoldable pub call : Now → Handler → Machine → ℕ → List ℕ → ℕ → Option Called
unfolding device_read device_write
call now default_pio m port buf size = returns m buf (pos 1)
call now do_nothing_pio m port buf size = returns m buf (pos 0)
call now reset_generator_out m port buf size = returns m buf (pos 1)
call now (read d) m port buf size = device_read now d m port buf size
call now (write d) m port buf size = device_write now d m port buf size

-- `run->io.direction`.
pub data Direction : Type 0 where
  io_in io_out : Direction

abbrev pub handler : Slot → Direction → Option Handler
handler s io_in = s.on_in
handler s io_out = s.on_out

-- `run->io`, with the bytes of the run page from `data_offset` on, the `count * size` bytes of the
-- access at their head.
pub record Io : Type 0 where
  pub port : ℕ
  pub direction : Direction
  pub size : ℕ
  pub count : ℕ
  pub buf : List ℕ

-- What one iteration calls. `none`: the port has no place in the array, or an empty
-- `std::function`.
unfoldable pub io_call : Now → Table → Io → Machine → List ℕ → Option Called
io_call now t io m buf =
    if ltb io.port pio_port_num
    then elim (handler (t io.port) io.direction) [
      | none ↦ none
      | some f ↦ call now f m io.port buf io.size
    ]
    else none

-- The loop over `run->io.count`, which stops at the first handler that returns nonzero. Every
-- iteration hands over the same data pointer.
unfoldable pub io_loop : ℕ → Now → Table → Io → Machine → List ℕ → Option Called
io_loop zero now t io m buf = returns m buf (pos 0)
io_loop (suc n) now t io m buf = elim (io_call now t io m buf) [
  | none ↦ none
  | some r ↦
      let rest = io_loop n now t io r.machine r.buf in
      if is_nonzero r.ret then returns r.machine r.buf (pos 1) else rest
]

-- `run->exit_reason`; `other` is any that the `switch` does not name.
pub data Exit : Type 0 where
  unknown intr debug hlt mmio : Exit
  io : Io → Exit
  other : ℕ → Exit

-- The result of `Run` is not looked at, so that it is no argument here; `Enter` has the call.
unfoldable pub run_once : Now → Table → Exit → Machine → Option Called
run_once now t unknown m = returns m [] (pos 0)
run_once now t intr m = returns m [] (pos 0)
run_once now t debug m = returns m [] (pos 1)
run_once now t hlt m = returns m [] (pos 1)
run_once now t (io a) m = io_loop a.count now t a m a.buf
run_once now t mmio m = returns m [] (pos 1)
run_once now t (other reason) m = returns m [] (pos 1)
