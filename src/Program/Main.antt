-- ===== src/Program/Main.antt =====
-- `main` as a whole.
use lvmm.Base.{ℕ, ◌<◌, ◌≡◌, ap, List, [], some, false, pos, arith}
use lvmm.Cmos.{new_cmos, IsValid}
use lvmm.Com1.{new_com1}
use lvmm.Pio.{Table}
use lvmm.Exit.{Machine, Dumps, IsFull, port_map-IsFull}
use lvmm.Boot.{IsBootable, init_ram-load}
use lvmm.Setup.{zeros, filled_table, filled_table-port_map}
use lvmm.Run.{
  Running, Event, Booting, returned, waiting, boot, EventsInTable, StopsAt, boot-returned,
}
use lvmm.Program.Defs.{
  Host, Progress, reaches, exits, is_kernel_elf, vm_conf, main_cmdline, start_machine, ◌>>=◌,
}
use lvmm.Program.Steps.{IsWorking, start_machine_lem}

-- The devices that `initMachine` makes; a new CMOS has `leftover` in its index.
abbrev pub new_devices : ℕ → Machine
new_devices leftover = record {
  rtc = new_cmos leftover;
  uart = new_com1;
  host = record { stdout = []; lines = [] };
}

-- `return 0` behind `Boot`, whatever it returned; before that a thread still runs.
abbrev pub after_boot : Booting → Progress Running
after_boot (returned m r) = exits (pos 0)
after_boot (waiting r) = reaches r
after_boot Booting.faulted = Progress.fault

-- `main`, over the exits of its vCPU.
unfoldable pub main : Host → ℕ → Dumps → List Event → Progress Running
main h leftover d es = start_machine h >>= λ booted.
    after_boot (boot d booted.0.table vm_conf.vcpu_num es (new_devices leftover))

only_first : (j : ℕ) (es : List Event) → j < 1 → StopsAt 0 es → StopsAt j es
only_first j es h s = let first : 0 ≡ j = omega arith in rw⁻¹ first s

pub filled_table-IsFull : (t : Table) → IsFull (filled_table t)
filled_table-IsFull t = port_map-IsFull (filled_table t) (filled_table-port_map t)

-- On a host on which CPUID names a known processor, every call succeeds and the CPUID entries of
-- KVM lie in their array, with a limit of at least one vCPU, with a kernel, no ELF file and with a
-- valid header, and an initramfs that fit a machine of 1 GiB, and with a register number of the
-- CMOS left in its index: once the guest has had an exit that stops its vCPU, such as a halt, main
-- returns 0, as long as the guest never accesses port 0xFFFF.
pub main-returns :
    (h : Host) (kernel initramfs : List ℕ) (leftover : ℕ) (d : Dumps) (es : List Event)
    → IsWorking h
    → h.kernel_file ≡ some kernel
    → h.initramfs_file ≡ some initramfs
    → is_kernel_elf h.buf kernel ≡ false
    → IsBootable vm_conf initramfs kernel main_cmdline (zeros vm_conf)
    → IsValid (new_cmos leftover)
    → EventsInTable es
    → StopsAt 0 es
    → main h leftover d es ≡ exits (pos 0)
unfolding main
main-returns h kernel initramfs leftover d es w k i e b v low stop =
    let t = init_ram-load vm_conf initramfs kernel main_cmdline (zeros vm_conf) b in
    let started = start_machine_lem h kernel initramfs t.0 w k i e t.1 in
    let (m, ends, _) =
      boot-returned d (filled_table h.table) 1 es (new_devices leftover)
        (filled_table-IsFull h.table) low v (λ j g. only_first j es g stop) in
    rw (main, started) (ap after_boot ends)
