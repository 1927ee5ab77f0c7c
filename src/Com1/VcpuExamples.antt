-- ===== src/Com1/VcpuExamples.antt =====
-- Two vCPUs that read the data port of the serial port at once.
use lvmm.Base.{ℕ, ◌≤◌, ◌≡◌, refl, [], ◌++◌, none, some}
use lvmm.Irq.{Sys, Host}
use lvmm.Com1.Defs.{new_com1, is_dlab_set}
use lvmm.Com1.Vcpus.{
  read_data, write_data, set_ier, assign, rest, enter_port, go_on, SharedPort, vcpu_enters,
  vcpu_goes_on, byte_comes, begins, goes_on, reader_pushes, PortReach, here, next,
}
use lvmm.Com1.Order.{reach-taken}
use lvmm.Com1.Solo.{Reads, Writes, straight-access}

abbrev fine : Sys
fine = record { write_errno = none; irq_errno = λ level. none }

abbrev quiet : Host
quiet = record { stdout = []; lines = [] }

abbrev silent : SharedPort
silent = record {
  uart = new_com1;
  host = quiet;
  points = λ i. rest none;
  given = λ i. 0;
  taken = [];
  arrived = [];
}

abbrev starts_read : ℕ → SharedPort → SharedPort
starts_read i s = vcpu_enters s i read_data

abbrev goes : ℕ → SharedPort → SharedPort
goes i s = vcpu_goes_on fine s i

-- Both have tested DLAB, two bytes come, and vCPU 1 is the first to take one.
abbrev both_tested : SharedPort
both_tested = starts_read 1 (starts_read 0 silent)

abbrev both_read : SharedPort
both_read = goes 0 (goes 1 (byte_comes (byte_comes both_tested b'l') b's'))

both_read-PortReach : PortReach silent both_read
unfolding enter_port is_dlab_set new_com1
both_read-PortReach =
    let tested : PortReach silent both_tested =
      next (next here (begins 0 read_data none refl refl)) (begins 1 read_data none refl refl) in
    let come = next (next tested (reader_pushes b'l' refl)) (reader_pushes b's' refl) in
    next (next come (goes_on fine 1 refl)) (goes_on fine 0 refl)

first_come : (both_read.points 1 ≡ rest (some b'l')) × (both_read.points 0 ≡ rest (some b's'))
unfolding enter_port go_on is_dlab_set new_com1
first_come = (refl, refl)

reach-taken_example :
    both_read.taken ++ both_read.uart.rx_buf ≡ silent.uart.rx_buf ++ both_read.arrived
reach-taken_example = reach-taken silent both_read (λ i. (none, refl)) refl refl both_read-PortReach

straight-access_example :
    Reads fine new_com1 quiet
    × ((v : ℕ) → Writes fine (write_data v) 0x3F8 v new_com1 quiet)
    × ((v : ℕ) → Writes fine (set_ier v) 0x3F9 v new_com1 quiet)
    × ((port v : ℕ)
        → 0x3FA ≤ port
        → port ≤ 0x3FF
        → Writes fine (assign port v) port v new_com1 quiet)
straight-access_example = straight-access fine new_com1 quiet
