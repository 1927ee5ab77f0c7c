-- ===== src/Run/Examples.antt =====
-- Two vCPUs that take turns.
use lvmm.Base.{ℕ, ◌<◌, ◌≡◌, refl, inl, inr, List, [], ◌∷◌, none, pos, arith, zero, suc}
use lvmm.Cmos.{IsValid}
use lvmm.Pio.{find_slot, port_map}
use lvmm.Exit.{Machine, Dumps, hlt, mmio, io, io_in, one_byte}
use lvmm.Exit.Examples.{machine, now, ready-IsFull, rtc-IsValid}
use lvmm.Run.Defs.{Event, returned, boot}
use lvmm.Run.Rounds.{StopsAt}
use lvmm.Run.Ends.{boot-returned}

abbrev dumps : Dumps
dumps = record { regs_errno = none; sregs_errno = none }

-- vCPU 1 reads the seconds and halts; vCPU 0 then leaves the memory.
abbrev events : List Event
events =
    record { vcpu = 1; now = now; exit = io (one_byte 0x71 io_in 0 []) }
    ∷ record { vcpu = 1; now = now; exit = hlt }
    ∷ record { vcpu = 0; now = now; exit = mmio }
    ∷ []

both_stop : (i : ℕ) → i < 2 → StopsAt i events
both_stop zero h = inr (inr (inl (refl, refl)))
both_stop (suc zero) h = inr (inl (refl, refl))
both_stop (suc (suc i)) h = absurd (omega arith)

boot-returned_example :
    (m : Machine) × (boot dumps (find_slot port_map) 2 events machine ≡ returned m (pos 0))
    × IsValid m.rtc
boot-returned_example =
    boot-returned dumps (find_slot port_map) 2 events machine ready-IsFull
      (omega arith, (tt, (tt, tt))) rtc-IsValid both_stop
