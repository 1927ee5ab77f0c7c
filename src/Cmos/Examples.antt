-- ===== src/Cmos/Examples.antt =====
-- Runs of the CMOS, and its theorems at concrete inputs.
use lvmm.Base.{
  ℕ, ◌<◌, ◌≡◌, ◌≢◌, none, pos, refl, ◌+◌, ◌*◌, List, [], ◌∷◌, some, arith, if◌then◌else◌, ◌==◌,
  ◌&&◌,
}
use lvmm.Cmos.Defs.{Tm, Cmos, new_cmos, bin_to_bcd, cmos_read, cmos_write, data_value, reg_value}
use lvmm.Cmos.Safety.{IsValid, Access, read, write, access, run, run-IsValid}
use lvmm.Cmos.Storage.{store, load, sticks, load-store}
use lvmm.IoDev.{Reply}
use lvmm.Cmos.Threads.{
  SharedCmos, rest, storing, faulted, look, put, enter, moved, CmosReach, here, next, begins,
  reach-IsValid,
}
use lvmm.Cmos.Alone.{access_of, heard_in, solo, CmosReach-solo, reach-access}
use lvmm.Cmos.Race.{HoldsZero, at_rest, shutdown_guard-races}
use lvmm.Cmos.Clock.{IsLocal, Shows, IsBcd, bin_to_bcd-IsBcd, load-clock}

-- 23:59:58 on Saturday, 2 December 2023.
abbrev night : Tm
night = record {
  tm_sec = 58;
  tm_min = 59;
  tm_hour = 23;
  tm_mday = 2;
  tm_mon = 11;
  tm_year = 123;
  tm_wday = 6;
}

night-IsLocal : IsLocal night
night-IsLocal = omega arith

abbrev blank : Cmos
blank = new_cmos 0

blank-IsValid : IsValid blank
unfolding new_cmos
blank-IsValid = omega arith

minutes_shown : load night 2 blank ≡ some 0x59
unfolding load run access cmos_write cmos_read data_value reg_value bin_to_bcd new_cmos
minutes_shown = refl

december_shown : load night 8 blank ≡ some 0x11
unfolding load run access cmos_write cmos_read data_value reg_value bin_to_bcd new_cmos
december_shown = refl

abbrev session : List Access
session = write 0x70 (0x8E ∷ []) 1 ∷ write 0x71 (7 ∷ []) 1 ∷ read night 0x71 (0 ∷ []) 1 ∷ []

run-IsValid_example : (c : Cmos) × (run session blank ≡ some c) × IsValid c
run-IsValid_example = run-IsValid session blank blank-IsValid

load-store_example :
    (c' : Cmos) × (store 0x40 7 blank ≡ some c')
    × ((now : Tm) (j : ℕ)
        → j < 128
        → load now j c' ≡ (if sticks 0x40 7 && j == 0x40 then some 7 else load now j blank))
load-store_example = load-store 0x40 7 blank blank-IsValid (omega arith)

bin_to_bcd-IsBcd_example : IsBcd (bin_to_bcd 59) 59
bin_to_bcd-IsBcd_example = bin_to_bcd-IsBcd 59 (omega arith)

load-clock_example :
    Shows night blank 0x00 58
    × Shows night blank 0x02 59
    × Shows night blank 0x04 23
    × Shows night blank 0x06 6
    × Shows night blank 0x07 2
    × Shows night blank 0x08 11
    × ((century year : ℕ) × Shows night blank 0x32 century
        × Shows night blank 0x09 year
        × (century * 100 + year ≡ 2023))
load-clock_example = load-clock night blank night-IsLocal

-- vCPU 1 stands between the guard and the store of a write while vCPU 0 reads the seconds.
abbrev storing_system : SharedCmos
storing_system = moved (at_rest blank) 1 (blank, storing 7)

-- Each of two vCPUs begins a write of the data port, and vCPU 0 comes to its store.
abbrev both_write : SharedCmos
both_write = solo 0 2 (moved (moved (at_rest blank) 0 (blank, storing 7)) 1 (blank, storing 9))

both_write-CmosReach : CmosReach (at_rest blank) both_write
unfolding enter new_cmos
both_write-CmosReach =
    CmosReach-solo 2 0
      (next (next here (begins 0 (put 7) none refl refl)) (begins 1 (put 9) none refl refl))

reach-IsValid_example : IsValid both_write.shared × ((i : ℕ) → both_write.stages i ≢ faulted)
reach-IsValid_example =
    reach-IsValid (at_rest blank) both_write blank-IsValid (λ i. (none, refl)) both_write-CmosReach

reach-access_example :
    (r : Reply Cmos) × (access (access_of (look night)) blank ≡ some r)
    × (r.ret ≡ pos 0)
    × (t : SharedCmos) × CmosReach storing_system t
    × (t.shared ≡ r.dev)
    × (t.stages 0 ≡ rest (heard_in (look night) r.buf))
    × ((j : ℕ) → j ≢ 0 → t.stages j ≡ storing_system.stages j)
reach-access_example = reach-access storing_system 0 (look night) none blank-IsValid refl

shutdown_guard-races_example :
    ((accesses : List Access) (c' : Cmos)
      → run accesses blank ≡ some c'
      → HoldsZero c'
      → HoldsZero blank)
    × (t : SharedCmos) × CmosReach (at_rest blank) t
    × ((i : ℕ) → t.stages i ≡ rest none)
    × HoldsZero t.shared
unfolding new_cmos
shutdown_guard-races_example = shutdown_guard-races blank blank-IsValid (λ e. cc e)
