-- ===== src/Paging/Walk.antt =====
-- The walk that a processor with 4-level paging makes, by Intel's manual: the reference for the
-- tables that the source writes.
use lvmm.Base.{ℕ, ◌+◌, ◌-◌, ◌*◌, ◌/◌, ◌%◌, ◌^◌, Bool, Option, none, some, ◌==◌, if◌then◌else◌}
use lvmm.Paging.Defs.{Memory}

-- Bits 0 and 7 of an entry.
abbrev pub is_present : ℕ → Bool
is_present e = e % 2 == 1

abbrev pub is_large : ℕ → Bool
is_large e = e / 2 ^ 7 % 2 == 1

-- The address in bits 51 to `w` of an entry.
abbrev pub frame : ℕ → ℕ → ℕ
frame w e = e / 2 ^ w % 2 ^ (52 - w) * 2 ^ w

-- The entry for a linear address in the table at `t`, by the 9 bits of the address from `w` on.
abbrev pub entry_at : Memory → ℕ → ℕ → ℕ → ℕ
entry_at mem t w la = mem (t + 8 * (la / 2 ^ w % 2 ^ 9))

unfoldable pub walk_pt : Memory → ℕ → ℕ → Option ℕ
walk_pt mem t la =
    let e = entry_at mem t 12 la in if is_present e then some (frame 12 e + la % 2 ^ 12) else none

unfoldable pub walk_pd : Memory → ℕ → ℕ → Option ℕ
walk_pd mem t la =
    let e = entry_at mem t 21 la in
    if is_present e
    then if is_large e then some (frame 21 e + la % 2 ^ 21) else walk_pt mem (frame 12 e) la
    else none

unfoldable pub walk_pdpt : Memory → ℕ → ℕ → Option ℕ
walk_pdpt mem t la =
    let e = entry_at mem t 30 la in
    if is_present e
    then if is_large e then some (frame 30 e + la % 2 ^ 30) else walk_pd mem (frame 12 e) la
    else none

-- The physical address of a linear address; `none` is a page fault.
unfoldable pub walk : Memory → ℕ → ℕ → Option ℕ
walk mem cr3 la =
    let e = entry_at mem (frame 12 cr3) 39 la in
    if is_present e then walk_pdpt mem (frame 12 e) la else none
