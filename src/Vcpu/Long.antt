-- ===== src/Vcpu/Long.antt =====
-- The registers of a 64-bit boot, and the page table that goes with them.
use lvmm.Base.{ℕ, ◌/◌, ◌-◌, ◌^◌, ◌≡◌, ◌<◌, refl, true, pos, arith, some, ltb_lt}
use lvmm.Ioctl.{result}
use lvmm.Paging.{Memory, create_page_table, walk, walk-create_page_table}
use lvmm.Vcpu.Defs.{Sregs, init_sregs, sregs_64, boot_pagetable_base}

-- Where both calls succeed, the registers that InitSregs sets for a 64-bit boot point at the tables
-- that createPageTable writes at BOOT_PAGETABLE_BASE, which map every address below 4 GiB to itself;
-- but they set all of the bits 63 to 32 of CR0, which the processor reserves.
pub init_sregs-long :
    (got put : ℕ) (held : Sregs) (mem : Memory) (la : ℕ)
    → la < 2 ^ 32
    → (sregs : Sregs) × (init_sregs (result got) (result put) true held ≡ (sregs, pos 0))
      × (walk (create_page_table boot_pagetable_base mem) sregs.cr3 la ≡ some la)
      × (sregs.cr0 / 2 ^ 32 ≡ 2 ^ 32 - 1)
unfolding init_sregs sregs_64
init_sregs-long got put held mem la h = (
  sregs_64 held,
  refl,
  rw (ltb_lt la (2 ^ 32) h) at
      (walk-create_page_table boot_pagetable_base mem (refl, omega arith) la (omega arith)),
  refl,
)
