-- ===== src/Setup/Layout.antt =====
-- The places in the guest's physical memory that `initMachine` hands to KVM.
use lvmm.Base.{ℕ, ◌+◌, ◌*◌, ◌≤◌, ◌<◌, ◌⊎◌, arith}
use lvmm.Boot.{Config}
use lvmm.Mp.{apic_base}
use lvmm.Setup.Defs.{tss_base, identity_map_base, Region, region_of}

abbrev InRegion : Region → ℕ → Type 0
InRegion r a = (r.guest_phys_addr ≤ a) × (a < r.guest_phys_addr + r.memory_size)

-- KVM's three pages of the TSS, its page of the identity map, and the page of the local APIC.
abbrev InKvm : ℕ → Type 0
InKvm a =
    (tss_base ≤ a) × (a < tss_base + 3 * 0x1000)
    ⊎ (identity_map_base ≤ a) × (a < identity_map_base + 0x1000)
    ⊎ (apic_base ≤ a) × (a < apic_base + 0x1000)

-- As long as the guest's memory ends at TSS_BASE or below, it holds no address of the pages that KVM
-- has for itself.
pub region_of-apart :
    (c : Config) (a : ℕ) → c.ram_size ≤ tss_base → InRegion (region_of c) a → ¬ InKvm a
unfolding region_of
region_of-apart c a h inside kvm = ground arith

-- The three places do not overlap either.
pub tss_base-apart :
    (a : ℕ)
    → (tss_base ≤ a) × (a < tss_base + 3 * 0x1000)
    → ¬ ((identity_map_base ≤ a) × (a < identity_map_base + 0x1000))
tss_base-apart a t i = omega arith
