-- ===== src/Paging/Defs.antt =====
-- `createPageTable` over guest memory, and the constants of include/paging.hpp.
use lvmm.Base.{ℕ, zero, suc, ◌+◌, ◌*◌, ◌%◌, ◌^◌, ◌&&◌, ltb, leb, ◌==◌, if◌then◌else◌, bit_or}

abbrev pub page_flag_p : ℕ
page_flag_p = 1

abbrev pub page_flag_rw : ℕ
page_flag_rw = 2 ^ 1

abbrev pub page_flag_pcd : ℕ
page_flag_pcd = 2 ^ 4

abbrev pub page_flag_ps : ℕ
page_flag_ps = 2 ^ 7

abbrev pub page_flag_g : ℕ
page_flag_g = 2 ^ 8

abbrev pub page_size_4kb : ℕ
page_size_4kb = 2 ^ 12

abbrev pub page_size_2mb : ℕ
page_size_2mb = 2 ^ 21

abbrev pub boot_pagetable_size : ℕ
boot_pagetable_size = page_size_4kb * 6

abbrev pub boot_pdpte_num : ℕ
boot_pdpte_num = 4

abbrev pub boot_pde_num : ℕ
boot_pde_num = 2048

-- Guest memory by its 8-byte words, each at the guest address of its first byte.
abbrev pub Memory : Type 0
Memory = ℕ → ℕ

abbrev pub store : Memory → ℕ → ℕ → Memory
store mem at value = λ a. if a == at then value else mem a

-- `memset` to 0.
unfoldable pub clear : Memory → ℕ → ℕ → Memory
clear mem start size = λ a. if leb start a && ltb a (start + size) then 0 else mem a

-- The loop over the PDPTEs from `i` on, which adds a page before each store.
unfoldable pub fill_pdpte : ℕ → ℕ → ℕ → ℕ → Memory → Memory
fill_pdpte zero i start pdpte mem = mem
fill_pdpte (suc n) i start pdpte mem =
    let next = (pdpte + page_size_4kb) % 2 ^ 64 in
    fill_pdpte n (i + 1) start next (store mem (start + 8 * i) next)

-- The loop over the PDEs from `i` on, which adds a page of 2 MiB behind each store.
unfoldable pub fill_pde : ℕ → ℕ → ℕ → ℕ → Memory → Memory
fill_pde zero i start pde mem = mem
fill_pde (suc n) i start pde mem =
    fill_pde n (i + 1) start ((pde + page_size_2mb) % 2 ^ 64) (store mem (start + 8 * i) pde)

abbrev pub table_flags : ℕ
table_flags = bit_or (bit_or page_flag_pcd page_flag_rw) page_flag_p

abbrev pub pde_flags : ℕ
pde_flags = bit_or (bit_or (bit_or page_flag_g page_flag_ps) page_flag_rw) page_flag_p

-- The memory cleared, and the one PML4E in it.
unfoldable pub write_pml4 : ℕ → Memory → Memory
write_pml4 base mem =
    store (clear mem base boot_pagetable_size) base
      ((table_flags + (base + page_size_4kb)) % 2 ^ 64)

unfoldable pub write_pdpt : ℕ → Memory → Memory
write_pdpt base mem =
    fill_pdpte boot_pdpte_num 0 (base + page_size_4kb)
      ((table_flags + (base + page_size_4kb)) % 2 ^ 64) mem

unfoldable pub write_pd : ℕ → Memory → Memory
write_pd base mem = fill_pde boot_pde_num 0 (base + page_size_4kb * 2) pde_flags mem

unfoldable pub create_page_table : ℕ → Memory → Memory
create_page_table base mem = write_pd base (write_pdpt base (write_pml4 base mem))
