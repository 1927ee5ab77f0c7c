-- ===== src/Paging/Identity.antt =====
-- The tables map the first 4 GiB to themselves.
use lvmm.Base.{
  ℕ, ◌+◌, ◌*◌, ◌/◌, ◌%◌, ◌^◌, ◌≤◌, ◌<◌, ◌≡◌, ◌⊎◌, inl, inr, refl, sym, ap, ◌∙◌, arith,
  if◌then◌else◌, some, none, true, false, Bool-cases, ltb, ltb→lt,
}
use lvmm.Paging.Defs.{
  Memory, create_page_table, write_pml4, write_pdpt, write_pd, clear, page_size_4kb, pde_flags,
  table_flags,
}
use lvmm.Paging.Fill.{fill_pdpte-miss, fill_pdpte-hit, fill_pde-miss, fill_pde-hit}
use lvmm.Paging.Walk.{entry_at, frame, is_present, is_large, walk, walk_pdpt, walk_pd}

-- A page-aligned base that leaves room for the tables below the end of physical addresses.
abbrev pub IsBase : ℕ → Type 0
IsBase base = (base % 4096 ≡ 0) × (base + 0x6000 ≤ 2 ^ 51)

module _ (base : ℕ) (mem : Memory) (ok : IsBase base) where
  abbrev one : Memory
  one = write_pml4 base mem

  abbrev two : Memory
  two = write_pdpt base one

  pml4e : create_page_table base mem base ≡ base + 0x1013
  unfolding create_page_table write_pd write_pdpt write_pml4 clear
  pml4e =
      fill_pde-miss 2048 0 (base + 0x2000) pde_flags two base (inl (omega arith))
      ∙ fill_pdpte-miss 4 0 (base + 0x1000) ((table_flags + (base + page_size_4kb)) % 2 ^ 64) one
          base (inl (omega arith))
      ∙ ground arith

  pdpte :
      (k : ℕ)
      → k < 4
      → create_page_table base mem (base + 0x1000 + 8 * k) ≡ base + 0x2013 + 0x1000 * k
  unfolding create_page_table write_pd write_pdpt
  pdpte k h =
      let e : base + 0x1000 + 8 * (0 + k) ≡ base + 0x1000 + 8 * k = omega arith in
      fill_pde-miss 2048 0 (base + 0x2000) pde_flags two (base + 0x1000 + 8 * k) (inl (omega arith))
      ∙ ap two (sym e)
      ∙ fill_pdpte-hit 4 0 (base + 0x1000) ((table_flags + (base + page_size_4kb)) % 2 ^ 64) one k h
          (omega arith)
      ∙ omega arith

  pde :
      (k : ℕ) → k < 2048 → create_page_table base mem (base + 0x2000 + 8 * k) ≡ 0x183 + 0x200000 * k
  unfolding create_page_table write_pd
  pde k h =
      let e : base + 0x2000 + 8 * (0 + k) ≡ base + 0x2000 + 8 * k = omega arith in
      ap (create_page_table base mem) (sym e)
      ∙ fill_pde-hit 2048 0 (base + 0x2000) pde_flags two k h (omega arith)

  -- The rest of the PML4 and of the PDPT is empty.
  empty :
      (a : ℕ)
      → (base < a) × (a < base + 0x1000) ⊎ (base + 0x1020 ≤ a) × (a < base + 0x2000)
      → create_page_table base mem a ≡ 0
  unfolding create_page_table write_pd write_pdpt write_pml4 clear
  empty a h =
      fill_pde-miss 2048 0 (base + 0x2000) pde_flags two a (ground arith)
      ∙ fill_pdpte-miss 4 0 (base + 0x1000) ((table_flags + (base + page_size_4kb)) % 2 ^ 64) one a
          (ground arith)
      ∙ ground arith

  -- createPageTable changes nothing outside its 6 pages.
  create_page_table-frame :
      (a : ℕ) → (a < base) ⊎ (base + 0x6000 ≤ a) → create_page_table base mem a ≡ mem a
  unfolding create_page_table write_pd write_pdpt write_pml4 clear
  create_page_table-frame a h =
      fill_pde-miss 2048 0 (base + 0x2000) pde_flags two a (ground arith)
      ∙ fill_pdpte-miss 4 0 (base + 0x1000) ((table_flags + (base + page_size_4kb)) % 2 ^ 64) one a
          (ground arith)
      ∙ ground arith

  abbrev tables : Memory
  tables = create_page_table base mem

  pd_maps :
      (la : ℕ) → la < 2 ^ 32 → walk_pd tables (base + 0x2000 + 0x1000 * (la / 2 ^ 30)) la ≡ some la
  unfolding walk_pd
  pd_maps la h =
      let e : entry_at tables (base + 0x2000 + 0x1000 * (la / 2 ^ 30)) 21 la
          ≡ 0x183 + 0x200000 * (la / 2 ^ 21) =
        ap tables (omega arith) ∙ pde (la / 2 ^ 21) (omega arith) in
      let p : is_present (0x183 + 0x200000 * (la / 2 ^ 21)) ≡ true = ground arith in
      let l : is_large (0x183 + 0x200000 * (la / 2 ^ 21)) ≡ true = ground arith in
      rw (e, p, l) (ap some (omega arith))

  pdpt_maps : (la : ℕ) → la < 2 ^ 32 → walk_pdpt tables (base + 0x1000) la ≡ some la
  unfolding walk_pdpt
  pdpt_maps la h =
      let e : entry_at tables (base + 0x1000) 30 la ≡ base + 0x2013 + 0x1000 * (la / 2 ^ 30) =
        ap tables (omega arith) ∙ pdpte (la / 2 ^ 30) (omega arith) in
      let p : is_present (base + 0x2013 + 0x1000 * (la / 2 ^ 30)) ≡ true = ground arith in
      let l : is_large (base + 0x2013 + 0x1000 * (la / 2 ^ 30)) ≡ false = ground arith in
      rw (e, p, l) (ap (λ t. walk_pd tables t la) (omega arith) ∙ pd_maps la h)

  pdpt_faults : (la : ℕ) → 2 ^ 32 ≤ la → la < 2 ^ 39 → walk_pdpt tables (base + 0x1000) la ≡ none
  unfolding walk_pdpt
  pdpt_faults la h g =
      let e : entry_at tables (base + 0x1000) 30 la ≡ 0 =
        empty _ (inr (omega arith, omega arith)) in
      rw e refl

  walk_low : (la : ℕ) → la < 2 ^ 39 → walk tables base la ≡ walk_pdpt tables (base + 0x1000) la
  unfolding walk
  walk_low la h =
      let e : entry_at tables (frame 12 base) 39 la ≡ base + 0x1013 =
        ap tables (omega arith) ∙ pml4e in
      let p : is_present (base + 0x1013) ≡ true = ground arith in
      rw (e, p) (ap (λ t. walk_pdpt tables t la) (omega arith))

  walk_high : (la : ℕ) → 2 ^ 39 ≤ la → la < 2 ^ 48 → walk tables base la ≡ none
  unfolding walk
  walk_high la h g =
      let e : entry_at tables (frame 12 base) 39 la ≡ 0 =
        empty _ (inl (omega arith, omega arith)) in
      rw e refl

  -- With a page-aligned base and tables that end at 2^51 or below, the tables that createPageTable
  -- writes, whatever the memory held, send each linear address below 4 GiB to itself, and every
  -- other below 2^48 to a page fault, in a 4-level walk from that base.
  pub walk-create_page_table :
      (la : ℕ)
      → la < 2 ^ 48
      → walk (create_page_table base mem) base la ≡ (if ltb la (2 ^ 32) then some la else none)
  walk-create_page_table la h = elim (Bool-cases (ltb la (2 ^ 32))) [
    | inl e ↦
        rw e
          (walk_low la (omega (arith, ltb→lt la (2 ^ 32) e)) ∙ pdpt_maps la (ltb→lt la (2 ^ 32) e))
    | inr e ↦ elim (Bool-cases (ltb la (2 ^ 39))) [
      | inl f ↦ rw e (
          walk_low la (ltb→lt la (2 ^ 39) f) ∙ pdpt_faults la (ground arith) (ltb→lt la (2 ^ 39) f))
      | inr f ↦ rw e (walk_high la (ground arith) h)
    ]
  ]
