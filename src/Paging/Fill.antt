-- ===== src/Paging/Fill.antt =====
-- What the two loops leave at every word of memory.
use lvmm.Base.{ℕ, zero, suc, ◌+◌, ◌*◌, ◌%◌, ◌^◌, ◌≤◌, ◌<◌, ◌≡◌, ◌⊎◌, refl, ◌∙◌, arith}
use lvmm.Paging.Defs.{Memory, store, fill_pdpte, fill_pde, page_size_4kb, page_size_2mb}

pub fill_pdpte-miss :
    (n i start v : ℕ) (mem : Memory) (a : ℕ)
    → (a < start + 8 * i) ⊎ (start + 8 * (i + n) ≤ a)
    → fill_pdpte n i start v mem a ≡ mem a
unfolding fill_pdpte
fill_pdpte-miss zero i start v mem a h = refl
fill_pdpte-miss (suc n) i start v mem a h =
    fill_pdpte-miss n (i + 1) start _ (store mem (start + 8 * i) _) a (ground arith) ∙ ground arith

pub fill_pde-miss :
    (n i start v : ℕ) (mem : Memory) (a : ℕ)
    → (a < start + 8 * i) ⊎ (start + 8 * (i + n) ≤ a)
    → fill_pde n i start v mem a ≡ mem a
unfolding fill_pde
fill_pde-miss zero i start v mem a h = refl
fill_pde-miss (suc n) i start v mem a h =
    fill_pde-miss n (i + 1) start _ (store mem (start + 8 * i) v) a (ground arith) ∙ ground arith

pub fill_pde-hit :
    (n i start v : ℕ) (mem : Memory) (k : ℕ)
    → k < n
    → v + page_size_2mb * n < 2 ^ 64
    → fill_pde n i start v mem (start + 8 * (i + k)) ≡ v + page_size_2mb * k
unfolding fill_pde
fill_pde-hit zero i start v mem k h b = elim h [ ]
fill_pde-hit (suc n) i start v mem zero h b =
    fill_pde-miss n (i + 1) start _ (store mem (start + 8 * i) v) (start + 8 * (i + 0))
      (ground arith)
    ∙ ground arith
fill_pde-hit (suc n) i start v mem (suc k) h b =
    let e : i + suc k ≡ i + 1 + k = omega arith in
    rw e (
      fill_pde-hit n (i + 1) start ((v + page_size_2mb) % 2 ^ 64) (store mem (start + 8 * i) v) k
        (omega arith) (omega arith)
      ∙ omega arith)

pub fill_pdpte-hit :
    (n i start v : ℕ) (mem : Memory) (k : ℕ)
    → k < n
    → v + page_size_4kb * n < 2 ^ 64
    → fill_pdpte n i start v mem (start + 8 * (i + k)) ≡ v + page_size_4kb * (k + 1)
unfolding fill_pdpte
fill_pdpte-hit zero i start v mem k h b = elim h [ ]
fill_pdpte-hit (suc n) i start v mem zero h b =
    fill_pdpte-miss n (i + 1) start _ (store mem (start + 8 * i) ((v + page_size_4kb) % 2 ^ 64))
      (start + 8 * (i + 0)) (ground arith)
    ∙ ground arith
fill_pdpte-hit (suc n) i start v mem (suc k) h b =
    let e : i + suc k ≡ i + 1 + k = omega arith in
    rw e (
      fill_pdpte-hit n (i + 1) start ((v + page_size_4kb) % 2 ^ 64)
        (store mem (start + 8 * i) ((v + page_size_4kb) % 2 ^ 64)) k (omega arith) (omega arith)
      ∙ omega arith)
