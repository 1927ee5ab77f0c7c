-- ===== src/Boot/Memory.antt =====
-- Guest memory by bytes, as large as the mapping of allocGuestRAM.
use lvmm.Base.{
  ℕ, zero, suc, ◌+◌, ◌≤◌, ◌<◌, ◌≡◌, ◌⊎◌, refl, ap, ◌∙◌, List, [], ◌∷◌, Option, none, some, leb,
  ◌==◌, if◌then◌else◌, length, arith,
}

pub record Ram : Type 0 where
  pub size : ℕ
  pub byte : ℕ → ℕ

-- The bytes of memory with a sequence copied to `at`.
abbrev pub place : (ℕ → ℕ) → ℕ → List ℕ → ℕ → ℕ
place mem at [] a = mem a
place mem at (b ∷ bs) a = let rest = place mem (at + 1) bs a in if a == at then b else rest

-- A copy into memory; `none` leaves the mapping.
unfoldable pub copy_to : Ram → ℕ → List ℕ → Option Ram
copy_to ram at bs =
    if leb (at + length bs) ram.size
    then some (record ram { byte = place ram.byte at bs })
    else none

-- The `n` bytes at `at`.
abbrev pub load : (ℕ → ℕ) → ℕ → ℕ → List ℕ
load mem at zero = []
load mem at (suc n) = mem at ∷ load mem (at + 1) n

pub place-miss :
    (mem : ℕ → ℕ) (at : ℕ) (bs : List ℕ) (a : ℕ)
    → (a < at) ⊎ (at + length bs ≤ a)
    → place mem at bs a ≡ mem a
place-miss mem at [] a h = refl
place-miss mem at (b ∷ bs) a h = ground (arith, place-miss mem (at + 1) bs a (ground arith))

load_ext :
    (f g : ℕ → ℕ) (at n : ℕ)
    → ((a : ℕ) → at ≤ a → a < at + n → f a ≡ g a)
    → load f at n ≡ load g at n
load_ext f g at zero h = refl
load_ext f g at (suc n) h =
    rw
      (
        h at (omega arith) (omega arith),
        load_ext f g (at + 1) n (λ a p q. h a (omega arith) (omega arith)),
      )
      refl

pub load-miss :
    (mem : ℕ → ℕ) (at : ℕ) (bs : List ℕ) (from n : ℕ)
    → (from + n ≤ at) ⊎ (at + length bs ≤ from)
    → load (place mem at bs) from n ≡ load mem from n
load-miss mem at bs from n h =
    load_ext (place mem at bs) mem from n (λ a p q. place-miss mem at bs a (ground arith))

pub load-place : (mem : ℕ → ℕ) (at : ℕ) (bs : List ℕ) → load (place mem at bs) at (length bs) ≡ bs
load-place mem at [] = refl
load-place mem at (b ∷ bs) =
    let first_byte : place mem at (b ∷ bs) at ≡ b = ground arith in
    let others : load (place mem at (b ∷ bs)) (at + 1) (length bs) ≡ bs =
      load_ext (place mem at (b ∷ bs)) (place mem (at + 1) bs) (at + 1) (length bs)
        (λ a p q. ground arith)
      ∙ load-place mem (at + 1) bs in
    rw first_byte (ap (λ xs. b ∷ xs) others)

-- A copy that fits.
pub copy_to_fits :
    (ram : Ram) (at : ℕ) (bs : List ℕ)
    → at + length bs ≤ ram.size
    → copy_to ram at bs ≡ some (record ram { byte = place ram.byte at bs })
unfolding copy_to
copy_to_fits ram at bs h = ground arith
