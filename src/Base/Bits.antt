-- ===== src/Base/Bits.antt =====
-- `&` with a mask of consecutive ones, as arithmetic, and checks of every byte.
use Prim.Native.Nat.{
  ℕ, zero, suc, ◌+◌, ◌-◌, ◌*◌, ◌/◌, ◌%◌, ◌^◌, ◌≤◌, ◌<◌, min, max, digits, bit_and, bit_and-bitwise,
  bit_or, bit_or-bitwise,
}
use mathlib.Core.Path.{◌≡◌, refl, sym, ap, ◌∙◌}
use mathlib.Core.Bool.{Bool, true, ◌&&◌}
use native.Mathlib.Nat.{le_refl, pow-suc, one-le-pow, mul-one, div-one, div-div-eq-div-mul}
use native.Mathlib.Omega.{arith}

-- A statement about every byte is checked by evaluation, from 0 up to the bound.
unfoldable pub holds_below : ℕ → (ℕ → Bool) → Bool
holds_below zero test = true
holds_below (suc top) test = holds_below top test && test top

pub holds_below-elim :
    (top : ℕ) (test : ℕ → Bool) (n : ℕ) → holds_below top test ≡ true → n < top → test n ≡ true
unfolding holds_below
holds_below-elim zero test n all below = elim below [ ]
holds_below-elim (suc top) test n all below = ground (arith, holds_below-elim top test n)

-- The native operations are a recursion over binary digits, with fuel: any amount from `a` on serves.
module _ (last : ℕ → ℕ) (op : ℕ → ℕ → ℕ) where
  abbrev joined : ℕ → ℕ → ℕ → ℕ
  joined a b fuel = digits last op fuel a b

  one_more : (fuel a b : ℕ) → a ≤ fuel → joined a b (suc fuel) ≡ joined a b fuel
  one_more zero zero b enough = refl
  one_more zero (suc a) b enough = elim enough [ ]
  one_more (suc fuel) zero b enough = refl
  one_more (suc fuel) (suc a) b enough =
      let below : suc a / 2 ≤ fuel = omega arith in
      ap (λ high. high * 2 + op (suc a % 2) (b % 2)) (one_more fuel (suc a / 2) (b / 2) below)

  spare_fuel : (spare a b fuel : ℕ) → a ≤ fuel → joined a b (fuel + spare) ≡ joined a b fuel
  spare_fuel zero a b fuel enough = ap (joined a b) (omega arith)
  spare_fuel (suc spare) a b fuel enough =
      ap (joined a b) {y = suc (fuel + spare)} (omega arith)
      ∙ one_more (fuel + spare) a b (omega arith)
      ∙ spare_fuel spare a b fuel enough

  -- The fuel that half of `suc a` leaves over.
  half_fuel : (a b : ℕ) → joined (suc a / 2) (b / 2) a ≡ joined (suc a / 2) (b / 2) (suc a / 2)
  half_fuel a b =
      let half = suc a / 2 in
      let spare : half + (a - half) ≡ a = omega arith in
      sym (ap (joined half (b / 2)) spare) ∙ spare_fuel (a - half) half (b / 2) half (le_refl half)

-- The lowest digit, and the same of the halves.
pub bit_and-halves : (a b : ℕ) → bit_and a b ≡ 2 * bit_and (a / 2) (b / 2) + min (a % 2) (b % 2)
bit_and-halves zero b = simp bit_and-bitwise (omega arith)
bit_and-halves (suc a) b = omega (
  arith,
  bit_and-bitwise (suc a) b,
  bit_and-bitwise (suc a / 2) (b / 2),
  half_fuel (λ rest. 0) min a b,
)

pub bit_or-halves : (a b : ℕ) → bit_or a b ≡ 2 * bit_or (a / 2) (b / 2) + max (a % 2) (b % 2)
bit_or-halves zero b = simp bit_or-bitwise (omega arith)
bit_or-halves (suc a) b = omega (
  arith,
  bit_or-bitwise (suc a) b,
  bit_or-bitwise (suc a / 2) (b / 2),
  half_fuel (λ rest. rest) max a b,
)

or_nothing : (a below : ℕ) → a < below → bit_or a 0 ≡ a
or_nothing a zero h = elim h [ ]
or_nothing zero (suc below) h = bit_or-bitwise 0 0
or_nothing (suc a) (suc below) h =
    omega (arith, bit_or-halves (suc a) 0, or_nothing (suc a / 2) below (omega arith))

-- Setting the lowest bit.
pub bit_or-one : (a : ℕ) → bit_or a 1 ≡ 2 * (a / 2) + 1
bit_or-one a = omega (arith, bit_or-halves a 1, or_nothing (a / 2) (a / 2 + 1) (omega arith))

no_bits : (a below : ℕ) → a < below → bit_and a 0 ≡ 0
no_bits a zero h = elim h [ ]
no_bits zero (suc below) h = bit_and-bitwise 0 0
no_bits (suc a) (suc below) h =
    omega (arith, bit_and-halves (suc a) 0, no_bits (suc a / 2) below (omega arith))

pub bit_and-zero : (a : ℕ) → bit_and a 0 ≡ 0
bit_and-zero a = no_bits a (a + 1) (omega arith)

-- The mask of the `k` lowest bits.
abbrev pub ones : ℕ → ℕ
ones zero = 0
ones (suc k) = 2 * ones k + 1

bit_and-ones_split : (k q r : ℕ) → r < 2 ^ k → bit_and (q * 2 ^ k + r) (ones k) ≡ r
bit_and-ones_split zero q r h = omega (arith, bit_and-zero (q * 2 ^ 0 + r))
bit_and-ones_split (suc k) q r h = ground (
  arith,
  bit_and-halves (q * 2 ^ suc k + r) (ones (suc k)),
  ap (λ (t : ℕ). q * t) (pow-suc 2 k),
  pow-suc 2 k,
  bit_and-ones_split k q (r / 2) (omega (arith, pow-suc 2 k)),
)

-- Masking the `k` lowest bits is the remainder by `2 ^ k`.
pub bit_and-ones : (k a : ℕ) → bit_and a (ones k) ≡ a % 2 ^ k
bit_and-ones k a = ground (arith, one-le-pow k 2, bit_and-ones_split k (a / 2 ^ k) (a % 2 ^ k))

bit_and-even : (a m : ℕ) → bit_and a (2 * m) ≡ 2 * bit_and (a / 2) m
bit_and-even a m = ground (arith, bit_and-halves a (2 * m))

-- A mask whose `j` lowest bits are clear.
pub bit_and-shifted : (j m a : ℕ) → bit_and a (m * 2 ^ j) ≡ bit_and (a / 2 ^ j) m * 2 ^ j
bit_and-shifted zero m a = ground (arith, mul-one m, div-one a)
bit_and-shifted (suc j) m a = ground (
  arith,
  ap (λ (t : ℕ). m * t) (pow-suc 2 j),
  bit_and-even a (m * 2 ^ j),
  bit_and-shifted j m (a / 2),
  pow-suc 2 j,
  div-div-eq-div-mul a 2 (2 ^ j),
  ap (λ (t : ℕ). bit_and (a / 2 / 2 ^ j) m * t) (pow-suc 2 j),
)

-- `(a & mask) >> j` for a mask of `k` ones from bit `j` on.
pub bit_and-field : (j k a : ℕ) → bit_and a (ones k * 2 ^ j) ≡ a / 2 ^ j % 2 ^ k * 2 ^ j
bit_and-field j k a =
    bit_and-shifted j (ones k) a ∙ ap (λ t. t * 2 ^ j) (bit_and-ones k (a / 2 ^ j))
