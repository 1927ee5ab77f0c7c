-- ===== src/Mp/Checksum.antt =====
-- The checksums make the bytes of each structure sum to a multiple of 256.
use Prim.Native.Nat.{bit_xor}
use lvmm.Base.{
  ℕ, ◌+◌, ◌-◌, ◌%◌, ◌≤◌, ◌<◌, ◌≡◌, refl, true, List, [], ◌∷◌, some, ◌==◌, arith, byte_sum, ==_iff,
  ◌∙◌,
}
use lvmm.Base.Bits.{holds_below, holds_below-elim}
use lvmm.Mp.Processors.{ebda_for, gen_ebda_lem, table_for}
use lvmm.Mp.Structs.{mpfps_bytes, mpctable_bytes, header_before, header_after}
use lvmm.Mp.Defs.{
  calc_from, mp_calc_checksum, mp_gen_checksum, is_mp_checksum_valid, Ebda, gen_ebda, fps_of_ebda,
}

calc_from_lem :
    (checksum : ℕ) (bytes : List ℕ)
    → checksum < 256
    → calc_from checksum bytes ≡ (checksum + byte_sum bytes) % 256
unfolding calc_from
calc_from_lem checksum [] h = omega arith
calc_from_lem checksum (b ∷ bs) h =
    omega (arith, calc_from_lem ((checksum + b) % 256) bs (omega arith))

-- The loop of the checksum computes the sum of the bytes modulo 256.
pub mp_calc_checksum_lem : (bytes : List ℕ) → mp_calc_checksum bytes ≡ byte_sum bytes % 256
unfolding mp_calc_checksum
mp_calc_checksum_lem bytes = calc_from_lem 0 bytes (omega arith) ∙ omega arith

complement_table : holds_below 256 (λ x. bit_xor x 0xFF == 255 - x) ≡ true
unfolding holds_below
complement_table = refl

complement : (x : ℕ) → x < 256 → bit_xor x 0xFF ≡ 255 - x
complement x h =
    (==_iff _ _).0 (holds_below-elim 256 (λ x. bit_xor x 0xFF == 255 - x) x complement_table h)

mp_gen_checksum_lem : (bytes : List ℕ) → (mp_gen_checksum bytes + byte_sum bytes) % 256 ≡ 0
unfolding mp_gen_checksum
mp_gen_checksum_lem bytes =
    let e = mp_calc_checksum_lem bytes in
    rw e (omega (arith, complement (byte_sum bytes % 256) (omega arith)))

valid_of_sum : (bytes : List ℕ) → byte_sum bytes % 256 ≡ 0 → is_mp_checksum_valid bytes ≡ true
unfolding is_mp_checksum_valid
valid_of_sum bytes h = rw (mp_calc_checksum_lem bytes, h) refl

-- A structure whose checksum counts once in its sum is valid with the checksum generated over 0.
is_mp_checksum_valid-gen :
    (bytes_of : ℕ → List ℕ) (rest : ℕ)
    → ((c : ℕ) → byte_sum (bytes_of c) ≡ c % 256 + rest)
    → is_mp_checksum_valid (bytes_of (mp_gen_checksum (bytes_of 0))) ≡ true
is_mp_checksum_valid-gen bytes_of rest h =
    valid_of_sum _
      (omega (arith, h (mp_gen_checksum (bytes_of 0)), h 0, mp_gen_checksum_lem (bytes_of 0)))

fps_sum :
    (c : ℕ)
    → byte_sum (mpfps_bytes (record fps_of_ebda { checksum = c }))
      ≡ c % 256 + byte_sum (mpfps_bytes fps_of_ebda)
unfolding mpfps_bytes
fps_sum c = omega arith

table_sum :
    (n c : ℕ)
    → byte_sum (mpctable_bytes (record (table_for n) { checksum = c }))
      ≡ c % 256 + byte_sum (mpctable_bytes (table_for n))
unfolding mpctable_bytes header_before header_after
table_sum n c = omega arith

fps_valid : is_mp_checksum_valid (mpfps_bytes (ebda_for 0).fps) ≡ true
fps_valid =
    is_mp_checksum_valid-gen (λ c. mpfps_bytes (record fps_of_ebda { checksum = c }))
      (byte_sum (mpfps_bytes fps_of_ebda)) fps_sum

table_valid : (n : ℕ) → is_mp_checksum_valid (mpctable_bytes (ebda_for n).ctable) ≡ true
table_valid n =
    is_mp_checksum_valid-gen (λ c. mpctable_bytes (record (table_for n) { checksum = c }))
      (byte_sum (mpctable_bytes (table_for n))) (table_sum n)

-- For at most 32 vCPUs gen_ebda succeeds, and the bytes of the floating pointer structure and of
-- the configuration table both pass the validity test.
pub gen_ebda-valid :
    (n : ℕ)
    → n ≤ 32
    → (e : Ebda) × (gen_ebda n ≡ some e)
      × (is_mp_checksum_valid (mpfps_bytes e.fps) ≡ true)
      × (is_mp_checksum_valid (mpctable_bytes e.ctable) ≡ true)
gen_ebda-valid n h = (ebda_for n, gen_ebda_lem n h, fps_valid, table_valid n)
