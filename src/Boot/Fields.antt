-- ===== src/Boot/Fields.antt =====
-- The bytes of the header are read and written back unchanged.
use mathlib.Core.List.{append-nil}
use lvmm.Base.{
  ℕ, zero, suc, ◌+◌, ◌*◌, ◌/◌, ◌%◌, ◌≤◌, ◌≡◌, refl, sym, ap, ◌∙◌, List, [], ◌∷◌, ◌++◌, length,
  length-drop, take, drop, le_bytes, le_word, IsBytes, arith,
}
use lvmm.Boot.Header.{setup_header_size, field, read_header, header_bytes}

le_bytes-le_word :
    (w : ℕ) (bs : List ℕ)
    → IsBytes bs
    → w ≤ length bs
    → le_bytes w (le_word (take w bs)) ≡ take w bs
le_bytes-le_word zero bs b h = refl
le_bytes-le_word (suc w) [] b h = elim h [ ]
le_bytes-le_word (suc w) (x ∷ bs) b h =
    let low : (x + 256 * le_word (take w bs)) % 256 ≡ x = omega arith in
    let high : (x + 256 * le_word (take w bs)) / 256 ≡ le_word (take w bs) = omega arith in
    rw (low, high) (ap (λ ys. x ∷ ys) (le_bytes-le_word w bs b.1 (omega arith)))

drop-IsBytes : (o : ℕ) (bs : List ℕ) → IsBytes bs → IsBytes (drop o bs)
drop-IsBytes zero bs b = b
drop-IsBytes (suc o) [] b = tt
drop-IsBytes (suc o) (x ∷ bs) b = drop-IsBytes o bs b.1

take-drop : (w : ℕ) (bs : List ℕ) → take w bs ++ drop w bs ≡ bs
take-drop zero bs = refl
take-drop (suc w) [] = refl
take-drop (suc w) (x ∷ bs) = ap (λ ys. x ∷ ys) (take-drop w bs)

drop-drop : (o w : ℕ) (bs : List ℕ) → drop w (drop o bs) ≡ drop (o + w) bs
drop-drop zero w bs = ap (λ k. drop k bs) (omega arith)
drop-drop (suc o) zero [] = let e : suc o + 0 ≡ suc (o + 0) = omega arith in rw e refl
drop-drop (suc o) (suc w) [] = let e : suc o + suc w ≡ suc (o + suc w) = omega arith in rw e refl
drop-drop (suc o) w (x ∷ bs) =
    let e : suc o + w ≡ suc (o + w) = omega arith in rw e (drop-drop o w bs)

drop_all : (bs : List ℕ) → drop (length bs) bs ≡ []
drop_all [] = refl
drop_all (x ∷ bs) = drop_all bs

-- A field, followed by what stands behind it.
step :
    (bs : List ℕ) (o w : ℕ) {rest : List ℕ}
    → IsBytes bs
    → o + w ≤ length bs
    → rest ≡ drop (o + w) bs
    → le_bytes w (field w o bs) ++ rest ≡ drop o bs
step bs o w {rest} b h e =
    ap (λ xs. xs ++ rest)
      (le_bytes-le_word w (drop o bs) (drop-IsBytes o bs b) (omega (arith, length-drop o bs)))
    ∙ ap (λ xs. take w (drop o bs) ++ xs) (e ∙ sym (drop-drop o w bs))
    ∙ take-drop w (drop o bs)

-- The last field.
last :
    (bs : List ℕ) (o w : ℕ) → IsBytes bs → o + w ≡ length bs → le_bytes w (field w o bs) ≡ drop o bs
last bs o w b h =
    sym (append-nil (le_bytes w (field w o bs)))
    ∙ step bs o w b (omega arith) (sym (drop_all bs) ∙ ap (λ k. drop k bs) (sym h))

-- The header that is read over 123 bytes is written back as the same bytes.
pub header_bytes-read_header :
    (bs : List ℕ) → IsBytes bs → length bs ≡ setup_header_size → header_bytes (read_header bs) ≡ bs
unfolding header_bytes read_header
header_bytes-read_header bs b h = step bs 0 1 b (omega arith) (
    step bs 1 2 b (omega arith) (
      step bs 3 4 b (omega arith) (
        step bs 7 2 b (omega arith) (
          step bs 9 2 b (omega arith) (
            step bs 11 2 b (omega arith) (
              step bs 13 2 b (omega arith) (
                step bs 15 2 b (omega arith) (
                  step bs 17 4 b (omega arith) (
                    step bs 21 2 b (omega arith) (
                      step bs 23 4 b (omega arith) (
                        step bs 27 2 b (omega arith) (
                          step bs 29 2 b (omega arith) (
                            step bs 31 1 b (omega arith) (
                              step bs 32 1 b (omega arith) (
                                step bs 33 2 b (omega arith) (
                                  step bs 35 4 b (omega arith) (
                                    step bs 39 4 b (omega arith) (
                                      step bs 43 4 b (omega arith) (
                                        step bs 47 4 b (omega arith) (
                                          step bs 51 2 b (omega arith) (
                                            step bs 53 1 b (omega arith) (
                                              step bs 54 1 b (omega arith) (
                                                step bs 55 4 b (omega arith) (
                                                  step bs 59 4 b (omega arith) (
                                                    step bs 63 4 b (omega arith) (
                                                      step bs 67 1 b (omega arith) (
                                                        step bs 68 1 b (omega arith) (
                                                          step bs 69 2 b (omega arith) (
                                                            step bs 71 4 b (omega arith) (
                                                            step bs 75 4 b (omega arith) (
                                                            step bs 79 8 b (omega arith) (
                                                            step bs 87 4 b (omega arith) (
                                                            step bs 91 4 b (omega arith) (
                                                            step bs 95 8 b (omega arith) (
                                                            step bs 103 8 b (omega arith) (
                                                            step bs 111 4 b (omega arith) (
                                                            step bs 115 4 b (omega arith) (
                                                            last bs 119 4 b (
                                                            omega
                                                            arith)))))))))))))))))))))))))))))))))))))))
