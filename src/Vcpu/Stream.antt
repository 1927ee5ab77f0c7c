-- ===== src/Vcpu/Stream.antt =====
-- The text that `std::cout` makes of what is put into it, with the base and the fill character that
-- its manipulators set.
use Prim.Native.Char.{code}
use Prim.Native.String.{String}
use lvmm.Base.{
  ℕ, zero, suc, ◌+◌, ◌-◌, ◌/◌, ◌%◌, List, [], ◌∷◌, ◌++◌, ltb, truthy, bit_and, if◌then◌else◌,
  length, replicate,
}

abbrev pub codes : String → List ℕ
codes String.[] = []
codes (String.◌∷◌ c s) = code c ∷ codes s

-- What is put into the stream: a text, a number in a field of some width, or a manipulator.
pub data Item : Type 0 where
  text : String → Item
  number : ℕ → ℕ → Item
  base fill : ℕ → Item
  eol : Item

abbrev pub Items : Type 0
Items = List Item

pub record Stream : Type 0 where
  pub radix : ℕ
  pub pad : ℕ

abbrev pub digit : ℕ → ℕ
digit d = if ltb d 10 then b'0' + d else b'a' + (d - 10)

-- The digits of a number, without leading zeros; `fuel` bounds their count.
abbrev pub digits_of : ℕ → ℕ → ℕ → List ℕ
digits_of zero radix n = []
digits_of (suc fuel) radix n =
    let rest = digits_of fuel radix (n / radix) in
    if ltb n radix then digit n ∷ [] else rest ++ digit (n % radix) ∷ []

-- A number below 2^64 has 20 digits at most.
unfoldable pub padded : Stream → ℕ → ℕ → List ℕ
padded s width n = let ds = digits_of 20 s.radix n in replicate (width - length ds) s.pad ++ ds

unfoldable pub after : Stream → Item → Stream
after s (base b) = record s { radix = b }
after s (fill c) = record s { pad = c }
after s i = s

unfoldable pub put : Stream → Item → List ℕ
unfolding padded
put s (text t) = codes t
put s (number width n) = padded s width n
put s (base b) = []
put s (fill c) = []
put s eol = 10 ∷ []

unfoldable pub printed : Stream → Items → List ℕ
unfolding put after
printed s [] = []
printed s (i ∷ is) = put s i ++ printed (after s i) is

unfoldable pub left : Stream → Items → Stream
unfolding after
left s [] = s
left s (i ∷ is) = left (after s i) is

-- `(v ? "1 " : "0 ")`, `(v & mask ? "1 " : "0 ")`, and the same before the end of a line.
abbrev pub truth : ℕ → Item
truth v = text (if truthy v then "1 " else "0 ")

abbrev pub flag : ℕ → ℕ → Item
flag v mask = truth (bit_and v mask)

abbrev pub truth_end : ℕ → Item
truth_end v = text (if truthy v then "1" else "0")

abbrev pub flag_end : ℕ → ℕ → Item
flag_end v mask = truth_end (bit_and v mask)
