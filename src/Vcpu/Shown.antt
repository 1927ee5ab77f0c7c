-- ===== src/Vcpu/Shown.antt =====
-- What the dumps show.
use native.Mathlib.Nat.{
  pow-suc, pow-zero, zero-mul, mul_comm, div-lt_iff_lt-mul, mod-lt, div-add-mod,
}
use mathlib.Core.List.{append_assoc}
use Prim.Native.String.{String}
use lvmm.Base.{
  ℕ, zero, suc, ◌+◌, ◌-◌, ◌*◌, ◌/◌, ◌%◌, ◌^◌, ◌≤◌, ◌<◌, ◌≡◌, refl, sym, ap, ◌∙◌, List, [], ◌∷◌,
  ◌++◌, Bool-cases, inl, inr, ltb, if◌then◌else◌, length, replicate, drop, arith,
}
use lvmm.Ioctl.{result}
use lvmm.Vcpu.Defs.{Sregs}
use lvmm.Vcpu.Stream.{
  text, number, fill, Items, Stream, codes, digit, digits_of, padded, put, after, printed, left,
}
use lvmm.Vcpu.DumpSregs.{
  dump_segment_descriptor, dump_descriptor_table, tables_items, control_items, dump_sregs,
}

-- A digit and a row of digits, read to a base.
abbrev pub digit_value : ℕ → ℕ
digit_value c = if ltb c b'a' then c - b'0' else c - b'a' + 10

abbrev pub value_of : ℕ → ℕ → List ℕ → ℕ
value_of radix acc [] = acc
value_of radix acc (c ∷ cs) = value_of radix (acc * radix + digit_value c) cs

value_of-append :
    (radix acc : ℕ) (xs ys : List ℕ)
    → value_of radix acc (xs ++ ys) ≡ value_of radix (value_of radix acc xs) ys
value_of-append radix acc [] ys = refl
value_of-append radix acc (c ∷ xs) ys = value_of-append radix (acc * radix + digit_value c) xs ys

digit_value-digit : (d : ℕ) → d < 16 → digit_value (digit d) ≡ d
digit_value-digit d h = ground arith

value_of-zeros :
    (radix n acc : ℕ) (cs : List ℕ)
    → acc ≡ 0
    → value_of radix acc (replicate n b'0' ++ cs) ≡ value_of radix 0 cs
value_of-zeros radix zero acc cs h = ap (λ a. value_of radix a cs) h
value_of-zeros radix (suc n) acc cs h =
    value_of-zeros radix n (acc * radix + 0) cs
      (ap (λ a. a * radix + 0) h ∙ ap (λ a. a + 0) (zero-mul radix))

module _ (radix : ℕ) (some_base : zero < radix) (small : radix ≤ 16) where
  value_of-digits_of :
      (fuel n : ℕ) → n < radix ^ fuel → value_of radix 0 (digits_of fuel radix n) ≡ n
  value_of-digits_of zero n h = omega (arith, pow-zero radix)
  value_of-digits_of (suc fuel) n h = elim (Bool-cases (ltb n radix)) [
    | inl e ↦ rw e (ground (arith, digit_value-digit n))
    | inr e ↦
        let shorter : n / radix < radix ^ fuel =
          (div-lt_iff_lt-mul some_base).1 (omega (arith, pow-suc radix fuel)) in
        let last : digit_value (digit (n % radix)) ≡ n % radix =
          digit_value-digit (n % radix) (omega (arith, mod-lt n some_base)) in
        rw
          (
            e,
            value_of-append radix 0 (digits_of fuel radix (n / radix)) (digit (n % radix) ∷ []),
            last,
          )
          (ap (λ q. q * radix + n % radix) (value_of-digits_of fuel (n / radix) shorter)
            ∙ ap (λ q. q + n % radix) (mul_comm (n / radix) radix)
            ∙ div-add-mod n radix)
  ]

  pub value_of-padded :
      (width n : ℕ)
      → n < radix ^ 20
      → value_of radix 0 (padded (record { radix = radix; pad = b'0' }) width n) ≡ n
  unfolding padded
  value_of-padded width n h =
      value_of-zeros radix (width - length (digits_of 20 radix n)) 0 (digits_of 20 radix n) refl
      ∙ value_of-digits_of 20 n h

pub printed-append :
    (s : Stream) (xs ys : Items) → printed s (xs ++ ys) ≡ printed s xs ++ printed (left s xs) ys
unfolding printed left
printed-append s [] ys = refl
printed-append s (x ∷ xs) ys =
    ap (λ t. put s x ++ t) (printed-append (after s x) xs ys)
    ∙ sym (append_assoc (put s x) (printed (after s x) xs) (printed (left (after s x) xs) ys))

abbrev pub decimal : Stream
decimal = record { radix = 10; pad = b'0' }

abbrev pub hexadecimal : Stream
hexadecimal = record { radix = 16; pad = b'0' }

left-tables_items :
    (s : Stream) (cpu_id : ℕ) (sregs : Sregs) → left s (tables_items cpu_id sregs) ≡ decimal
unfolding left after tables_items dump_segment_descriptor dump_descriptor_table
left-tables_items s cpu_id sregs = refl

printed-number :
    (s : Stream) (t : String) (c width n : ℕ) (is : Items)
    → let filled : Stream = record s { pad = c } in
      printed s (text t ∷ fill c ∷ number width n ∷ is)
      ≡ codes t ++ (padded filled width n ++ printed filled is)
unfolding printed put after
printed-number s t c width n is = refl

dump_sregs-items :
    (r cpu_id : ℕ) (sregs : Sregs)
    → (dump_sregs (result r) cpu_id sregs).0 ≡ tables_items cpu_id sregs ++ control_items sregs
unfolding dump_sregs
dump_sregs-items r cpu_id sregs = refl

printed-control_items :
    (sregs : Sregs)
    → printed decimal (control_items sregs)
      ≡ codes "CR0: 0x"
        ++ padded decimal 16 sregs.cr0
        ++ printed decimal (drop 3 (control_items sregs))
unfolding control_items
printed-control_items sregs =
    printed-number decimal "CR0: 0x" b'0' 16 sregs.cr0 (drop 3 (control_items sregs))

-- Whatever the stream was set to before: where KVM_GET_SREGS succeeds, DumpSregs puts CR0, of 64
-- bits, out in decimal digits behind the prefix 0x.
pub dump_sregs-decimal :
    (s : Stream) (r cpu_id : ℕ) (sregs : Sregs)
    → sregs.cr0 < 2 ^ 64
    → (front rest : List ℕ) × (printed s (dump_sregs (result r) cpu_id sregs).0
        ≡ front ++ (codes "CR0: 0x" ++ (padded decimal 16 sregs.cr0 ++ rest)))
      × (value_of 10 0 (padded decimal 16 sregs.cr0) ≡ sregs.cr0)
dump_sregs-decimal s r cpu_id sregs h = (
  printed s (tables_items cpu_id sregs),
  printed decimal (drop 3 (control_items sregs)),
  ap (printed s) (dump_sregs-items r cpu_id sregs)
      ∙ printed-append s (tables_items cpu_id sregs) (control_items sregs)
      ∙ ap (λ t. printed s (tables_items cpu_id sregs) ++ printed t (control_items sregs))
          (left-tables_items s cpu_id sregs)
      ∙ ap (λ t. printed s (tables_items cpu_id sregs) ++ t) (printed-control_items sregs),
  value_of-padded 10 (omega arith) (omega arith) 16 sregs.cr0 (omega arith),
)
