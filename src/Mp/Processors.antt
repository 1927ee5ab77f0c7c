-- ===== src/Mp/Processors.antt =====
-- The entries that `processor_entry_init` fills, and when the array is too short for them.
use mathlib.Core.Path.{subst}
use lvmm.Base.{
  ℕ, zero, suc, ◌+◌, ◌≤◌, ◌<◌, ◌≡◌, refl, ap, ◌∙◌, ◌&&◌, List, [], ◌∷◌, none, some, ltb, ◌==◌,
  if◌then◌else◌, length, replicate, get_elem?, arith, truthy, bit_and, Bool-cases, ltb→lt, inl, inr,
}
use lvmm.Mp.Structs.{
  ProcessorEntry, blank_entry, new_mpctable, mp_max_vcpu_num, mpfps_bytes, mpctable_bytes, Mpctable,
  ebda_padding_size,
}
use lvmm.Mp.Defs.{
  init_entry, init_entries, processor_entry_init, Ebda, gen_ebda, mp_gen_checksum, fps_of_ebda,
}

-- The array with its first `n` places from vCPU `i` on filled.
unfoldable pub initialised : ℕ → ℕ → List ProcessorEntry → List ProcessorEntry
unfolding init_entry
initialised zero i es = es
initialised (suc n) i [] = []
initialised (suc n) i (e ∷ es) = init_entry i e ∷ initialised n (i + 1) es

pub length-initialised :
    (n i : ℕ) (es : List ProcessorEntry) → length (initialised n i es) ≡ length es
unfolding initialised
length-initialised zero i es = refl
length-initialised (suc n) i [] = refl
length-initialised (suc n) i (e ∷ es) = ap suc (length-initialised n (i + 1) es)

init_entries_lem :
    (n i : ℕ) (es : List ProcessorEntry)
    → n ≤ length es
    → init_entries n i es ≡ some (initialised n i es)
unfolding init_entries initialised
init_entries_lem zero i es h = refl
init_entries_lem (suc n) i [] h = elim h [ ]
init_entries_lem (suc n) i (e ∷ es) h = rw (init_entries_lem n (i + 1) es (omega arith)) refl

init_entries-none :
    (n i : ℕ) (es : List ProcessorEntry) → length es < n → init_entries n i es ≡ none
unfolding init_entries
init_entries-none zero i es h = absurd (omega arith)
init_entries-none (suc n) i [] h = refl
init_entries-none (suc n) i (e ∷ es) h = rw (init_entries-none n (i + 1) es (omega arith)) refl

pub processor_entry_init_lem :
    (n : ℕ)
    → n ≤ mp_max_vcpu_num
    → processor_entry_init n new_mpctable.processor_entry
      ≡ some (initialised n 0 new_mpctable.processor_entry)
unfolding processor_entry_init
processor_entry_init_lem n h = init_entries_lem n 0 new_mpctable.processor_entry h

get_elem?-replicate : (k j : ℕ) → j < k → get_elem? (replicate k blank_entry) j ≡ some blank_entry
get_elem?-replicate zero j h = elim h [ ]
get_elem?-replicate (suc k) zero h = refl
get_elem?-replicate (suc k) (suc j) h = get_elem?-replicate k j (omega arith)

pub get_elem?-initialised :
    (n i k j : ℕ)
    → j < k
    → get_elem? (initialised n i (replicate k blank_entry)) j
      ≡ some (if ltb j n then init_entry (i + j) blank_entry else blank_entry)
unfolding initialised
get_elem?-initialised n i zero j h = elim h [ ]
get_elem?-initialised zero i (suc k) j h = ground (arith, get_elem?-replicate (suc k) j h)
get_elem?-initialised (suc n) i (suc k) zero h =
    let e : i + 0 ≡ i = omega arith in rw e (ground arith)
get_elem?-initialised (suc n) i (suc k) (suc j) h =
    let e : i + suc j ≡ i + 1 + j = omega arith in
    rw e (ground (arith, get_elem?-initialised n (i + 1) k j (omega arith)))

-- What the guest reads off the entry of vCPU `j` in a table for `n`.
abbrev pub IsEntryOf : ℕ → ℕ → ProcessorEntry → Type 0
IsEntryOf n j p =
    (truthy (bit_and p.cpu_flags 1) ≡ ltb j n)
    × (truthy (bit_and p.cpu_flags 2) ≡ (ltb j n && (j == 0)))
    × (j < n → p.local_apic_id ≡ j)

unfilled : (n j : ℕ) → n ≤ j → IsEntryOf n j blank_entry
unfilled n j h = (ground arith, ground arith, λ g. absurd (omega arith))

filled : (n j : ℕ) → j < n → j < 256 → IsEntryOf n j (init_entry j blank_entry)
unfolding init_entry
filled n zero h g = (ground arith, ground arith, λ _. refl)
filled n (suc j) h g = (ground arith, ground arith, λ _. omega arith)

-- The table for `n` processors before its checksum, and the area around it.
abbrev pub table_for : ℕ → Mpctable
table_for n = record new_mpctable { processor_entry = initialised n 0 new_mpctable.processor_entry }

abbrev pub ebda_for : ℕ → Ebda
ebda_for n = record {
  padding = replicate ebda_padding_size 0;
  fps = record fps_of_ebda { checksum = mp_gen_checksum (mpfps_bytes fps_of_ebda) };
  ctable = record (table_for n) { checksum = mp_gen_checksum (mpctable_bytes (table_for n)) };
}

pub gen_ebda_lem : (n : ℕ) → n ≤ mp_max_vcpu_num → gen_ebda n ≡ some (ebda_for n)
unfolding gen_ebda
gen_ebda_lem n h = rw (processor_entry_init_lem n h, gen_ebda) refl

entry_for :
    (n j : ℕ)
    → j < 32
    → (p : ProcessorEntry) × (get_elem? (ebda_for n).ctable.processor_entry j ≡ some p)
      × IsEntryOf n j p
entry_for n j g =
    let e : 0 + j ≡ j = omega arith in
    let at =
      subst
        (λ k.
          get_elem? (ebda_for n).ctable.processor_entry j
          ≡ some (if ltb j n then init_entry k blank_entry else blank_entry))
        e (get_elem?-initialised n 0 32 j g) in
    elim (Bool-cases (ltb j n)) [
      | inl h ↦
          (init_entry j blank_entry, at ∙ ground arith, filled n j (ltb→lt j n h) (omega arith))
      | inr h ↦ (blank_entry, at ∙ ground arith, unfilled n j (ground arith))
    ]

-- For at most 32 vCPUs gen_ebda gives a table of 32 entries: those of the vCPUs are enabled and
-- carry the vCPU's number as APIC id, the first one alone is the boot processor, the other entries
-- are disabled.
pub gen_ebda-processors :
    (n : ℕ)
    → n ≤ 32
    → (e : Ebda) × (gen_ebda n ≡ some e)
      × (length e.ctable.processor_entry ≡ 32)
      × (e.ctable.entry_count ≡ 32)
      × ((j : ℕ)
          → j < 32
          → (p : ProcessorEntry) × (get_elem? e.ctable.processor_entry j ≡ some p)
            × IsEntryOf n j p)
gen_ebda-processors n h = (
  ebda_for n,
  gen_ebda_lem n h,
  length-initialised n 0 new_mpctable.processor_entry,
  refl,
  entry_for n,
)

-- For more than 32 vCPUs processor_entry_init writes past the end of the array of entries.
pub gen_ebda-overflow : (n : ℕ) → 32 < n → gen_ebda n ≡ none
unfolding gen_ebda processor_entry_init
gen_ebda-overflow n h = rw (init_entries-none n 0 new_mpctable.processor_entry h, gen_ebda) refl
