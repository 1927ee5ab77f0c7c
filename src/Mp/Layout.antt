-- ===== src/Mp/Layout.antt =====
-- The sizes of the structures, and where they lie in guest memory.
use lvmm.Base.{
  ℕ, ◌+◌, ◌*◌, ◌%◌, ◌≤◌, ◌≡◌, refl, List, [], ◌∷◌, some, arith, length, length-append, take, drop,
  sym, ◌-◌,
}
use lvmm.Mp.Processors.{ebda_for, gen_ebda_lem, table_for, length-initialised}
use lvmm.Mp.Structs.{
  ProcessorEntry, mpfps_bytes, mpctable_bytes, entry_bytes, entries_bytes, header_before,
  header_after, ebda_start, vgaram_start, new_mpctable,
}
use lvmm.Mp.Defs.{Ebda, ebda_bytes, gen_ebda}

length-entry_bytes : (e : ProcessorEntry) → length (entry_bytes e) ≡ 20
unfolding entry_bytes
length-entry_bytes e = refl

length-entries_bytes : (es : List ProcessorEntry) → length (entries_bytes es) ≡ 20 * length es
unfolding entries_bytes
length-entries_bytes [] = refl
length-entries_bytes (e ∷ es) = omega (
  arith,
  length-append (entry_bytes e) (entries_bytes es),
  length-entry_bytes e,
  length-entries_bytes es,
)

length-mpctable_bytes : (n : ℕ) → length (mpctable_bytes (ebda_for n).ctable) ≡ 684
unfolding mpctable_bytes header_before header_after
length-mpctable_bytes n = omega (
  arith,
  length-entries_bytes (table_for n).processor_entry,
  length-initialised n 0 new_mpctable.processor_entry,
)

pub length-ebda_bytes : (n : ℕ) → length (ebda_bytes (ebda_for n)) ≡ 748
unfolding ebda_bytes mpfps_bytes
length-ebda_bytes n = omega (arith, length-mpctable_bytes n)

-- For at most 32 vCPUs the area that gen_ebda gives is 748 bytes long and ends below the video
-- memory; the floating pointer structure stands 48 bytes into it, at an address that is a multiple
-- of 16, and holds the guest address of the configuration table, which says its own length.
pub gen_ebda-layout :
    (n : ℕ)
    → n ≤ 32
    → (e : Ebda) × (gen_ebda n ≡ some e)
      × (length (ebda_bytes e) ≡ 748)
      × (ebda_start + length (ebda_bytes e) ≤ vgaram_start)
      × (take 16 (drop 48 (ebda_bytes e)) ≡ mpfps_bytes e.fps)
      × ((ebda_start + 48) % 16 ≡ 0)
      × (drop (e.fps.phys_addr_ptr - ebda_start) (ebda_bytes e) ≡ mpctable_bytes e.ctable)
      × (e.ctable.len ≡ length (mpctable_bytes e.ctable))
unfolding ebda_bytes mpfps_bytes
gen_ebda-layout n h =
    let l = length-mpctable_bytes n in
    let a = length-ebda_bytes n in
    (ebda_for n, gen_ebda_lem n h, a, omega (arith, a), refl, refl, refl, sym l)
