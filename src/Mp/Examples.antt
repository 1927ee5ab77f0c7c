-- ===== src/Mp/Examples.antt =====
-- The checksums for two vCPUs, and the theorems there.
use lvmm.Base.{
  ◌≡◌, ◌-◌, ◌+◌, ◌%◌, ◌≤◌, ◌<◌, ℕ, refl, true, some, arith, length, take, drop, get_elem?,
}
use lvmm.Mp.Structs.{
  ProcessorEntry, mpfps_bytes, mpctable_bytes, ebda_start, vgaram_start, mpctable_bytes,
}
use lvmm.Mp.Defs.{Ebda, ebda_bytes, is_mp_checksum_valid, gen_ebda, mp_gen_checksum, calc_from}
use lvmm.Mp.Checksum.{gen_ebda-valid}
use lvmm.Mp.Layout.{gen_ebda-layout}
use lvmm.Mp.Processors.{gen_ebda-processors, IsEntryOf, ebda_for, initialised}

fps_checksum : (ebda_for 2).fps.checksum ≡ 0x5b
unfolding mp_gen_checksum mpfps_bytes calc_from
fps_checksum = refl

-- test/boot.hpp expects 0xb6 here, and says that nobody has verified it.
ctable_checksum : (ebda_for 2).ctable.checksum ≡ 0x78
unfolding mp_gen_checksum mpctable_bytes initialised calc_from
ctable_checksum = refl

gen_ebda-valid_example :
    (e : Ebda) × (gen_ebda 2 ≡ some e)
    × (is_mp_checksum_valid (mpfps_bytes e.fps) ≡ true)
    × (is_mp_checksum_valid (mpctable_bytes e.ctable) ≡ true)
gen_ebda-valid_example = gen_ebda-valid 2 (omega arith)

gen_ebda-layout_example :
    (e : Ebda) × (gen_ebda 2 ≡ some e)
    × (length (ebda_bytes e) ≡ 748)
    × (ebda_start + length (ebda_bytes e) ≤ vgaram_start)
    × (take 16 (drop 48 (ebda_bytes e)) ≡ mpfps_bytes e.fps)
    × ((ebda_start + 48) % 16 ≡ 0)
    × (drop (e.fps.phys_addr_ptr - ebda_start) (ebda_bytes e) ≡ mpctable_bytes e.ctable)
    × (e.ctable.len ≡ length (mpctable_bytes e.ctable))
gen_ebda-layout_example = gen_ebda-layout 2 (omega arith)

gen_ebda-processors_example :
    (e : Ebda) × (gen_ebda 2 ≡ some e)
    × (length e.ctable.processor_entry ≡ 32)
    × (e.ctable.entry_count ≡ 32)
    × ((j : ℕ)
        → j < 32
        → (p : ProcessorEntry) × (get_elem? e.ctable.processor_entry j ≡ some p) × IsEntryOf 2 j p)
gen_ebda-processors_example = gen_ebda-processors 2 (omega arith)
