-- ===== src/Mp/Defs.antt =====
-- The checksums, `processor_entry_init` and `gen_ebda`.
use Prim.Native.Nat.{bit_xor, bit_or}
use lvmm.Base.{
  ℕ, zero, suc, ◌+◌, ◌%◌, Bool, List, [], ◌∷◌, ◌++◌, Option, none, some, ◌==◌, if◌then◌else◌,
  replicate, not, truthy,
}
use lvmm.Mp.Structs.{
  mpcte_entry_type_proc, ebda_start, ebda_padding_size, mpcte_proc_apic_ver, mpcte_proc_cpuflags_en,
  mpcte_proc_cpuflags_bp, mpcte_proc_cpusignature, mpcte_proc_featflags, Mpfps, new_mpfps,
  ProcessorEntry, Mpctable, new_mpctable, mpfps_bytes, mpctable_bytes,
}

-- `_mp_calc_checksum_inline`: the loop adds bytes to a `uint8_t`.
unfoldable pub calc_from : ℕ → List ℕ → ℕ
calc_from checksum [] = checksum
calc_from checksum (b ∷ bs) = calc_from ((checksum + b) % 256) bs

unfoldable pub mp_calc_checksum : List ℕ → ℕ
mp_calc_checksum bytes = calc_from 0 bytes

unfoldable pub mp_gen_checksum : List ℕ → ℕ
unfolding mp_calc_checksum
mp_gen_checksum bytes = (bit_xor (mp_calc_checksum bytes) 0xFF + 0x1) % 256

unfoldable pub is_mp_checksum_valid : List ℕ → Bool
unfolding mp_calc_checksum
is_mp_checksum_valid bytes = not (truthy (mp_calc_checksum bytes))

-- The body of the loop of `processor_entry_init`, for vCPU `i`.
unfoldable pub init_entry : ℕ → ProcessorEntry → ProcessorEntry
init_entry i e = record e {
  entry_type = mpcte_entry_type_proc;
  local_apic_id = i % 256;
  local_apic_ver = mpcte_proc_apic_ver;
  cpu_flags =
      bit_or (bit_or e.cpu_flags mpcte_proc_cpuflags_en)
        (if i == 0 then mpcte_proc_cpuflags_bp else 0);
  cpu_sig = mpcte_proc_cpusignature;
  feat_flags = mpcte_proc_featflags;
}

-- The loop from vCPU `i` on, over the array from its place `i` on; `none` is a write past its end.
unfoldable pub init_entries : ℕ → ℕ → List ProcessorEntry → Option (List ProcessorEntry)
init_entries zero i es = some es
init_entries (suc n) i [] = none
init_entries (suc n) i (e ∷ es) = elim (init_entries n (i + 1) es) [
  | none ↦ none
  | some rest ↦ some (init_entry i e ∷ rest)
]

unfoldable pub processor_entry_init : ℕ → List ProcessorEntry → Option (List ProcessorEntry)
unfolding init_entries init_entry
processor_entry_init vcpu_num es = init_entries vcpu_num 0 es

pub record Ebda : Type 0 where
  pub padding : List ℕ
  pub fps : Mpfps
  pub ctable : Mpctable

unfoldable pub ebda_bytes : Ebda → List ℕ
unfolding mpfps_bytes mpctable_bytes
ebda_bytes e = e.padding ++ mpfps_bytes e.fps ++ mpctable_bytes e.ctable

abbrev pub fps_of_ebda : Mpfps
fps_of_ebda = new_mpfps (ebda_start + 0x40)

-- `none`: more processors than the table has entries.
unfoldable pub gen_ebda : ℕ → Option Ebda
unfolding processor_entry_init mp_gen_checksum mpfps_bytes mpctable_bytes
gen_ebda vcpu_num = elim (processor_entry_init vcpu_num new_mpctable.processor_entry) [
  | none ↦ none
  | some es ↦
      let table = record new_mpctable { processor_entry = es } in
      some (record {
        padding = replicate ebda_padding_size 0;
        fps = record fps_of_ebda { checksum = mp_gen_checksum (mpfps_bytes fps_of_ebda) };
        ctable = record table { checksum = mp_gen_checksum (mpctable_bytes table) };
      })
]
