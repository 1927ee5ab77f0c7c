-- ===== src/Mp/Structs.antt =====
-- The packed structures of include/boot.hpp and their bytes in guest memory.
use Prim.Native.Nat.{bit_or}
use lvmm.Base.{ℕ, ◌+◌, ◌*◌, ◌^◌, List, [], ◌∷◌, ◌++◌, replicate, le_bytes}

abbrev pub paragraph_size : ℕ
paragraph_size = 16

abbrev pub ebda_start : ℕ
ebda_start = 0x0009_fc00

abbrev pub vgaram_start : ℕ
vgaram_start = 0x000a_0000

abbrev pub apic_base : ℕ
apic_base = 0xfee0_0000

abbrev pub ebda_padding_size : ℕ
ebda_padding_size = 16 * 3

abbrev pub mp_max_vcpu_num : ℕ
mp_max_vcpu_num = 32

abbrev pub mp_spec_rev_1_4 : ℕ
mp_spec_rev_1_4 = 4

abbrev pub mpfps_spec_rev_1_4 : ℕ
mpfps_spec_rev_1_4 = mp_spec_rev_1_4

abbrev pub mpfps_feat_ctpresent : ℕ
mpfps_feat_ctpresent = 0

abbrev pub mpfps_feat_virtwire : ℕ
mpfps_feat_virtwire = 0

abbrev pub mpctable_spec_rev_1_4 : ℕ
mpctable_spec_rev_1_4 = mp_spec_rev_1_4

abbrev pub mpcte_entry_type_proc : ℕ
mpcte_entry_type_proc = 0

-- Characters at the bytes of a word, the first argument highest.
abbrev pub mpfps_intel_signature : ℕ
mpfps_intel_signature = b'_' * 2 ^ 24 + b'P' * 2 ^ 16 + b'M' * 2 ^ 8 + b'_'

abbrev pub mpctable_intel_signature : ℕ
mpctable_intel_signature = b'P' * 2 ^ 24 + b'M' * 2 ^ 16 + b'C' * 2 ^ 8 + b'P'

abbrev pub mpctable_oem_id : ℕ
mpctable_oem_id =
    b'T' * 2 ^ 56
    + b'S' * 2 ^ 48
    + b'E' * 2 ^ 40
    + b'T' * 2 ^ 32
    + b'G' * 2 ^ 24
    + b'I' * 2 ^ 16
    + b'M' * 2 ^ 8
    + b'L'

abbrev pub mpfps_length : ℕ
mpfps_length = 1

abbrev pub mpcte_proc_apic_ver : ℕ
mpcte_proc_apic_ver = 0x14

abbrev pub mpcte_proc_cpuflags_en : ℕ
mpcte_proc_cpuflags_en = 0b0000_0001

abbrev pub mpcte_proc_cpuflags_bp : ℕ
mpcte_proc_cpuflags_bp = 0b0000_0010

abbrev pub mpcte_proc_cpusignature : ℕ
mpcte_proc_cpusignature = 0x0000_0600 * 2 ^ 16

abbrev pub mpcte_proc_featflags : ℕ
mpcte_proc_featflags = bit_or 0x0000_0001 0x0000_0200

pub record Mpfps : Type 0 where
  pub signature : ℕ
  pub phys_addr_ptr : ℕ
  pub len : ℕ
  pub spec_rev : ℕ
  pub checksum : ℕ
  pub feat_info : List ℕ

-- The initial values, but for `phys_addr_ptr`, which has none.
abbrev pub new_mpfps : ℕ → Mpfps
new_mpfps leftover = record {
  signature = mpfps_intel_signature;
  phys_addr_ptr = leftover;
  len = mpfps_length;
  spec_rev = mpfps_spec_rev_1_4;
  checksum = 0;
  feat_info = mpfps_feat_ctpresent ∷ mpfps_feat_virtwire ∷ 0 ∷ 0 ∷ 0 ∷ [];
}

pub record ProcessorEntry : Type 0 where
  pub entry_type : ℕ
  pub local_apic_id : ℕ
  pub local_apic_ver : ℕ
  pub cpu_flags : ℕ
  pub cpu_sig : ℕ
  pub feat_flags : ℕ
  pub reserved : ℕ

abbrev pub blank_entry : ProcessorEntry
blank_entry = record {
  entry_type = 0;
  local_apic_id = 0;
  local_apic_ver = 0;
  cpu_flags = 0;
  cpu_sig = 0;
  feat_flags = 0;
  reserved = 0;
}

pub record Mpctable : Type 0 where
  pub signature : ℕ
  pub len : ℕ
  pub spec_rev : ℕ
  pub checksum : ℕ
  pub oem_id : ℕ
  pub prod_id : List ℕ
  pub oem_table_ptr : ℕ
  pub oem_table_size : ℕ
  pub entry_count : ℕ
  pub addr_local_apic : ℕ
  pub extd_table_length : ℕ
  pub extd_table_checksum : ℕ
  pub reserved : ℕ
  pub processor_entry : List ProcessorEntry

-- `sizeof(mpctable)`: a header of 44 bytes and 32 entries of 20.
abbrev pub mpctable_size : ℕ
mpctable_size = 44 + 20 * mp_max_vcpu_num

abbrev pub new_mpctable : Mpctable
new_mpctable = record {
  signature = mpctable_intel_signature;
  len = mpctable_size;
  spec_rev = mpctable_spec_rev_1_4;
  checksum = 0;
  oem_id = mpctable_oem_id;
  prod_id = replicate 12 0;
  oem_table_ptr = 0;
  oem_table_size = 0;
  entry_count = mp_max_vcpu_num;
  addr_local_apic = apic_base;
  extd_table_length = 0;
  extd_table_checksum = 0;
  reserved = 0;
  processor_entry = replicate mp_max_vcpu_num blank_entry;
}

-- The bytes of the packed structures, as `reinterpret_cast<uint8_t*>` sees them.
unfoldable pub mpfps_bytes : Mpfps → List ℕ
mpfps_bytes f =
    le_bytes 4 f.signature
    ++ le_bytes 4 f.phys_addr_ptr
    ++ le_bytes 1 f.len
    ++ le_bytes 1 f.spec_rev
    ++ le_bytes 1 f.checksum
    ++ f.feat_info

unfoldable pub entry_bytes : ProcessorEntry → List ℕ
entry_bytes e =
    le_bytes 1 e.entry_type
    ++ le_bytes 1 e.local_apic_id
    ++ le_bytes 1 e.local_apic_ver
    ++ le_bytes 1 e.cpu_flags
    ++ le_bytes 4 e.cpu_sig
    ++ le_bytes 4 e.feat_flags
    ++ le_bytes 8 e.reserved

unfoldable pub entries_bytes : List ProcessorEntry → List ℕ
entries_bytes [] = []
entries_bytes (e ∷ es) = entry_bytes e ++ entries_bytes es

-- The header's bytes before and behind the checksum.
unfoldable pub header_before : Mpctable → List ℕ
header_before t = le_bytes 4 t.signature ++ le_bytes 2 t.len ++ le_bytes 1 t.spec_rev

unfoldable pub header_after : Mpctable → List ℕ
header_after t =
    le_bytes 8 t.oem_id
    ++ t.prod_id
    ++ le_bytes 4 t.oem_table_ptr
    ++ le_bytes 2 t.oem_table_size
    ++ le_bytes 2 t.entry_count
    ++ le_bytes 4 t.addr_local_apic
    ++ le_bytes 2 t.extd_table_length
    ++ le_bytes 1 t.extd_table_checksum
    ++ le_bytes 1 t.reserved

unfoldable pub mpctable_bytes : Mpctable → List ℕ
unfolding header_before header_after entries_bytes entry_bytes
mpctable_bytes t =
    header_before t ++ le_bytes 1 t.checksum ++ header_after t ++ entries_bytes t.processor_entry
