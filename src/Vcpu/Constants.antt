-- ===== src/Vcpu/Constants.antt =====
-- The constants of include/vcpu.hpp. `1 << 31` is an `int`, and negative: as `uint64_t` it has its 33
-- highest bits set. The types of segments
-- that nothing uses have no name here.
use lvmm.Base.{ℕ, ◌*◌, ◌-◌, ◌^◌, ◌%◌, bit_and}

abbrev pub kvm_cpuid_entries_num : ℕ
kvm_cpuid_entries_num = 100

abbrev pub kvm_cpuid_signature : ℕ
kvm_cpuid_signature = 0x40000000

abbrev pub kvm_cpuid_features : ℕ
kvm_cpuid_features = 0x40000001

abbrev pub kvm_cpuid_ebx : ℕ
kvm_cpuid_ebx = 0x4b4d564b

abbrev pub kvm_cpuid_ecx : ℕ
kvm_cpuid_ecx = 0x564b4d56

abbrev pub kvm_cpuid_edx : ℕ
kvm_cpuid_edx = 0x0000004d

abbrev pub cr0_pe : ℕ
cr0_pe = 1

abbrev pub cr0_mp : ℕ
cr0_mp = 2 ^ 1

abbrev pub cr0_em : ℕ
cr0_em = 2 ^ 2

abbrev pub cr0_ts : ℕ
cr0_ts = 2 ^ 3

abbrev pub cr0_et : ℕ
cr0_et = 2 ^ 4

abbrev pub cr0_ne : ℕ
cr0_ne = 2 ^ 5

abbrev pub cr0_wp : ℕ
cr0_wp = 2 ^ 16

abbrev pub cr0_am : ℕ
cr0_am = 2 ^ 18

abbrev pub cr0_nw : ℕ
cr0_nw = 2 ^ 29

abbrev pub cr0_cd : ℕ
cr0_cd = 2 ^ 30

abbrev pub cr0_pg : ℕ
cr0_pg = 2 ^ 64 - 2 ^ 31

abbrev pub cr3_pwt : ℕ
cr3_pwt = 2 ^ 3

abbrev pub cr3_pcd : ℕ
cr3_pcd = 2 ^ 4

abbrev pub cr3_pdbr_mask : ℕ
cr3_pdbr_mask = (2 ^ 52 - 1) * 2 ^ 12 % 2 ^ 64

abbrev pub cr4_vme : ℕ
cr4_vme = 1

abbrev pub cr4_pvi : ℕ
cr4_pvi = 2 ^ 1

abbrev pub cr4_tsd : ℕ
cr4_tsd = 2 ^ 2

abbrev pub cr4_de : ℕ
cr4_de = 2 ^ 3

abbrev pub cr4_pse : ℕ
cr4_pse = 2 ^ 4

abbrev pub cr4_pae : ℕ
cr4_pae = 2 ^ 5

abbrev pub cr4_mce : ℕ
cr4_mce = 2 ^ 6

abbrev pub cr4_pge : ℕ
cr4_pge = 2 ^ 7

abbrev pub cr4_pce : ℕ
cr4_pce = 2 ^ 8

abbrev pub cr4_osfxsr : ℕ
cr4_osfxsr = 2 ^ 9

abbrev pub cr4_osxmmexcpt : ℕ
cr4_osxmmexcpt = 2 ^ 10

abbrev pub cr4_umip : ℕ
cr4_umip = 2 ^ 11

abbrev pub cr4_vmxe : ℕ
cr4_vmxe = 2 ^ 13

abbrev pub cr4_smxe : ℕ
cr4_smxe = 2 ^ 14

abbrev pub cr4_fsgsbase : ℕ
cr4_fsgsbase = 2 ^ 16

abbrev pub cr4_pcide : ℕ
cr4_pcide = 2 ^ 17

abbrev pub cr4_osxsave : ℕ
cr4_osxsave = 2 ^ 18

abbrev pub cr4_smep : ℕ
cr4_smep = 2 ^ 20

abbrev pub cr4_smap : ℕ
cr4_smap = 2 ^ 21

abbrev pub cr4_pke : ℕ
cr4_pke = 2 ^ 22

abbrev pub cr4_cet : ℕ
cr4_cet = 2 ^ 23

abbrev pub cr4_pks : ℕ
cr4_pks = 2 ^ 24

abbrev pub rf_cf : ℕ
rf_cf = 2 ^ 0

abbrev pub rf_init : ℕ
rf_init = 2 ^ 1

abbrev pub rf_pf : ℕ
rf_pf = 2 ^ 2

abbrev pub rf_af : ℕ
rf_af = 2 ^ 4

abbrev pub rf_zf : ℕ
rf_zf = 2 ^ 6

abbrev pub rf_sf : ℕ
rf_sf = 2 ^ 7

abbrev pub rf_tf : ℕ
rf_tf = 2 ^ 8

abbrev pub rf_if : ℕ
rf_if = 2 ^ 9

abbrev pub rf_df : ℕ
rf_df = 2 ^ 10

abbrev pub rf_of : ℕ
rf_of = 2 ^ 11

abbrev pub rf_iopl : ℕ
rf_iopl = bit_and (2 ^ 12) (2 ^ 13)

abbrev pub rf_nt : ℕ
rf_nt = 2 ^ 14

abbrev pub rf_md : ℕ
rf_md = 2 ^ 15

abbrev pub rf_rf : ℕ
rf_rf = 2 ^ 16

abbrev pub rf_vm : ℕ
rf_vm = 2 ^ 17

abbrev pub rf_ac : ℕ
rf_ac = 2 ^ 18

abbrev pub rf_vif : ℕ
rf_vif = 2 ^ 19

abbrev pub rf_vip : ℕ
rf_vip = 2 ^ 20

abbrev pub rf_id : ℕ
rf_id = 2 ^ 21

abbrev pub rf_aes : ℕ
rf_aes = 2 ^ 30

abbrev pub rf_ai : ℕ
rf_ai = 2 ^ 64 - 2 ^ 31

abbrev pub msr_ia32_efer_sce : ℕ
msr_ia32_efer_sce = 1

abbrev pub msr_ia32_efer_lme : ℕ
msr_ia32_efer_lme = 2 ^ 8

abbrev pub msr_ia32_efer_lma : ℕ
msr_ia32_efer_lma = 2 ^ 10

abbrev pub msr_ia32_efer_nxe : ℕ
msr_ia32_efer_nxe = 2 ^ 11

abbrev pub msr_ia32_efer_svme : ℕ
msr_ia32_efer_svme = 2 ^ 12

abbrev pub msr_ia32_efer_lmsle : ℕ
msr_ia32_efer_lmsle = 2 ^ 13

abbrev pub msr_ia32_efer_ffxsr : ℕ
msr_ia32_efer_ffxsr = 2 ^ 14

abbrev pub msr_ia32_efer_tce : ℕ
msr_ia32_efer_tce = 2 ^ 15

abbrev pub seg_desc_selector_ti_gdt : ℕ
seg_desc_selector_ti_gdt = 0

abbrev pub seg_desc_selector_idx_shift : ℕ
seg_desc_selector_idx_shift = 3

abbrev pub seg_desc_selector_rpl_kernel : ℕ
seg_desc_selector_rpl_kernel = 0

abbrev pub seg_desc_type_code_a : ℕ
seg_desc_type_code_a = 1

abbrev pub seg_desc_type_code_r : ℕ
seg_desc_type_code_r = 2 ^ 1

abbrev pub seg_desc_type_code : ℕ
seg_desc_type_code = 2 ^ 3

abbrev pub seg_desc_type_data_a : ℕ
seg_desc_type_data_a = 1

abbrev pub seg_desc_type_data_w : ℕ
seg_desc_type_data_w = 2 ^ 1

abbrev pub seg_desc_type_data : ℕ
seg_desc_type_data = 0

abbrev pub seg_desc_type_flag_cd : ℕ
seg_desc_type_flag_cd = 1

abbrev pub seg_desc_dpl_kernel : ℕ
seg_desc_dpl_kernel = 0

abbrev pub seg_desc_db_ex_lset : ℕ
seg_desc_db_ex_lset = 0

abbrev pub seg_desc_l_64bit_mode : ℕ
seg_desc_l_64bit_mode = 1

abbrev pub seg_desc_gran_4kb : ℕ
seg_desc_gran_4kb = 1
