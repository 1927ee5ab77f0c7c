-- ===== src/Vcpu/DumpSregs.antt =====
-- `DumpSregs` with what it prints.
use lvmm.Base.{ℕ, [], ◌∷◌, ◌++◌, ℤ, pos, bit_and}
use lvmm.Ioctl.{Answer, result, errno, zero_or_errno}
use lvmm.Vcpu.Constants.{
  cr0_am, cr0_cd, cr0_em, cr0_et, cr0_mp, cr0_ne, cr0_nw, cr0_pe, cr0_pg, cr0_ts, cr0_wp, cr3_pcd,
  cr3_pwt, cr4_cet, cr4_de, cr4_fsgsbase, cr4_mce, cr4_osfxsr, cr4_osxmmexcpt, cr4_osxsave, cr4_pae,
  cr4_pce, cr4_pcide, cr4_pge, cr4_pke, cr4_pks, cr4_pse, cr4_pvi, cr4_smap, cr4_smep, cr4_smxe,
  cr4_tsd, cr4_umip, cr4_vme, cr4_vmxe, msr_ia32_efer_ffxsr, msr_ia32_efer_lma, msr_ia32_efer_lme,
  msr_ia32_efer_lmsle, msr_ia32_efer_nxe, msr_ia32_efer_sce, msr_ia32_efer_svme, msr_ia32_efer_tce,
  cr3_pdbr_mask,
}
use lvmm.Vcpu.Defs.{Segment, DescriptorTable, Sregs}
use lvmm.Vcpu.Stream.{Items, text, number, base, fill, eol, flag, flag_end, truth, truth_end}

-- `DumpSegmentDescriptor`.
unfoldable pub dump_segment_descriptor : Segment → Items
dump_segment_descriptor sd =
    base 16
    ∷ fill b'0'
    ∷ text "base:     0x"
    ∷ number 16 sd.base
    ∷ eol
    ∷ text "limit:    0x"
    ∷ number 8 sd.limit
    ∷ eol
    ∷ text "selector: 0x"
    ∷ number 4 sd.selector
    ∷ eol
    ∷ text "type:     0x"
    ∷ number 2 sd.seg_type
    ∷ eol
    ∷ text "present:  "
    ∷ truth sd.present
    ∷ text "dpl:      "
    ∷ truth sd.dpl
    ∷ text "db:       "
    ∷ truth sd.db
    ∷ text "s:        "
    ∷ truth_end sd.s
    ∷ eol
    ∷ text "l:        "
    ∷ truth sd.l
    ∷ text "g:        "
    ∷ truth sd.g
    ∷ text "avl:      "
    ∷ truth_end sd.avl
    ∷ eol
    ∷ base 10
    ∷ []

-- `DumpDescriptorTable`.
unfoldable pub dump_descriptor_table : DescriptorTable → Items
dump_descriptor_table dt =
    base 16
    ∷ fill b'0'
    ∷ text "base:  0x"
    ∷ number 16 dt.base
    ∷ eol
    ∷ text "limit: 0x"
    ∷ number 4 dt.limit
    ∷ eol
    ∷ base 10
    ∷ []

-- Up to the end of the two loops.
unfoldable pub tables_items : ℕ → Sregs → Items
unfolding dump_segment_descriptor dump_descriptor_table
tables_items cpu_id sregs =
    base 16
    ∷ text "vCPU "
    ∷ number 0 cpu_id
    ∷ text ": vcpu_sregs"
    ∷ eol
    ∷ ((text "CS" ∷ eol ∷ dump_segment_descriptor sregs.cs)
        ++ (text "DS" ∷ eol ∷ dump_segment_descriptor sregs.ds)
        ++ (text "ES" ∷ eol ∷ dump_segment_descriptor sregs.es)
        ++ (text "FS" ∷ eol ∷ dump_segment_descriptor sregs.fs)
        ++ (text "GS" ∷ eol ∷ dump_segment_descriptor sregs.gs)
        ++ (text "SS" ∷ eol ∷ dump_segment_descriptor sregs.ss)
        ++ (text "TR" ∷ eol ∷ dump_segment_descriptor sregs.tr)
        ++ (text "LDT" ∷ eol ∷ dump_segment_descriptor sregs.ldt)
        ++ (text "GDT" ∷ eol ∷ dump_descriptor_table sregs.gdt)
        ++ (text "IDT" ∷ eol ∷ dump_descriptor_table sregs.idt))

-- Behind the loops.
unfoldable pub control_items : Sregs → Items
control_items sregs =
    text "CR0: 0x"
    ∷ fill b'0'
    ∷ number 16 sregs.cr0
    ∷ eol
    ∷ text "PE: "
    ∷ flag sregs.cr0 cr0_pe
    ∷ text "MP: "
    ∷ flag sregs.cr0 cr0_mp
    ∷ text "EM: "
    ∷ flag sregs.cr0 cr0_em
    ∷ text "TS: "
    ∷ flag sregs.cr0 cr0_ts
    ∷ text "ET: "
    ∷ flag sregs.cr0 cr0_et
    ∷ text "NE: "
    ∷ flag_end sregs.cr0 cr0_ne
    ∷ eol
    ∷ text "WP: "
    ∷ flag sregs.cr0 cr0_wp
    ∷ text "AM: "
    ∷ flag sregs.cr0 cr0_am
    ∷ text "NW: "
    ∷ flag sregs.cr0 cr0_nw
    ∷ text "CD: "
    ∷ flag sregs.cr0 cr0_cd
    ∷ text "PG: "
    ∷ flag_end sregs.cr0 cr0_pg
    ∷ eol
    ∷ fill b'0'
    ∷ text "CR2: 0x"
    ∷ number 16 sregs.cr2
    ∷ eol
    ∷ text "CR3: 0x"
    ∷ number 16 sregs.cr3
    ∷ eol
    ∷ text "PWT: "
    ∷ flag sregs.cr3 cr3_pwt
    ∷ text "PCD: "
    ∷ flag sregs.cr3 cr3_pcd
    ∷ text "PDBR: 0x"
    ∷ number 0 (bit_and sregs.cr3 cr3_pdbr_mask)
    ∷ eol
    ∷ text "CR4: 0x"
    ∷ fill b'0'
    ∷ number 16 sregs.cr4
    ∷ eol
    ∷ text "CR4.VME:        "
    ∷ flag sregs.cr4 cr4_vme
    ∷ text "CR4.PVI:        "
    ∷ flag sregs.cr4 cr4_pvi
    ∷ text "CR4.TSD:        "
    ∷ flag sregs.cr4 cr4_tsd
    ∷ text "CR4.DE:         "
    ∷ flag sregs.cr4 cr4_de
    ∷ text "CR4.PSE:        "
    ∷ flag sregs.cr4 cr4_pse
    ∷ text "CR4.PAE:        "
    ∷ flag_end sregs.cr4 cr4_pae
    ∷ eol
    ∷ text "CR4.MCE:        "
    ∷ flag sregs.cr4 cr4_mce
    ∷ text "CR4.PGE:        "
    ∷ flag sregs.cr4 cr4_pge
    ∷ text "CR4.PCE:        "
    ∷ flag sregs.cr4 cr4_pce
    ∷ text "CR4.OSFXSR:     "
    ∷ flag sregs.cr4 cr4_osfxsr
    ∷ text "CR4.OSXMMEXCPT: "
    ∷ flag sregs.cr4 cr4_osxmmexcpt
    ∷ text "CR4.UMIP:       "
    ∷ flag_end sregs.cr4 cr4_umip
    ∷ eol
    ∷ text "CR4.VMXE:       "
    ∷ flag sregs.cr4 cr4_vmxe
    ∷ text "CR4.SMXE:       "
    ∷ flag sregs.cr4 cr4_smxe
    ∷ text "CR4.FSGSBASE:   "
    ∷ flag sregs.cr4 cr4_fsgsbase
    ∷ text "CR4.PCIDE:      "
    ∷ flag sregs.cr4 cr4_pcide
    ∷ text "CR4.OSXSAVE:    "
    ∷ flag sregs.cr4 cr4_osxsave
    ∷ text "CR4.SMEP:       "
    ∷ flag_end sregs.cr4 cr4_smep
    ∷ eol
    ∷ text "CR4.SMAP:       "
    ∷ flag sregs.cr4 cr4_smap
    ∷ text "CR4.PKE:        "
    ∷ flag sregs.cr4 cr4_pke
    ∷ text "CR4.CET:        "
    ∷ flag sregs.cr4 cr4_cet
    ∷ text "CR4.PKS:        "
    ∷ flag_end sregs.cr4 cr4_pks
    ∷ eol
    ∷ text "CR8: 0x"
    ∷ fill b'0'
    ∷ number 16 sregs.cr8
    ∷ eol
    ∷ text "EFER: 0x"
    ∷ fill b'0'
    ∷ number 16 sregs.efer
    ∷ eol
    ∷ text "EFER.SCE:   "
    ∷ flag sregs.efer msr_ia32_efer_sce
    ∷ text "EFER.LME:   "
    ∷ flag sregs.efer msr_ia32_efer_lme
    ∷ text "EFER.LMA:   "
    ∷ flag sregs.efer msr_ia32_efer_lma
    ∷ text "EFER.NXE:   "
    ∷ flag_end sregs.efer msr_ia32_efer_nxe
    ∷ eol
    ∷ text "EFER.SVME:  "
    ∷ flag sregs.efer msr_ia32_efer_svme
    ∷ text "EFER.LMSLE: "
    ∷ flag sregs.efer msr_ia32_efer_lmsle
    ∷ text "EFER.FFXSR: "
    ∷ flag sregs.efer msr_ia32_efer_ffxsr
    ∷ text "EFER.TCE:   "
    ∷ flag_end sregs.efer msr_ia32_efer_tce
    ∷ eol
    ∷ text "APIC_BASE: 0x"
    ∷ fill b'0'
    ∷ number 16 sregs.apic_base
    ∷ eol
    ∷ base 10
    ∷ []

-- What is printed of the registers that KVM_GET_SREGS gives, and the result.
unfoldable pub dump_sregs : Answer → ℕ → Sregs → Items × ℤ
unfolding tables_items control_items
dump_sregs (errno e) cpu_id sregs = ([], zero_or_errno (errno e))
dump_sregs (result r) cpu_id sregs = (tables_items cpu_id sregs ++ control_items sregs, pos 0)
