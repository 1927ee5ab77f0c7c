-- ===== src/Vcpu/Defs.antt =====
-- The register files and `InitRegs`, `InitSregs`, over what the ioctls answer.
use lvmm.Base.{ℕ, ◌*◌, ◌^◌, bit_or, Bool, not, List, if◌then◌else◌, ℤ, pos}
use lvmm.Ioctl.{Answer, result, errno, zero_or_errno}
use lvmm.Vcpu.Constants.{
  cr0_pe, cr0_mp, cr0_et, cr0_ne, cr0_wp, cr0_am, cr0_pg, cr4_pae, rf_init, msr_ia32_efer_lme,
  msr_ia32_efer_lma, seg_desc_selector_ti_gdt, seg_desc_selector_idx_shift,
  seg_desc_selector_rpl_kernel, seg_desc_type_code, seg_desc_type_code_a, seg_desc_type_code_r,
  seg_desc_type_data, seg_desc_type_data_a, seg_desc_type_data_w, seg_desc_type_flag_cd,
  seg_desc_dpl_kernel, seg_desc_db_ex_lset, seg_desc_l_64bit_mode, seg_desc_gran_4kb,
}

abbrev pub boot_pagetable_base : ℕ
boot_pagetable_base = 0x0003_0000

-- `vcpu_regs`.
pub record Regs : Type 0 where
  pub rax : ℕ
  pub rbx : ℕ
  pub rcx : ℕ
  pub rdx : ℕ
  pub rsi : ℕ
  pub rdi : ℕ
  pub rsp : ℕ
  pub rbp : ℕ
  pub r8 : ℕ
  pub r9 : ℕ
  pub r10 : ℕ
  pub r11 : ℕ
  pub r12 : ℕ
  pub r13 : ℕ
  pub r14 : ℕ
  pub r15 : ℕ
  pub rip : ℕ
  pub rflags : ℕ

-- The members of `kvm_segment` that the source names.
pub record Segment : Type 0 where
  pub base : ℕ
  pub limit : ℕ
  pub selector : ℕ
  pub seg_type : ℕ
  pub present : ℕ
  pub dpl : ℕ
  pub db : ℕ
  pub s : ℕ
  pub l : ℕ
  pub g : ℕ
  pub avl : ℕ
  pub unusable : ℕ
  pub padding : ℕ

-- `descriptor_table`.
pub record DescriptorTable : Type 0 where
  pub base : ℕ
  pub limit : ℕ
  pub padding : List ℕ

-- `vcpu_sregs`.
pub record Sregs : Type 0 where
  pub cs : Segment
  pub ds : Segment
  pub es : Segment
  pub fs : Segment
  pub gs : Segment
  pub ss : Segment
  pub tr : Segment
  pub ldt : Segment
  pub gdt : DescriptorTable
  pub idt : DescriptorTable
  pub cr0 : ℕ
  pub cr2 : ℕ
  pub cr3 : ℕ
  pub cr4 : ℕ
  pub cr8 : ℕ
  pub efer : ℕ
  pub apic_base : ℕ
  pub interrupt_bitmap : List ℕ

-- `Set…` after `Get…`: the registers that KVM then holds, and the result. KVM keeps what it held
-- where either call fails.
abbrev pub replaced {ℓ} : {A : Type ℓ} → Answer → Answer → (A → A) → A → A × ℤ
replaced (errno e) put f kept = (kept, zero_or_errno (errno e))
replaced (result r) (errno e) f kept = (kept, zero_or_errno (errno e))
replaced (result r) (result r') f kept = (f kept, pos 0)

unfoldable pub init_regs : Answer → Answer → ℕ → ℕ → Regs → Regs × ℤ
init_regs get put rip rsi held =
    replaced get put (λ regs. record regs { rip = rip; rsi = rsi; rflags = rf_init }) held

-- The three assignments to each segment of a 32-bit boot.
unfoldable pub flat : Segment → Segment
flat sd = record sd { base = 0; limit = 0xffff_ffff; g = 1 }

unfoldable pub sregs_32 : Sregs → Sregs
unfolding flat
sregs_32 sregs = record sregs {
  cs = record (flat sregs.cs) { db = 1 };
  ds = flat sregs.ds;
  fs = flat sregs.fs;
  gs = flat sregs.gs;
  es = flat sregs.es;
  ss = record (flat sregs.ss) { db = 1 };
  cr0 = bit_or sregs.cr0 cr0_pe;
}

abbrev pub code_segment : Segment
code_segment = record {
  base = 0;
  limit = 0xffff_ffff;
  selector =
      bit_or (bit_or (1 * 2 ^ seg_desc_selector_idx_shift) seg_desc_selector_ti_gdt)
        seg_desc_selector_rpl_kernel;
  seg_type = bit_or (bit_or seg_desc_type_code seg_desc_type_code_a) seg_desc_type_code_r;
  present = 1;
  dpl = seg_desc_dpl_kernel;
  db = seg_desc_db_ex_lset;
  s = seg_desc_type_flag_cd;
  l = seg_desc_l_64bit_mode;
  g = seg_desc_gran_4kb;
  avl = 0;
  unusable = 0;
  padding = 0;
}

abbrev pub other_segments : Segment
other_segments = record code_segment {
  selector =
      bit_or (bit_or (2 * 2 ^ seg_desc_selector_idx_shift) seg_desc_selector_ti_gdt)
        seg_desc_selector_rpl_kernel;
  seg_type = bit_or (bit_or seg_desc_type_data seg_desc_type_data_a) seg_desc_type_data_w;
}

abbrev pub cr0_64 : ℕ
cr0_64 =
    bit_or (bit_or (bit_or (bit_or (bit_or (bit_or cr0_pe cr0_mp) cr0_et) cr0_ne) cr0_wp) cr0_am)
      cr0_pg

unfoldable pub sregs_64 : Sregs → Sregs
sregs_64 sregs = record sregs {
  cr3 = boot_pagetable_base;
  cr4 = cr4_pae;
  cr0 = cr0_64;
  efer = bit_or msr_ia32_efer_lme msr_ia32_efer_lma;
  cs = code_segment;
  ds = other_segments;
  es = other_segments;
  fs = other_segments;
  gs = other_segments;
  ss = other_segments;
}

unfoldable pub init_sregs : Answer → Answer → Bool → Sregs → Sregs × ℤ
unfolding sregs_32 sregs_64
init_sregs get put is_64bit_boot held =
    if not is_64bit_boot then replaced get put sregs_32 held else replaced get put sregs_64 held
