-- ===== src/Vcpu/Flat.antt =====
-- The registers of a 32-bit boot.
use lvmm.Base.{ℕ, ◌/◌, ◌%◌, ◌≡◌, refl, Bool, false, pos, arith}
use lvmm.Base.Bits.{bit_or-one}
use lvmm.Ioctl.{result}
use lvmm.Vcpu.Defs.{Segment, Sregs, init_sregs, sregs_32, flat}

-- A segment that starts at 0 and ends with the last byte below 4 GiB, in units of 4 KiB.
pub record IsFlat (sd : Segment) : Type 0 where
  pub from_0 : sd.base ≡ 0
  pub to_4g : sd.limit ≡ 0xffff_ffff
  pub granular : sd.g ≡ 1

-- What the Linux 32-bit boot protocol asks of the registers: protected mode, and flat segments of
-- 4 GiB, those of the code and the stack with 32-bit operands.
pub record IsProtectedFlat (sregs : Sregs) : Type 0 where
  pub protected : sregs.cr0 % 2 ≡ 1
  pub code_32 : sregs.cs.db ≡ 1
  pub stack_32 : sregs.ss.db ≡ 1
  pub cs_flat : IsFlat sregs.cs
  pub ds_flat : IsFlat sregs.ds
  pub es_flat : IsFlat sregs.es
  pub fs_flat : IsFlat sregs.fs
  pub gs_flat : IsFlat sregs.gs
  pub ss_flat : IsFlat sregs.ss

-- The registers that a 32-bit boot leaves alone: all but the six segments, and all but the lowest
-- bit of CR0.
pub record IsKept (sregs held : Sregs) : Type 0 where
  pub cr0_kept : sregs.cr0 / 2 ≡ held.cr0 / 2
  pub rest_kept : sregs ≡ record held {
    cs = sregs.cs;
    ds = sregs.ds;
    es = sregs.es;
    fs = sregs.fs;
    gs = sregs.gs;
    ss = sregs.ss;
    cr0 = sregs.cr0;
  }

pub sregs_32-IsProtectedFlat : (held : Sregs) → IsProtectedFlat (sregs_32 held)
unfolding sregs_32 flat
sregs_32-IsProtectedFlat held = record {
  protected = omega (arith, bit_or-one held.cr0);
  code_32 = refl;
  stack_32 = refl;
  cs_flat = record { from_0 = refl; to_4g = refl; granular = refl };
  ds_flat = record { from_0 = refl; to_4g = refl; granular = refl };
  es_flat = record { from_0 = refl; to_4g = refl; granular = refl };
  fs_flat = record { from_0 = refl; to_4g = refl; granular = refl };
  gs_flat = record { from_0 = refl; to_4g = refl; granular = refl };
  ss_flat = record { from_0 = refl; to_4g = refl; granular = refl };
}

pub sregs_32-IsKept : (held : Sregs) → IsKept (sregs_32 held) held
unfolding sregs_32 flat
sregs_32-IsKept held = record { cr0_kept = omega (arith, bit_or-one held.cr0); rest_kept = refl }

pub init_sregs_lem :
    (got put : ℕ) (mode : Bool) (held : Sregs)
    → mode ≡ false
    → init_sregs (result got) (result put) mode held ≡ (sregs_32 held, pos 0)
unfolding init_sregs
init_sregs_lem got put mode held h = rw h refl
