-- ===== src/Cmos/Alone.antt =====
-- One vCPU at the CMOS: the points of an access, one after the other, come to the access as a whole.
use lvmm.Base.{
  ℕ, zero, suc, ◌≡◌, ◌≢◌, refl, ap, ◌∙◌, [], ◌∷◌, List, Option, none, some, arith, pos,
  Option-cases, inl, inr, ◌==◌, get_elem?-lt, set, Bool-cases, ◌&&◌,
}
use lvmm.IoDev.{Reply, first}
use lvmm.Cmos.Constants.{cmos_reg_stat_d}
use lvmm.Cmos.Defs.{Tm, Cmos, reg_value, data_value, cmos_read, store_data, cmos_write}
use lvmm.Cmos.Safety.{IsValid, Access, read, write, access}
use lvmm.Cmos.Threads.{
  Op, select, ask, look, put, Stage, rest, enter, advance, SharedCmos, moved, CmosReach, here, next,
  begins, goes_on,
}

-- The access of the guest, into a buffer that holds 0.
abbrev pub access_of : Op → Access
access_of (select v) = write 0x70 (v ∷ []) 1
access_of (ask now) = read now 0x70 (0 ∷ []) 1
access_of (look now) = read now 0x71 (0 ∷ []) 1
access_of (put v) = write 0x71 (v ∷ []) 1

-- The byte that a read leaves in the buffer.
abbrev pub heard_in : Op → List ℕ → Option ℕ
heard_in (select v) buf = none
heard_in (ask now) buf = some (first buf)
heard_in (look now) buf = some (first buf)
heard_in (put v) buf = none

-- The next points of an access, with no other vCPU between them.
abbrev pub advanced : ℕ → Cmos × Stage → Cmos × Stage
advanced zero m = m
advanced (suc k) (c, p) = advanced k (advance c p)

-- The access as a whole, and the points of it, when the first three of them have come.
abbrev Agrees : Op → Cmos → Type 0
Agrees op c =
    (r : Reply Cmos) × (access (access_of op) c ≡ some r)
    × (r.ret ≡ pos 0)
    × (advanced 3 (enter op c) ≡ (r.dev, rest (heard_in op r.buf)))

-- What a read and a write of the data port leave.
abbrev looked : Cmos → ℕ → Reply Cmos
looked c b = record { dev = record c { index = cmos_reg_stat_d }; buf = b ∷ []; ret = pos 0 }

look-Agrees : (now : Tm) (c : Cmos) → IsValid c → Agrees (look now) c
unfolding enter advance access cmos_read data_value
look-Agrees now c v = elim (Option-cases (reg_value now c.index)) [
  | inr (b, e) ↦ (looked c b, ground (arith, e), refl, ground (arith, e))
  | inl e ↦
      let (b, at) = get_elem?-lt c.mem c.index (omega (arith, v.selected, v.sized)) in
      (looked c b, ground (arith, e, at), refl, ground (arith, e, at))
]

put-Agrees : (v : ℕ) (c : Cmos) → IsValid c → Agrees (put v) c
unfolding enter advance access cmos_write store_data
put-Agrees v c h = elim (Bool-cases (c.index == 15 && v == 0)) [
  | inl e ↦ (
    record { dev = record c { index = cmos_reg_stat_d }; buf = v ∷ []; ret = pos 0 },
    ground (arith, e),
    refl,
    ground (arith, e),
  )
  | inr e ↦ (
    record {
      dev = record c { mem = set c.mem c.index v; index = cmos_reg_stat_d };
      buf = v ∷ [];
      ret = pos 0;
    },
    ground (arith, e),
    refl,
    ground (arith, e),
  )
]

access-Agrees : (op : Op) (c : Cmos) → IsValid c → Agrees op c
unfolding enter advance access cmos_read cmos_write
access-Agrees (select v) c h = (_, refl, refl, refl)
access-Agrees (ask now) c h = (_, refl, refl, refl)
access-Agrees (look now) c h = look-Agrees now c h
access-Agrees (put v) c h = put-Agrees v c h

-- `k` moves of vCPU `i` within its access.
abbrev pub solo : ℕ → ℕ → SharedCmos → SharedCmos
solo i zero s = s
solo i (suc k) s = solo i k (moved s i (advance s.shared (s.stages i)))

pub CmosReach-solo : (k i : ℕ) {s t : SharedCmos} → CmosReach s t → CmosReach s (solo i k t)
CmosReach-solo zero i r = r
CmosReach-solo (suc k) i r = CmosReach-solo k i (next r (goes_on i refl))

-- What `solo` leaves: the device and the vCPU as `advanced` has them, the other vCPUs where they stood.
abbrev Leaves : ℕ → SharedCmos → Cmos × Stage → SharedCmos → Type 0
Leaves i s (c, p) t =
    (t.shared ≡ c) × (t.stages i ≡ p) × ((j : ℕ) → j ≢ i → t.stages j ≡ s.stages j)

moved-same : (s : SharedCmos) (i : ℕ) (m : Cmos × Stage) → (moved s i m).stages i ≡ m.1
moved-same s i (c, p) = ground arith

moved-other :
    (s : SharedCmos) (i j : ℕ) (m : Cmos × Stage) → j ≢ i → (moved s i m).stages j ≡ s.stages j
moved-other s i j (c, p) h = ground arith

solo-Leaves :
    (k i : ℕ) (s : SharedCmos) → Leaves i s (advanced k (s.shared, s.stages i)) (solo i k s)
solo-Leaves zero i s = (refl, refl, λ j h. refl)
solo-Leaves (suc k) i s =
    let m = advance s.shared (s.stages i) in
    let (a, b, kept) = solo-Leaves k i (moved s i m) in
    let same = moved-same s i m in
    (
      a ∙ ap (λ p. (advanced k (m.0, p)).0) same,
      b ∙ ap (λ p. (advanced k (m.0, p)).1) same,
      λ j h. kept j h ∙ moved-other s i j m h,
    )

-- From a valid device, whenever a vCPU is in no access, also while others stand within theirs: for
-- each access of one byte at the two ports, Read or Write taken as a whole stays in the array and
-- returns 0, and the system can go on to where the device, and the byte that the vCPU has read, are
-- what the whole access leaves, the vCPU is in no access, and the others stand where they stood.
pub reach-access :
    (s : SharedCmos) (i : ℕ) (op : Op) (heard : Option ℕ)
    → IsValid s.shared
    → s.stages i ≡ rest heard
    → (r : Reply Cmos) × (access (access_of op) s.shared ≡ some r)
      × (r.ret ≡ pos 0)
      × (t : SharedCmos) × CmosReach s t
      × (t.shared ≡ r.dev)
      × (t.stages i ≡ rest (heard_in op r.buf))
      × ((j : ℕ) → j ≢ i → t.stages j ≡ s.stages j)
reach-access s i op heard v idle =
    let m = enter op s.shared in
    let s' = moved s i m in
    let (r, whole, zero_ret, points) = access-Agrees op s.shared v in
    let (a, b, kept) = solo-Leaves 3 i s' in
    let points' : advanced 3 (m.0, s'.stages i) ≡ (r.dev, rest (heard_in op r.buf)) =
      ap (λ p. advanced 3 (m.0, p)) (moved-same s i m) ∙ points in
    (
      r,
      whole,
      zero_ret,
      solo i 3 s',
      CmosReach-solo 3 i (next here (begins i op heard idle refl)),
      a ∙ ap (λ m. m.0) points',
      b ∙ ap (λ m. m.1) points',
      λ j h. kept j h ∙ moved-other s i j m h,
    )
