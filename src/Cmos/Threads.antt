-- ===== src/Cmos/Threads.antt =====
-- Several vCPUs at the CMOS, which has no lock: `CMOS::Read` and `CMOS::Write` taken apart at each use
-- of `index` and `data` (sequential consistency). Accesses are one byte wide, at the two ports; the
-- others touch nothing. `Defs` has each access as a whole.
use lvmm.Base.{
  ℕ, ◌<◌, ◌≡◌, ◌≢◌, ◌&&◌, bit_and, Bool-cases, inl, inr, Option, none, some, arith, get_elem?, set,
  length, ltb, ◌==◌, if◌then◌else◌, length-set, get_elem?-lt,
}
use lvmm.Base.Bits.{bit_and-ones}
use lvmm.Cmos.Constants.{cmos_index_mask, cmos_mem_size, cmos_reg_shutdown, cmos_reg_stat_d}
use lvmm.Cmos.Defs.{Tm, Cmos, reg_value}
use lvmm.Cmos.Safety.{IsValid}

-- What a guest's access does: a write or a read of port 0x70, a read of port 0x71, a write
-- to it. A read has the time at which it is made.
pub data Op : Type 0 where
  select : ℕ → Op
  ask : Tm → Op
  look : Tm → Op
  put : ℕ → Op

-- Where a vCPU stands. `rest`: in no access, with the byte that the last one has read. In a read of the
-- data port: past the `switch` at its `default`, with `index` read for `data[index]`, with the byte
-- read. In a write to it: past the guard, with `index` read, before `index = CMOS_REG_STAT_D`.
-- `faulted`: a use of `data` outside the array.
pub data Stage : Type 0 where
  rest : Option ℕ → Stage
  fetching : Stage
  fetching_at fetched storing : ℕ → Stage
  storing_at : ℕ → ℕ → Stage
  resetting faulted : Stage

-- The first point of an access.
unfoldable pub enter : Op → Cmos → Cmos × Stage
enter (select v) c = (record c { index = bit_and v cmos_index_mask }, rest none)
enter (ask now) c = (c, rest (some c.index))
enter (look now) c = (c, elim (reg_value now c.index) [ some v ↦ fetched v | none ↦ fetching ])
enter (put v) c = (c, if c.index == cmos_reg_shutdown && v == 0 then resetting else storing v)

-- The next point of the access that a vCPU is in.
unfoldable pub advance : Cmos → Stage → Cmos × Stage
advance c (rest heard) = (c, rest heard)
advance c fetching = (c, fetching_at c.index)
advance c (fetching_at i) = (c, elim (get_elem? c.mem i) [ some v ↦ fetched v | none ↦ faulted ])
advance c (fetched v) = (record c { index = cmos_reg_stat_d }, rest (some v))
advance c (storing v) = (c, storing_at c.index v)
advance c (storing_at i v) =
    if ltb i (length c.mem) then (record c { mem = set c.mem i v }, resetting) else (c, faulted)
advance c resetting = (record c { index = cmos_reg_stat_d }, rest none)
advance c faulted = (c, faulted)

pub record SharedCmos : Type 0 where
  pub shared : Cmos
  pub stages : ℕ → Stage

-- vCPU `i` moves.
abbrev pub moved : SharedCmos → ℕ → Cmos × Stage → SharedCmos
moved s i (c, p) = record { shared = c; stages = λ j. if j == i then p else s.stages j }

pub data Move (s t : SharedCmos) : Type 0 where
  begins :
      (i : ℕ) (op : Op) (heard : Option ℕ)
      → s.stages i ≡ rest heard
      → t ≡ moved s i (enter op s.shared)
      → Move s t
  goes_on : (i : ℕ) → t ≡ moved s i (advance s.shared (s.stages i)) → Move s t

pub data CmosReach (s : SharedCmos) : SharedCmos → Type 0 where
  here : CmosReach s s
  next : {t u : SharedCmos} → CmosReach s t → Move t u → CmosReach s u

-- A place that a vCPU has read from `index` lies in the array.
abbrev pub IsInside : Stage → Type 0
IsInside (fetching_at i) = i < cmos_mem_size
IsInside (storing_at i v) = i < cmos_mem_size
IsInside faulted = ⊥
IsInside _ = Unit

abbrev BothSafe : Cmos × Stage → Type 0
BothSafe (c, p) = IsValid c × IsInside p

enter-BothSafe : (op : Op) (c : Cmos) → IsValid c → BothSafe (enter op c)
unfolding enter
enter-BothSafe (select b) c v = ground (arith, bit_and-ones 7 b)
enter-BothSafe (ask now) c v = (v, tt)
enter-BothSafe (look now) c v = ground arith
enter-BothSafe (put b) c v = ground arith

advance-BothSafe : (c : Cmos) (p : Stage) → IsValid c → IsInside p → BothSafe (advance c p)
unfolding advance
advance-BothSafe c (rest heard) v h = (v, tt)
advance-BothSafe c fetching v h = (v, v.selected)
advance-BothSafe c (fetching_at i) v h = ground (arith, get_elem?-lt c.mem i)
advance-BothSafe c (fetched b) v h = ground arith
advance-BothSafe c (storing b) v h = (v, v.selected)
advance-BothSafe c (storing_at i b) v h = ground (arith, length-set c.mem i b)
advance-BothSafe c resetting v h = ground arith
advance-BothSafe c faulted v h = absurd h

pub record IsSafe (s : SharedCmos) : Type 0 where
  pub valid : IsValid s.shared
  pub inside : (i : ℕ) → IsInside (s.stages i)

moved-IsSafe :
    (s : SharedCmos) (i : ℕ) (m : Cmos × Stage) → IsSafe s → BothSafe m → IsSafe (moved s i m)
moved-IsSafe s i (c, p) h (v, b) = record {
  valid = v;
  inside = λ j. elim (Bool-cases (j == i)) [ inl e ↦ rw e b | inr e ↦ rw e (h.inside j) ];
}

step-IsSafe : {s t : SharedCmos} → Move s t → IsSafe s → IsSafe t
step-IsSafe {s} (begins i op heard idle e) h =
    rw e (moved-IsSafe s i (enter op s.shared) h (enter-BothSafe op s.shared h.valid))
step-IsSafe {s} (goes_on i e) h = rw e (
    moved-IsSafe s i (advance s.shared (s.stages i)) h
      (advance-BothSafe s.shared (s.stages i) h.valid (h.inside i)))

pub reach-IsSafe : {s t : SharedCmos} → CmosReach s t → IsSafe s → IsSafe t
reach-IsSafe here h = h
reach-IsSafe (next r st) h = step-IsSafe st (reach-IsSafe r h)

abbrev pub AllRest : SharedCmos → Type 0
AllRest s = (i : ℕ) → (heard : Option ℕ) × (s.stages i ≡ rest heard)

AllRest-IsSafe : (s : SharedCmos) → IsValid s.shared → AllRest s → IsSafe s
AllRest-IsSafe s v a = record { valid = v; inside = λ i. let (heard, e) = a i in rw e tt }

-- However many vCPUs access the CMOS without a lock, and whichever way the points of their accesses
-- interleave: from a valid device that no vCPU is accessing, no use of the array is outside it, and the
-- device is valid at every point.
pub reach-IsValid :
    (s t : SharedCmos)
    → IsValid s.shared
    → AllRest s
    → CmosReach s t
    → IsValid t.shared × ((i : ℕ) → t.stages i ≢ faulted)
reach-IsValid s t v a r =
    let h = reach-IsSafe r (AllRest-IsSafe s v a) in (h.valid, λ i e. rw e at (h.inside i))
