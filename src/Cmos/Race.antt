-- ===== src/Cmos/Race.antt =====
-- The guard of `CMOS::Write` that keeps a zero from the shutdown register, and two vCPUs at it.
use lvmm.Base.{
  ℕ, ◌≡◌, ◌≢◌, refl, List, [], ◌∷◌, none, some, arith, get_elem?, get_elem?-set, Option-cases, inl,
  inr,
}
use lvmm.IoDev.{Reply, first}
use lvmm.Cmos.Constants.{cmos_reg_shutdown}
use lvmm.Cmos.Defs.{Cmos, cmos_read, cmos_write, store_data}
use lvmm.Cmos.Safety.{IsValid, Access, read, write, access, run}
use lvmm.Cmos.Threads.{
  select, put, rest, storing, enter, advance, SharedCmos, moved, CmosReach, here, next, begins,
}
use lvmm.Cmos.Alone.{solo, CmosReach-solo}

-- The shutdown register holds a zero.
abbrev pub HoldsZero : Cmos → Type 0
HoldsZero c = get_elem? c.mem cmos_reg_shutdown ≡ some 0

store_data-guarded : (c c' : Cmos) (v : ℕ) → store_data c v ≡ some c' → HoldsZero c' → HoldsZero c
unfolding store_data
store_data-guarded c c' v e z = ground (arith, get_elem?-set c.mem c.index 15 v)

access-guarded :
    (a : Access) (c : Cmos) {r : Reply Cmos} → access a c ≡ some r → HoldsZero r.dev → HoldsZero c
unfolding access cmos_read cmos_write
access-guarded (read now port buf size) c e z = ground arith
access-guarded (write port buf size) c e z = elim (Option-cases (store_data c (first buf))) [
  | inl n ↦ ground (arith, n)
  | inr (c', n) ↦ ground (arith, n, store_data-guarded c c' (first buf) n)
]

run-guarded :
    (accesses : List Access) (c c' : Cmos) → run accesses c ≡ some c' → HoldsZero c' → HoldsZero c
unfolding run
run-guarded [] c c' e z = ground (arith, e)
run-guarded (a ∷ more) c c' e z = elim (Option-cases (access a c)) [
  | inl n ↦ cc (rw (n, run) at e)
  | inr (r, n) ↦ access-guarded a c n (run-guarded more r.dev c' (rw (n, run) at e) z)
]

-- vCPU 0 passes the guard with a zero, vCPU 1 selects the shutdown register, vCPU 0 goes on.
abbrev pub at_rest : Cmos → SharedCmos
at_rest c = record { shared = c; stages = λ i. rest none }

abbrev guard_passed : Cmos → SharedCmos
guard_passed c = moved (at_rest c) 0 (c, storing 0)

abbrev reselected : Cmos → SharedCmos
reselected c = moved (guard_passed c) 1 (record c { index = cmos_reg_shutdown }, rest none)

guard-passes :
    (c : Cmos)
    → c.index ≢ cmos_reg_shutdown
    → guard_passed c ≡ moved (at_rest c) 0 (enter (put 0) c)
unfolding enter
guard-passes c h = ground arith

reaches : (c : Cmos) → c.index ≢ cmos_reg_shutdown → CmosReach (at_rest c) (solo 0 3 (reselected c))
unfolding enter
reaches c h = CmosReach-solo 3 0 (
    next (next here (begins 0 (put 0) none refl (guard-passes c h)))
      (begins 1 (select cmos_reg_shutdown) none refl refl))

module _ (c : Cmos) (v : IsValid c) where
  over : (i : ℕ) → (solo 0 3 (reselected c)).stages i ≡ rest none
  unfolding advance
  over i = ground (arith, v.sized)

  zeroed : HoldsZero (solo 0 3 (reselected c)).shared
  unfolding advance
  zeroed = ground (arith, v.sized, get_elem?-set c.mem 15 15 0)

-- With one access after the other, a zero never comes into the shutdown register where there is none.
-- With two vCPUs and no lock it does, from every valid device with another register selected: there
-- is an interleaving after which every vCPU is in no access and the register holds a zero.
pub shutdown_guard-races :
    (c : Cmos)
    → IsValid c
    → c.index ≢ cmos_reg_shutdown
    → ((accesses : List Access) (c' : Cmos) → run accesses c ≡ some c' → HoldsZero c' → HoldsZero c)
      × (t : SharedCmos) × CmosReach (at_rest c) t
      × ((i : ℕ) → t.stages i ≡ rest none)
      × HoldsZero t.shared
shutdown_guard-races c v h = (
  λ accesses c'. run-guarded accesses c c',
  solo 0 3 (reselected c),
  reaches c h,
  over c v,
  zeroed c v,
)
