-- ===== src/Run/Ends.antt =====
-- What a schedule of the threads keeps, and when `Boot` returns.
use lvmm.Base.{
  pos, ℕ, suc, ◌<◌, ◌≡◌, refl, ◌∙◌, ◌⊎◌, inl, inr, true, List, [], ◌∷◌, some, length,
  length-replicate, replicate, arith,
}
use lvmm.Cmos.{IsValid}
use lvmm.Pio.{Table}
use lvmm.Exit.{Machine, Dumps, IsFull}
use lvmm.Run.Defs.{Thread, going, ended, Running, Event, run_threads, all_ended, returned, boot}
use lvmm.Run.Rounds.{EventsInTable, HasEnded, StopsAt, RoundEnds, round_of_lem}

-- The threads after a schedule: those that had ended, and those that one of the exits stops, have
-- ended.
record Rounds (es : List Event) (ts ts' : List Thread) : Type 0 where
  same_length : length ts' ≡ length ts
  ends : (i : ℕ) → i < length ts → HasEnded ts i ⊎ StopsAt i es → HasEnded ts' i

module _ (e : Event) (es : List Event) (ts ts1 ts2 : List Thread) (a : RoundEnds e ts ts1)
    (b : Rounds es ts1 ts2) where
  next_end : (i : ℕ) → i < length ts → HasEnded ts i ⊎ StopsAt i (e ∷ es) → HasEnded ts2 i
  next_end i h (inl done) = b.ends i (omega (arith, a.same_length)) (inl (a.keeps i done))
  next_end i h (inr (inl (here, s))) =
      let inside : e.vcpu < length ts = omega (arith, here) in
      b.ends i (omega (arith, a.same_length)) (inl (rw here at (a.stopped s inside)))
  next_end i h (inr (inr later)) = b.ends i (omega (arith, a.same_length)) (inr later)

module _ (d : Dumps) (t : Table) (full : IsFull t) where
  run_threads_lem :
      (es : List Event) (r : Running)
      → EventsInTable es
      → IsValid r.machine.rtc
      → (r' : Running) × (run_threads d t es r ≡ some r')
        × IsValid r'.machine.rtc
        × Rounds es r.threads r'.threads
  unfolding run_threads
  run_threads_lem [] r low v = (
    r,
    refl,
    v,
    record { same_length = refl; ends = λ i h e. elim e [ inl x ↦ x | inr x ↦ absurd x ] },
  )
  run_threads_lem (e ∷ es) r (here, more) v =
      let (r1, e1, v1, a) = round_of_lem d t full e r here v in
      let (r2, e2, v2, b) = run_threads_lem es r1 more v1 in
      (
        r2,
        rw (run_threads, e1) e2,
        v2,
        record {
          same_length = b.same_length ∙ a.same_length;
          ends = next_end e es r.threads r1.threads r2.threads a b;
        },
      )

  -- Over a full table, with a valid CMOS, and whatever the order in which the vCPUs exit: as long as
  -- no exit is an access to port 0xFFFF, none faults, the CMOS stays valid and no thread is lost.
  pub run_threads-IsValid :
      (es : List Event) (r : Running)
      → EventsInTable es
      → IsValid r.machine.rtc
      → (r' : Running) × (run_threads d t es r ≡ some r')
        × IsValid r'.machine.rtc
        × (length r'.threads ≡ length r.threads)
  run_threads-IsValid es r low v =
      let (r', e, w, b) = run_threads_lem es r low v in (r', e, w, b.same_length)

all_ended-HasEnded :
    (ts : List Thread) → ((i : ℕ) → i < length ts → HasEnded ts i) → all_ended ts ≡ true
all_ended-HasEnded [] h = refl
all_ended-HasEnded (going ∷ ts) h = let (code, e) = h 0 (omega arith) in cc e
all_ended-HasEnded (ended code ∷ ts) h = all_ended-HasEnded ts (λ i g. h (suc i) (omega arith))

-- Over a full table, with a valid CMOS and without an access to port 0xFFFF: once each vCPU has had a
-- halt, an access to unmapped memory, a debug exit, or another exit but an I/O access, an interruption
-- or KVM_EXIT_UNKNOWN, Boot returns 0, whatever came before, between and behind these exits, and the
-- CMOS is still valid.
pub boot-returned :
    (d : Dumps) (t : Table) (vcpu_num : ℕ) (es : List Event) (m : Machine)
    → IsFull t
    → EventsInTable es
    → IsValid m.rtc
    → ((i : ℕ) → i < vcpu_num → StopsAt i es)
    → (m' : Machine) × (boot d t vcpu_num es m ≡ returned m' (pos 0)) × IsValid m'.rtc
unfolding boot
boot-returned d t vcpu_num es m full low v h =
    let start : Running = record { machine = m; threads = replicate vcpu_num going } in
    let (r, e, w, b) = run_threads_lem d t full es start low v in
    let same : length r.threads ≡ vcpu_num = b.same_length ∙ length-replicate vcpu_num going in
    let over : all_ended r.threads ≡ true =
      all_ended-HasEnded r.threads
        (λ i g. b.ends i (omega (arith, b.same_length)) (inr (h i (omega (arith, same))))) in
    (r.machine, rw (boot, e, over) refl, w)
