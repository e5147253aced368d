-- ===== src/Spinlock/Exclusion.antt =====
-- Mutual exclusion of kernel/spinlock.c: the CPUs between the swap of acquire and the end of release.
use zerocopy_ringbuf.Common.{
  ℕ, ◌≡◌, ◌↔◌, Bool, true, false, some, arith, Bool-cases, Option, none, refl, ap, inl, inr,
}
use zerocopy_ringbuf.Spinlock.{
  Place, outside, spinning, taken, inside, leaving, Spinlock, is_cpu, holding, Step, Reach,
  initlock, acquire_start, acquire_spin, acquire_swap, acquire_end, release_start, release_end,
  here, next,
}

abbrev pub owns : Place → Bool
owns outside = false
owns spinning = false
owns taken = true
owns inside = true
owns leaving = true

pub record IsExclusive (lk : Spinlock) : Type 0 where
  pub free : lk.locked ≡ false → (j : ℕ) → owns (lk.place j) ≡ false
  pub unique : (i j : ℕ) → owns (lk.place i) ≡ true → owns (lk.place j) ≡ true → i ≡ j
  pub marked : (i : ℕ) → lk.place i ≡ inside → lk.cpu ≡ some i
  pub marks : (i : ℕ) → lk.cpu ≡ some i → lk.place i ≡ inside

Step-IsExclusive : {lk lk' : Spinlock} → IsExclusive lk → Step lk lk' → IsExclusive lk'
Step-IsExclusive v (acquire_start i p h) = record {
  free = λ e j. ground (arith, v.free e j);
  unique = λ j j' o o'. ground (arith, v.unique j j');
  marked = λ j e. ground (arith, v.marked j);
  marks = λ j e. ground (arith, v.marks j e);
}
Step-IsExclusive v (acquire_spin i p l) = record {
  free = λ e j. absurd (cc);
  unique = v.unique;
  marked = v.marked;
  marks = v.marks;
}
Step-IsExclusive v (acquire_swap i p l) = record {
  free = λ e j. absurd (cc);
  unique = λ j j' o o'. ground (arith, v.free l j, v.free l j');
  marked = λ j e. ground (arith, v.marked j);
  marks = λ j e. ground (arith, v.marks j e);
}
Step-IsExclusive v (acquire_end i p) = record {
  free = λ e j. ground (arith, v.free e j, v.free e i);
  unique = λ j j' o o'. ground (arith, v.unique j j', v.unique i j', v.unique j i);
  marked = λ j e. ground (arith, v.marked j, v.unique i j);
  marks = λ j e. ground (arith);
}
Step-IsExclusive v (release_start i p h) = record {
  free = λ e j. ground (arith, v.free e j, v.free e i);
  unique = λ j j' o o'. ground (arith, v.unique j j', v.unique i j', v.unique j i);
  marked = λ j e. ground (arith, v.marked j, v.unique i j);
  marks = λ j e. absurd (cc);
}
Step-IsExclusive {lk} v (release_end i p) = record {
  free = λ e j. elim (Bool-cases (owns (lk.place j))) [
    | inl o ↦ ground (arith, v.unique i j)
    | inr n ↦ ground arith
  ];
  unique = λ j j' o o'. ground (arith, v.unique j j');
  marked = λ j e. ground (arith, v.marked j);
  marks = λ j e. ground (arith, v.marks j e);
}

initlock-IsExclusive : IsExclusive initlock
initlock-IsExclusive = record {
  free = λ e j. refl;
  unique = λ i j o o'. absurd (cc);
  marked = λ i e. absurd (cc);
  marks = λ i e. absurd (cc);
}

-- From a new lock every interleaving of the steps of any number of CPUs leads to a state in which
-- at most one of them is between the swap of acquire and the end of release, none is while the
-- lock is free, and lk->cpu names a CPU exactly while it is between acquire and release.
pub Reach-IsExclusive : {lk : Spinlock} → Reach initlock lk → IsExclusive lk
Reach-IsExclusive here = initlock-IsExclusive
Reach-IsExclusive (next r st) = Step-IsExclusive (Reach-IsExclusive r) st

is_cpu-some : (o : Option ℕ) (i : ℕ) → is_cpu o i ≡ true → o ≡ some i
is_cpu-some none i e = absurd (cc)
is_cpu-some (some c) i e = ap some (ground arith)

-- In every state that is reached from a new lock by the steps of acquire and release, holding is
-- true for a CPU exactly while it is between acquire and release.
holding_iff :
    {lk : Spinlock} (i : ℕ) → Reach initlock lk → (holding lk i ≡ true) ↔ (lk.place i ≡ inside)
holding_iff {lk} i r =
    let v = Reach-IsExclusive r in
    (
      λ h. v.marks i (is_cpu-some lk.cpu i (ground arith)),
      λ e. elim (Bool-cases lk.locked) [
        | inl l ↦ ground (arith, v.marked i e)
        | inr f ↦ absurd (ground (arith, v.free f i))
      ],
    )
