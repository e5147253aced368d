-- ===== src/Sleeplock/Progress.antt =====
-- kernel/sleeplock.c: who waits for a free lock can take it, and holdingsleep tells who has it.
use zerocopy_ringbuf.Common.{
  ℕ, ◌≡◌, ◌≢◌, ◌<◌, ◌↔◌, ◌⊎◌, inl, inr, refl, true, false, ◌==◌, arith, Bool-cases,
}
use zerocopy_ringbuf.Proc.{Procs, nproc, running, runnable, sleeping, end_sleep, dispatch}
use zerocopy_ringbuf.Sleeplock.{
  acquiresleep, holdingsleep, waiting, holds, System, asked, acquire_again, schedule, Reach, here,
  next,
}
use zerocopy_ringbuf.Sleeplock.Waiting.{start, Reach-IsLocked}

asked-holds :
    (lk i : ℕ) (s : System) (ps : Procs)
    → s.lock.locked ≡ false
    → (asked lk i s.lock ps s.place).place i ≡ holds
unfolding acquiresleep
asked-holds lk i s ps f = ground (arith, f)

-- The next segment of a process that is awake in acquiresleep takes the free lock.
again :
    (lk i : ℕ) (s : System)
    → i < nproc
    → s.place i ≡ waiting
    → s.lock.locked ≡ false
    → (s.procs i).state ≡ running
    → (t : System) × Reach lk s t × (t.place i ≡ holds)
again lk i s lt at f run = (
  asked lk i s.lock (end_sleep i s.procs) s.place,
  next here (acquire_again i lt run at),
  asked-holds lk i s (end_sleep i s.procs) f,
)

dispatch-running : (i : ℕ) (ps : Procs) → (dispatch i ps i).state ≡ running
unfolding dispatch
dispatch-running i ps = let at : (i == i) ≡ true = ground arith in rw at refl

Reach-after : {lk : ℕ} {s t u : System} → Reach lk s t → Reach lk t u → Reach lk s u
Reach-after r here = r
Reach-after r (next q st) = next (Reach-after r q) st

module _ (lk : ℕ) (ps : Procs) {s : System} (i : ℕ) (none_asleep : (j : ℕ) → (ps j).chan ≢ lk)
    (r : Reach lk (start ps) s) where
  -- In a state that is reached from a new lock, on whose address no process sleeps yet, by any
  -- steps of the processes and the scheduler: where a process of the table waits in acquiresleep
  -- and the lock is free, the process is not asleep, and there are steps that lead to its holding
  -- the lock.
  pub Reach-acquires :
      i < nproc
      → s.place i ≡ waiting
      → s.lock.locked ≡ false
      → ((s.procs i).state ≢ sleeping) × (t : System) × Reach lk s t × (t.place i ≡ holds)
  Reach-acquires lt at f =
      let v = Reach-IsLocked lk ps none_asleep r in
      let w = v.queue.waits i at in
      let awake : (s.procs i).state ≢ sleeping =
        λ asleep. cc (v.queue.asleep i lt asleep w.on_lock) in
      let (t, q, h) = reaches awake w.active in (awake, t, q, h)
    where
      reaches :
          (s.procs i).state ≢ sleeping
          → ((s.procs i).state ≡ sleeping)
            ⊎ ((s.procs i).state ≡ runnable)
            ⊎ ((s.procs i).state ≡ running)
          → (t : System) × Reach lk s t × (t.place i ≡ holds)
      reaches awake (inl asleep) = absurd (awake asleep)
      reaches awake (inr (inl ready)) =
          let s' : System = record s { procs = dispatch i s.procs } in
          let (t, q, h) = again lk i s' lt at f (dispatch-running i s.procs) in
          (t, Reach-after (next here (schedule i ready)) q, h)
      reaches awake (inr (inr run)) = again lk i s lt at f run

  -- In a state that is reached from a new lock, on whose address no process sleeps yet,
  -- holdingsleep is true for a process, whose pid no other has, exactly while it is between
  -- acquiresleep and releasesleep.
  holdingsleep_iff :
      ((j : ℕ) → (s.procs j).pid ≡ (s.procs i).pid → j ≡ i)
      → (holdingsleep i s.lock s.procs ≡ true) ↔ (s.place i ≡ holds)
  holdingsleep_iff alone =
      let v = Reach-IsLocked lk ps none_asleep r in
      (
        λ h. elim (Bool-cases s.lock.locked) [
          | inl l ↦
              let (j, a) = v.held l in
              let e : j ≡ i = alone j (ground (arith, h, l, v.marked j a)) in rw e at a
          | inr f ↦ absurd (ground (arith, f, h))
        ],
        λ a. elim (Bool-cases s.lock.locked) [
          | inl l ↦ ground (arith, l, v.marked i a)
          | inr f ↦ absurd (v.free f i a)
        ],
      )
