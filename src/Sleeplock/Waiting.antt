-- ===== src/Sleeplock/Waiting.antt =====
-- kernel/sleeplock.c: who holds a lock, and who sleeps for it.
use zerocopy_ringbuf.Common.{
  ℕ, ◌≡◌, ◌≢◌, ◌<◌, ◌⊎◌, inl, inr, refl, sym, ◌∙◌, Bool, true, false, ◌==◌, if◌then◌else◌, arith,
  Bool-cases,
}
use mathlib.Core.Path.{subst}
use zerocopy_ringbuf.Proc.{
  Proc, Procs, nproc, put, running, runnable, sleeping, sleep, end_sleep, wakeup, kill, yield,
  dispatch,
}
use zerocopy_ringbuf.Proc.Rouse.{Roused, wakeup-Roused, wakeup-awake, kill-Roused}
use zerocopy_ringbuf.Sleeplock.{
  Sleeplock, initsleeplock, acquiresleep, releasesleep, Place, outside, waiting, holds, System,
  moved, asked, Step, acquire, acquire_again, release, schedule, give_way, kill_one,
  sleep_elsewhere, end_elsewhere, wake_elsewhere, Reach, here, next,
}

-- A process that waits for the lock: it sleeps on it, or it is awake and about to try again.
pub record Waits (lk : ℕ) (p : Proc) : Type 0 where
  pub on_lock : p.chan ≡ lk
  pub active : (p.state ≡ sleeping) ⊎ (p.state ≡ runnable) ⊎ (p.state ≡ running)

-- Of the processes, all that matters to the lock.
pub record IsQueue (lk : ℕ) (locked : Bool) (ps : Procs) (place : ℕ → Place) : Type 0 where
  pub asleep : (j : ℕ) → j < nproc → (ps j).state ≡ sleeping → (ps j).chan ≡ lk → locked ≡ true
  pub waits : (j : ℕ) → place j ≡ waiting → Waits lk (ps j)

pub record IsLocked (lk : ℕ) (s : System) : Type 0 where
  pub free : s.lock.locked ≡ false → (j : ℕ) → s.place j ≢ holds
  pub unique : (i j : ℕ) → s.place i ≡ holds → s.place j ≡ holds → i ≡ j
  pub marked : (i : ℕ) → s.place i ≡ holds → s.lock.pid ≡ (s.procs i).pid
  pub held : s.lock.locked ≡ true → (i : ℕ) × (s.place i ≡ holds)
  pub queue : IsQueue lk s.lock.locked s.procs s.place

-- Processes that change only in ways that no one waiting for the lock and no holder sees.
keep-IsLocked :
    (lk : ℕ) (s : System) (ps : Procs)
    → IsLocked lk s
    → ((j : ℕ) → (ps j).pid ≡ (s.procs j).pid)
    → IsQueue lk s.lock.locked ps s.place
    → IsLocked lk (record s { procs = ps })
keep-IsLocked lk s ps v same q = record {
  free = v.free;
  unique = v.unique;
  marked = λ i h. v.marked i h ∙ sym (same i);
  held = v.held;
  queue = q;
}

Roused-Waits : (lk : ℕ) (p q : Proc) → Roused p q → Waits lk p → Waits lk q
Roused-Waits lk p q r w = record {
  on_lock = r.same_chan ∙ w.on_lock;
  active = ground (arith, r.state_kept, w.active);
}

Roused-IsQueue :
    (lk : ℕ) (locked : Bool) (ps ps' : Procs) (place : ℕ → Place)
    → IsQueue lk locked ps place
    → ((j : ℕ) → Roused (ps j) (ps' j))
    → IsQueue lk locked ps' place
Roused-IsQueue lk locked ps ps' place v r = record {
  asleep = λ j lt s c. v.asleep j lt (ground (arith, (r j).state_kept)) (sym (r j).same_chan ∙ c);
  waits = λ j at. Roused-Waits lk (ps j) (ps' j) (r j) (v.waits j at);
}

-- One process changes, and not into one that sleeps on the free lock.
put-IsQueue :
    (lk : ℕ) (locked : Bool) (ps : Procs) (place : ℕ → Place) (i : ℕ) (p : Proc)
    → IsQueue lk locked ps place
    → (p.state ≡ sleeping → p.chan ≡ lk → locked ≡ true)
    → (place i ≡ waiting → Waits lk p)
    → IsQueue lk locked (put ps i p) place
put-IsQueue lk locked ps place i p v asleep waits = record {
  asleep = λ j lt. elim (Bool-cases (j == i)) [
    | inl at ↦ rw at asleep
    | inr off ↦ rw off (v.asleep j lt)
  ];
  waits = λ j w. elim (Bool-cases (j == i)) [
    | inl at ↦ let e : j ≡ i = ground arith in rw at (waits (rw e at w))
    | inr off ↦ rw off (v.waits j w)
  ];
}

put-pid :
    (ps : Procs) (i : ℕ) (p : Proc) → p.pid ≡ (ps i).pid → (j : ℕ) → (put ps i p j).pid ≡ (ps j).pid
put-pid ps i p e j = elim (Bool-cases (j == i)) [
  | inl at ↦ let q : j ≡ i = ground arith in rw at (rw q e)
  | inr off ↦ rw off refl
]

-- A process takes the free lock.
take-IsLocked :
    (lk i : ℕ) (s : System) (ps : Procs)
    → IsLocked lk s
    → s.lock.locked ≡ false
    → ((j : ℕ) → j ≢ i → s.place j ≡ waiting → Waits lk (ps j))
    → IsLocked lk (record {
      lock = record { locked = true; pid = (ps i).pid };
      procs = ps;
      place = moved i holds s.place;
    })
take-IsLocked lk i s ps v f others = record {
  free = λ e. absurd (cc);
  unique = λ j k a b. ground (arith, v.free f j, v.free f k);
  marked = λ j a. elim (Bool-cases (j == i)) [
    | inl at ↦ let e : j ≡ i = ground arith in rw e refl
    | inr off ↦ absurd (v.free f j (rw off at a))
  ];
  held = λ _. (i, ground arith);
  queue = record {
    asleep = λ j lt e c. refl;
    waits = λ j a. elim (Bool-cases (j == i)) [
      | inl at ↦ absurd (ground (arith, a, at))
      | inr off ↦ others j (λ e. ground (arith, off, e)) (rw off at a)
    ];
  };
}

-- A process goes to sleep for the lock, which is held.
wait-IsLocked :
    (lk i : ℕ) (s : System) (ps : Procs)
    → IsLocked lk s
    → s.lock.locked ≡ true
    → s.place i ≢ holds
    → ((j : ℕ) → (ps j).pid ≡ (s.procs j).pid)
    → ((j : ℕ) → j ≢ i → s.place j ≡ waiting → Waits lk (ps j))
    → IsLocked lk (record { lock = s.lock; procs = sleep i lk ps; place = moved i waiting s.place })
unfolding sleep
wait-IsLocked lk i s ps v l outsider same others = record {
  free = λ e. absurd (cc);
  unique = λ j k a b. ground (arith, v.unique j k);
  marked = λ j a. elim (Bool-cases (j == i)) [
    | inl at ↦ absurd (ground (arith, a, at))
    | inr off ↦ rw off (v.marked j (rw off at a) ∙ sym (same j))
  ];
  held = λ _. let (j, h) = v.held l in (j, ground (arith, h, outsider));
  queue = record {
    asleep = λ j lt e c. l;
    waits = λ j a. elim (Bool-cases (j == i)) [
      | inl at ↦ rw at (record { on_lock = refl; active = inl refl })
      | inr off ↦ rw off (others j (λ e. ground (arith, off, e)) (rw off at a))
    ];
  };
}

acquiresleep-wait :
    (lk i : ℕ) (l : Sleeplock) (ps : Procs)
    → l.locked ≡ true
    → acquiresleep lk i l ps ≡ (false, l, sleep i lk ps)
unfolding acquiresleep
acquiresleep-wait lk i l ps e = rw e refl

asked-IsLocked :
    (lk i : ℕ) (s : System) (ps : Procs)
    → IsLocked lk s
    → s.place i ≢ holds
    → ((j : ℕ) → (ps j).pid ≡ (s.procs j).pid)
    → ((j : ℕ) → j ≢ i → s.place j ≡ waiting → Waits lk (ps j))
    → IsLocked lk (asked lk i s.lock ps s.place)
unfolding acquiresleep
asked-IsLocked lk i s ps v outsider same others = elim (Bool-cases s.lock.locked) [
  | inl l ↦
      subst
        (λ (r : Bool × Sleeplock × Procs). IsLocked lk (record {
          lock = r.1;
          procs = r.2;
          place = moved i (if r.0 then holds else waiting) s.place;
        }))
        (sym (acquiresleep-wait lk i s.lock ps l))
        (wait-IsLocked lk i s ps v l outsider same others)
  | inr f ↦ rw f (take-IsLocked lk i s ps v f others)
]

-- The holder gives the lock back, and wakes who sleeps for it.
release-IsLocked :
    (lk i : ℕ) (s : System)
    → IsLocked lk s
    → (s.procs i).state ≡ running
    → s.place i ≡ holds
    → IsLocked lk (record {
      lock = (releasesleep lk i s.lock s.procs).0;
      procs = (releasesleep lk i s.lock s.procs).1;
      place = moved i outside s.place;
    })
unfolding releasesleep
release-IsLocked lk i s v run holder =
    let others : (j : ℕ) → moved i outside s.place j ≢ holds =
      λ j a. ground (arith, v.unique i j) in
    record {
      free = λ e. others;
      unique = λ j k a b. absurd (others j a);
      marked = λ j a. absurd (others j a);
      held = λ e. absurd (cc);
      queue = record {
        asleep = λ j lt e c. elim (Bool-cases (j == i)) [
          | inl at ↦
              let q : j ≡ i = ground arith in
              absurd (ground (arith, (wakeup-Roused i lk s.procs i).state_kept, rw q at e))
          | inr off ↦ absurd (wakeup-awake i lk s.procs j lt (λ q. ground (arith, off, q)) c e)
        ];
        waits = λ j a. elim (Bool-cases (j == i)) [
          | inl at ↦ absurd (ground (arith, a, at))
          | inr off ↦
              Roused-Waits lk (s.procs j) (wakeup i lk s.procs j) (wakeup-Roused i lk s.procs j)
                (v.queue.waits j (rw off at a))
        ];
      };
    }

put-other : (ps : Procs) (i : ℕ) (p : Proc) (j : ℕ) → j ≢ i → put ps i p j ≡ ps j
put-other ps i p j ne = let off : (j == i) ≡ false = ground arith in rw off refl

-- A process that is not asleep, or sleeps elsewhere, changes.
one-IsLocked :
    (lk i : ℕ) (s : System) (p : Proc)
    → IsLocked lk s
    → p.pid ≡ (s.procs i).pid
    → (p.state ≡ sleeping → p.chan ≡ lk → s.lock.locked ≡ true)
    → (s.place i ≡ waiting → Waits lk p)
    → IsLocked lk (record s { procs = put s.procs i p })
one-IsLocked lk i s p v same asleep waits =
    keep-IsLocked lk s (put s.procs i p) v (put-pid s.procs i p same)
      (put-IsQueue lk s.lock.locked s.procs s.place i p v.queue asleep waits)

Roused-IsLocked :
    (lk : ℕ) (s : System) (ps : Procs)
    → IsLocked lk s
    → ((j : ℕ) → Roused (s.procs j) (ps j))
    → IsLocked lk (record s { procs = ps })
Roused-IsLocked lk s ps v r =
    keep-IsLocked lk s ps v (λ j. (r j).same_pid)
      (Roused-IsQueue lk s.lock.locked s.procs ps s.place v.queue r)

pub Step-IsLocked : (lk : ℕ) {s t : System} → IsLocked lk s → Step lk s t → IsLocked lk t
unfolding end_sleep dispatch yield sleep
Step-IsLocked lk {s} v (acquire i lt run at) =
    asked-IsLocked lk i s s.procs v (λ h. cc) (λ j. refl) (λ j ne w. v.queue.waits j w)
Step-IsLocked lk {s} v (acquire_again i lt run at) =
    let p : Proc = record (s.procs i) { chan = 0 } in
    asked-IsLocked lk i s (end_sleep i s.procs) v (λ h. cc) (put-pid s.procs i p refl)
      (λ j ne w. rw (put-other s.procs i p j ne) (v.queue.waits j w))
Step-IsLocked lk {s} v (release i lt run at) = release-IsLocked lk i s v run at
Step-IsLocked lk {s} v (schedule i ready) =
    one-IsLocked lk i s (record (s.procs i) { state = running }) v refl (λ e. absurd (cc))
      (λ w. record { on_lock = (v.queue.waits i w).on_lock; active = inr (inr refl) })
Step-IsLocked lk {s} v (give_way i run) =
    one-IsLocked lk i s (record (s.procs i) { state = runnable }) v refl (λ e. absurd (cc))
      (λ w. record { on_lock = (v.queue.waits i w).on_lock; active = inr (inl refl) })
Step-IsLocked lk {s} v (kill_one pid) =
    Roused-IsLocked lk s (kill pid s.procs).1 v (λ j. kill-Roused pid s.procs j)
Step-IsLocked lk {s} v (sleep_elsewhere i chan ne run off) =
    one-IsLocked lk i s (record (s.procs i) { chan = chan; state = sleeping }) v refl
      (λ e c. absurd (ne c)) (λ w. absurd (off w))
Step-IsLocked lk {s} v (end_elsewhere i run off) =
    one-IsLocked lk i s (record (s.procs i) { chan = 0 }) v refl (λ e. absurd (cc))
      (λ w. absurd (off w))
Step-IsLocked lk {s} v (wake_elsewhere i chan) =
    Roused-IsLocked lk s (wakeup i chan s.procs) v (λ j. wakeup-Roused i chan s.procs j)

-- A new lock, with no process at it.
abbrev pub start : Procs → System
start ps = record { lock = initsleeplock; procs = ps; place = λ _. outside }

pub start-IsLocked : (lk : ℕ) (ps : Procs) → ((j : ℕ) → (ps j).chan ≢ lk) → IsLocked lk (start ps)
unfolding initsleeplock
start-IsLocked lk ps none_asleep = record {
  free = λ e j a. absurd (cc);
  unique = λ i j a. absurd (cc);
  marked = λ i a. absurd (cc);
  held = λ e. absurd (cc);
  queue = record { asleep = λ j lt e c. absurd (none_asleep j c); waits = λ j a. absurd (cc) };
}

-- From a new lock, on whose address no process sleeps yet, every sequence of steps of the
-- processes and the scheduler leads to a state in which at most one process holds the lock,
-- lk->pid is its pid, the lock is locked exactly while there is one, and no process of the table
-- sleeps on the lock while it is free.
pub Reach-IsLocked :
    (lk : ℕ) (ps : Procs) {s : System}
    → ((j : ℕ) → (ps j).chan ≢ lk)
    → Reach lk (start ps) s
    → IsLocked lk s
Reach-IsLocked lk ps none_asleep here = start-IsLocked lk ps none_asleep
Reach-IsLocked lk ps none_asleep (next r st) =
    Step-IsLocked lk (Reach-IsLocked lk ps none_asleep r) st
