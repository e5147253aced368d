-- ===== src/Sleeplock.antt =====
-- kernel/sleeplock.c: locks for processes that sleep while they wait. Each function holds the
-- spinlock `lk->lk` but while it sleeps, so acquiresleep is cut there into segments. The lock's name
-- is left out.
pub mod Waiting
pub mod Progress
mod Tests
use zerocopy_ringbuf.Common.{ℕ, ◌≡◌, ◌≢◌, ◌<◌, Bool, true, false, ◌&&◌, ◌==◌, if◌then◌else◌}
use zerocopy_ringbuf.Proc.{
  Proc, Procs, nproc, running, runnable, sleep, end_sleep, wakeup, kill, yield, dispatch,
}

pub record Sleeplock : Type 0 where
  pub locked : Bool
  pub pid : ℕ

unfoldable pub initsleeplock : Sleeplock
initsleeplock = record { locked = false; pid = 0 }

-- A segment of `acquiresleep` by a process, and whether it ends with the lock taken; the lock's
-- address is the channel.
unfoldable pub acquiresleep : ℕ → ℕ → Sleeplock → Procs → Bool × Sleeplock × Procs
acquiresleep lk me l ps =
    if l.locked
    then (false, l, sleep me lk ps)
    else (true, record { locked = true; pid = (ps me).pid }, ps)

unfoldable pub releasesleep : ℕ → ℕ → Sleeplock → Procs → Sleeplock × Procs
releasesleep lk me l ps = (record { locked = false; pid = 0 }, wakeup me lk ps)

abbrev pub holdingsleep : ℕ → Sleeplock → Procs → Bool
holdingsleep me l ps = l.locked && (l.pid == (ps me).pid)

-- Where a process is: `waiting` is in the sleep of acquiresleep, and `holds` is behind it.
pub data Place : Type 0 where
  outside : Place
  waiting : Place
  holds : Place

pub record System : Type 0 where
  pub lock : Sleeplock
  pub procs : Procs
  pub place : ℕ → Place

abbrev pub moved : ℕ → Place → (ℕ → Place) → ℕ → Place
moved i p place j = if j == i then p else place j

-- A process runs a segment of acquiresleep.
abbrev pub asked : ℕ → ℕ → Sleeplock → Procs → (ℕ → Place) → System
asked lk i l ps place =
    let (took, l', ps') = acquiresleep lk i l ps in
    record { lock = l'; procs = ps'; place = moved i (if took then holds else waiting) place }

-- What the processes and the scheduler may do, with `lk` the address of the lock.
pub data Step (lk : ℕ) (s : System) : System → Type 0 where
  acquire :
      (i : ℕ)
      → i < nproc
      → (s.procs i).state ≡ running
      → s.place i ≡ outside
      → Step lk s (asked lk i s.lock s.procs s.place)
  acquire_again :
      (i : ℕ)
      → i < nproc
      → (s.procs i).state ≡ running
      → s.place i ≡ waiting
      → Step lk s (asked lk i s.lock (end_sleep i s.procs) s.place)
  release :
      (i : ℕ)
      → i < nproc
      → (s.procs i).state ≡ running
      → s.place i ≡ holds
      → Step lk s (record {
        lock = (releasesleep lk i s.lock s.procs).0;
        procs = (releasesleep lk i s.lock s.procs).1;
        place = moved i outside s.place;
      })
  schedule :
      (i : ℕ) → (s.procs i).state ≡ runnable → Step lk s (record s { procs = dispatch i s.procs })
  give_way :
      (i : ℕ) → (s.procs i).state ≡ running → Step lk s (record s { procs = yield i s.procs })
  kill_one : (pid : ℕ) → Step lk s (record s { procs = (kill pid s.procs).1 })
  sleep_elsewhere :
      (i chan : ℕ)
      → chan ≢ lk
      → (s.procs i).state ≡ running
      → s.place i ≢ waiting
      → Step lk s (record s { procs = sleep i chan s.procs })
  end_elsewhere :
      (i : ℕ)
      → (s.procs i).state ≡ running
      → s.place i ≢ waiting
      → Step lk s (record s { procs = end_sleep i s.procs })
  wake_elsewhere : (i chan : ℕ) → Step lk s (record s { procs = wakeup i chan s.procs })

pub data Reach (lk : ℕ) (s : System) : System → Type 0 where
  here : Reach lk s s
  next : {t u : System} → Reach lk s t → Step lk t u → Reach lk s u
