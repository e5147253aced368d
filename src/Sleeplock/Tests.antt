-- ===== src/Sleeplock/Tests.antt =====
-- Tests of kernel/sleeplock.c: process 0 takes the lock, process 1 sleeps for it, and process 0 gives
-- it back.
use zerocopy_ringbuf.Common.{ℕ, ◌+◌, ◌≡◌, ◌≢◌, refl, false, arith}
use zerocopy_ringbuf.Proc.{Procs, running, sleeping, sleep}
use zerocopy_ringbuf.Sleeplock.{
  acquiresleep, releasesleep, initsleeplock, outside, waiting, holds, System, moved, asked, acquire,
  release, Reach, here, next,
}
use zerocopy_ringbuf.Sleeplock.Waiting.{IsLocked, start, Reach-IsLocked}
use zerocopy_ringbuf.Sleeplock.Progress.{Reach-acquires}

abbrev lock_address : ℕ
lock_address = 0x8020_0000

abbrev all_run : Procs
all_run j = record { state = running; chan = 0; killed = false; pid = j + 1 }

abbrev taken : System
taken = asked lock_address 0 (start all_run).lock all_run (start all_run).place

abbrev awaited : System
awaited = asked lock_address 1 taken.lock taken.procs taken.place

abbrev returned : System
returned = record {
  lock = (releasesleep lock_address 0 awaited.lock awaited.procs).0;
  procs = (releasesleep lock_address 0 awaited.lock awaited.procs).1;
  place = moved 0 outside awaited.place;
}

taken-Reach : Reach lock_address (start all_run) taken
taken-Reach = next here (acquire 0 (omega arith) refl refl)

asleep_then : (awaited.procs 1).state ≡ sleeping
unfolding acquiresleep initsleeplock sleep
asleep_then = refl

awaited-Reach : Reach lock_address (start all_run) awaited
unfolding acquiresleep initsleeplock
awaited-Reach = next taken-Reach (acquire 1 (omega arith) refl refl)

returned-Reach : Reach lock_address (start all_run) returned
unfolding acquiresleep initsleeplock sleep
returned-Reach = next awaited-Reach (release 0 (omega arith) refl refl)

none_asleep : (j : ℕ) → (all_run j).chan ≢ lock_address
none_asleep j e = omega arith

Reach-IsLocked_example : IsLocked lock_address awaited
Reach-IsLocked_example = Reach-IsLocked lock_address all_run none_asleep awaited-Reach

still_waits : returned.place 1 ≡ waiting
unfolding acquiresleep initsleeplock
still_waits = refl

free_again : returned.lock.locked ≡ false
unfolding releasesleep
free_again = refl

Reach-acquires_example :
    ((returned.procs 1).state ≢ sleeping)
    × (t : System) × Reach lock_address returned t
    × (t.place 1 ≡ holds)
Reach-acquires_example =
    Reach-acquires lock_address all_run 1 none_asleep returned-Reach (omega arith) still_waits
      free_again

alone : (j : ℕ) → (taken.procs j).pid ≡ (taken.procs 0).pid → j ≡ 0
unfolding acquiresleep initsleeplock
alone j e = omega arith
