-- ===== src/Log/Tests.antt =====
-- Tests of kernel/log.c on a disk of zeros with the log in blocks 2 to 32: an operation writes block
-- 50, and is committed.
use zerocopy_ringbuf.Common.{
  ℕ, ◌+◌, ◌<◌, ◌≡◌, ◌⊎◌, refl, Bool, true, false, [], ◌∷◌, pos, Outcome, ok, panic, exit, fault,
  arith,
}
use zerocopy_ringbuf.Log.{
  Block, Disk, Fs, logsize, set_data, commit, initlog, write_head, install_trans,
}
use zerocopy_ringbuf.Log.Pending.{is_log, Holds, Holds-empty}
use zerocopy_ringbuf.Log.Install.{All}
use zerocopy_ringbuf.Log.Recovery.{
  RecoversTo, Recovers, initlog-crash, recovered, initlog-recovered,
}
use zerocopy_ringbuf.Log.Ops.{begin_op, end_op_start, log_write, find_from, enter_block}
use zerocopy_ringbuf.Log.Reservation.{System, begin, write, end, Reach, here, next}
use zerocopy_ringbuf.Log.Steps.{booted, Reach-log_write, Reach-disk, Reach-commit}

abbrev zeros : Disk
zeros b i = 0

zeros-Holds : Holds 2 31 zeros zeros
zeros-Holds = Holds-empty 2 31 zeros zeros refl (omega arith) (λ b _. refl)

abbrev first : Fs
first = recovered 2 31 zeros zeros zeros-Holds

first_run : initlog 2 31 zeros ≡ ok first
first_run = initlog-recovered 2 31 zeros zeros zeros-Holds

abbrev started : System
started = record { fs = (begin_op (booted first zeros).fs).1; left = 10 ∷ []; saved = zeros }

began : begin_op (booted first zeros).fs ≡ (true, started.fs)
unfolding begin_op write_head install_trans
began = refl

started-Reach : Reach (booted first zeros) started
started-Reach = next here (begin started.fs began)

abbrev sevens : Block
sevens i = 7

abbrev written : System
written = record {
  fs =
      enter_block (find_from started.fs.log.n 0 50 started.fs.log.block) 50
        (set_data 50 sevens started.fs);
  left = 9 ∷ [];
  saved = zeros;
}

wrote : log_write 50 (set_data 50 sevens started.fs) ≡ ok written.fs
unfolding log_write begin_op write_head install_trans
wrote = refl

written-Reach : Reach (booted first zeros) written
unfolding begin_op write_head install_trans
written-Reach = next started-Reach (write 0 9 50 sevens written.fs refl refl wrote)

abbrev fs_of : Outcome (Bool × Fs) → Fs → Fs
fs_of (ok p) s = p.1
fs_of panic s = s
fs_of (exit n) s = s
fs_of fault s = s

abbrev ended : System
ended = record { fs = fs_of (end_op_start written.fs) written.fs; left = []; saved = zeros }

last_one : end_op_start written.fs ≡ ok (true, ended.fs)
unfolding end_op_start log_write begin_op write_head install_trans
last_one = refl

ended-Reach : Reach (booted first zeros) ended
ended-Reach = next written-Reach (end 0 9 true ended.fs refl last_one)

committed : (commit ended.fs).disk 50 9 ≡ 7
unfolding commit end_op_start log_write begin_op write_head install_trans
committed = refl

initlog-crash_example :
    (r : Fs) × (initlog 2 31 zeros ≡ ok r)
    × (r.log.n ≡ 0)
    × ((b : ℕ) → is_log 2 31 b ≡ false → (r.disk b ≡ zeros b) × (r.cache b ≡ zeros b))
    × All (RecoversTo 2 31 zeros) (r.disk ∷ r.past)
initlog-crash_example = initlog-crash 2 31 zeros zeros zeros-Holds

room_for_all : logsize < started.fs.log.size
unfolding begin_op write_head install_trans
room_for_all = omega arith

Reach-log_write_example : (fs : Fs) × (log_write 50 (set_data 50 sevens started.fs) ≡ ok fs)
Reach-log_write_example =
    Reach-log_write 2 31 zeros zeros first zeros-Holds first_run started-Reach 0 9 50 sevens
      room_for_all refl

Reach-disk_example : Recovers written.fs zeros written.fs.disk
Reach-disk_example = Reach-disk 2 31 zeros zeros first zeros-Holds first_run written-Reach

Reach-commit_example :
    Recovers ended.fs ended.fs.cache (commit ended.fs).disk
    × All
        (λ d. Recovers ended.fs zeros d ⊎ Recovers ended.fs ended.fs.cache d)
        (commit ended.fs).past
Reach-commit_example = Reach-commit 2 31 zeros zeros first zeros-Holds first_run ended-Reach

-- With 30 blocks for the log, as mkfs makes it, three operations may begin, and the thirtieth block
-- does not fit.
abbrev full_log : Fs
full_log = record first {
  log = record first.log { size = 30; outstanding = pos 3; n = 29; block = λ i. i + 100 };
}

third_begins :
    (begin_op (record full_log { log = record full_log.log { n = 0; outstanding = pos 2 } })).0
    ≡ true
unfolding begin_op write_head install_trans
third_begins = refl

thirtieth_panics : log_write 99 full_log ≡ panic
unfolding log_write write_head install_trans
thirtieth_panics = refl
