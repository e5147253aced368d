-- ===== src/Proc.antt =====
-- kernel/proc.c: sleeping, waking and killing in the process table. Each change of a process is made
-- under its own lock. A process is named by its place in the table.
pub mod Rouse
use zerocopy_ringbuf.Common.{
  ℕ, zero, suc, ◌+◌, ◌-◌, Bool, true, false, ◌&&◌, ℤ, success, failure, ◌==◌, ◌!=◌, if◌then◌else◌,
}

pub data ProcState : Type 0 where
  unused : ProcState
  used : ProcState
  sleeping : ProcState
  runnable : ProcState
  running : ProcState
  zombie : ProcState

-- `struct proc` as far as these functions use it. A channel is an address, and 0 is none.
pub record Proc : Type 0 where
  pub state : ProcState
  pub chan : ℕ
  pub killed : Bool
  pub pid : ℕ

abbrev pub Procs : Type 0
Procs = ℕ → Proc

abbrev pub nproc : ℕ
nproc = 64

abbrev pub put : Procs → ℕ → Proc → Procs
put ps i p j = if j == i then p else ps j

abbrev pub is_sleeping : ProcState → Bool
is_sleeping unused = false
is_sleeping used = false
is_sleeping sleeping = true
is_sleeping runnable = false
is_sleeping running = false
is_sleeping zombie = false

-- `sleep` up to its call of sched, and behind it.
unfoldable pub sleep : ℕ → ℕ → Procs → Procs
sleep me chan ps = put ps me (record (ps me) { chan = chan; state = sleeping })

unfoldable pub end_sleep : ℕ → Procs → Procs
end_sleep me ps = put ps me (record (ps me) { chan = 0 })

-- What `wakeup` does to a process.
unfoldable pub roused : ℕ → Proc → Proc
roused chan p = if is_sleeping p.state && (p.chan == chan) then record p { state = runnable } else p

-- The loop of `wakeup` from place `i` on, with `n` left.
unfoldable pub wakeup_from : ℕ → ℕ → ℕ → ℕ → Procs → Procs
wakeup_from zero i me chan ps = ps
wakeup_from (suc n) i me chan ps =
    wakeup_from n (i + 1) me chan (if i != me then put ps i (roused chan (ps i)) else ps)

unfoldable pub wakeup : ℕ → ℕ → Procs → Procs
unfolding wakeup_from
wakeup me chan ps = wakeup_from nproc 0 me chan ps

unfoldable pub victim : Proc → Proc
victim p = record p { killed = true; state = if is_sleeping p.state then runnable else p.state }

-- The loop of `kill` from place `i` on, with `n` left.
unfoldable pub kill_from : ℕ → ℕ → ℕ → Procs → ℤ × Procs
kill_from zero i pid ps = (failure, ps)
kill_from (suc n) i pid ps = elim ((ps i).pid == pid) [
  | true ↦ (success, put ps i (victim (ps i)))
  | false ↦ kill_from n (i + 1) pid ps
]

unfoldable pub kill : ℕ → Procs → ℤ × Procs
unfolding kill_from
kill pid ps = kill_from nproc 0 pid ps

unfoldable pub setkilled : ℕ → Procs → Procs
setkilled i ps = put ps i (record (ps i) { killed = true })

abbrev pub is_killed : ℕ → Procs → Bool
is_killed i ps = (ps i).killed

-- `yield` up to its call of sched, and the scheduler's choice of a process.
unfoldable pub yield : ℕ → Procs → Procs
yield me ps = put ps me (record (ps me) { state = runnable })

unfoldable pub dispatch : ℕ → Procs → Procs
dispatch i ps = put ps i (record (ps i) { state = running })
