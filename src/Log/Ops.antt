-- ===== src/Log/Ops.antt =====
-- begin_op, log_write and end_op of kernel/log.c. Each holds log.lock but while it sleeps or commits,
-- so what it does between is one function.
use zerocopy_ringbuf.Common.{
  ℕ, zero, suc, ◌+◌, ◌*◌, Bool, true, false, ◌||◌, ltb, leb, ◌==◌, if◌then◌else◌, ℤ, pos, negsuc,
  incr, decr, is_zero, Outcome, ok, panic,
}
use zerocopy_ringbuf.Log.{Fs, logsize, maxopblocks, put, bpin}

-- `n + (outstanding + 1) * MAXOPBLOCKS > LOGSIZE`
abbrev pub is_full : ℕ → ℤ → Bool
is_full n (pos o) = ltb logsize (n + (o + 1) * maxopblocks)
is_full n (negsuc o) = ltb (logsize + o * maxopblocks) n

-- A round of `begin_op`, and whether it ends the loop; otherwise it sleeps.
unfoldable pub begin_op : Fs → Bool × Fs
begin_op s =
    if s.log.committing || is_full s.log.n s.log.outstanding
    then (false, s)
    else (true, record s { log = record s.log { outstanding = incr s.log.outstanding } })

-- `end_op` up to its release of the lock, and whether it is to commit.
unfoldable pub end_op_start : Fs → Outcome (Bool × Fs)
end_op_start s =
    let o = decr s.log.outstanding in
    if s.log.committing
    then panic
    else if is_zero o
    then ok (true, record s { log = record s.log { outstanding = o; committing = true } })
    else ok (false, record s { log = record s.log { outstanding = o } })

unfoldable pub end_op_finish : Fs → Fs
end_op_finish s = record s { log = record s.log { committing = false } }

-- The loop of `log_write` from place `i` on, with `n` left: the place of the block, or the end.
unfoldable pub find_from : ℕ → ℕ → ℕ → (ℕ → ℕ) → ℕ
find_from zero i b block = i
find_from (suc n) i b block = elim (block i == b) [ true ↦ i | false ↦ find_from n (i + 1) b block ]

abbrev pub is_outside : ℤ → Bool
is_outside (pos o) = ltb o 1
is_outside (negsuc o) = true

-- The block is entered at place `i`.
unfoldable pub enter_block : ℕ → ℕ → Fs → Fs
unfolding bpin
enter_block i b s =
    let s' : Fs = record s { log = record s.log { block = put s.log.block i b } } in
    if i == s.log.n then bpin b (record s' { log = record s'.log { n = s.log.n + 1 } }) else s'

-- The number of the buffer's block is what is used of it; `n >= size - 1` is `n + 1 >= size`.
unfoldable pub log_write : ℕ → Fs → Outcome Fs
unfolding find_from enter_block
log_write b s =
    if leb logsize s.log.n || leb s.log.size (s.log.n + 1)
    then panic
    else if is_outside s.log.outstanding
    then panic
    else ok (enter_block (find_from s.log.n 0 b s.log.block) b s)
