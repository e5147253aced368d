-- ===== src/UserRing/Tests.antt =====
-- Runs of user/ringbuf.c, and the theorems at concrete states.
use zerocopy_ringbuf.Common.{
  ◌⊎◌, ℕ, ◌+◌, ◌-◌, ◌*◌, ◌%◌, ◌≡◌, ◌≢◌, ◌↔◌, refl, success, failure, negsuc, pos, ◌==◌,
  if◌then◌else◌, arith, [], ◌∷◌, ◌++◌, ok, exit, fault, ℤ, replicate, set, get_elem?,
}
use zerocopy_ringbuf.UserRing.{
  UserRingBuf, Process, Syscall, is_rd_valid, checked, load, store, start_read, finish_read,
  start_write, finish_write, ringbuf_open, ringbuf_close,
}
use zerocopy_ringbuf.UserRing.Counters.{capacity, IsOpen, IsBook, reads, used}
use zerocopy_ringbuf.UserRing.Contents.{Buffer, write_at, read_at}
use zerocopy_ringbuf.UserRing.Stream.{
  contents, addr_of, produce-contents, consume-contents, start_read-front_iff,
}
use zerocopy_ringbuf.UserRing.Interleaving.{
  idle, Reach, IsSafe, view, Reach-IsSafe, finish_write-Reach,
}
use zerocopy_ringbuf.UserRing.Table.{
  IsFirstFree, IsFull, opened, is_rd_valid-fault_iff, ringbuf_open-IsOpen, ringbuf_close_lem,
}

abbrev closed : UserRingBuf
closed = record { buf = 0; book = 0; exists = 0 }

abbrev ring : UserRingBuf
ring = record { buf = 0x3ffffdd000; book = 0x3ffffdc000; exists = 1 }

-- `r` bytes were read and `w` written.
abbrev counters : ℕ → ℕ → Process
counters r w = record {
  user_ring_bufs = ring ∷ replicate 9 closed;
  mem = λ a. if a == 0x3ffffdc000 then r else if a == 0x3ffffdc008 then w else 0;
}

abbrev start : Process
start = counters 65536 65539

-- The front of a ring of which 100 bytes were read is not where `start_read` points.
misses : addr_of (start_read (pos 0) (counters 100 200)) ≡ 0x3ffffdd000 + 4 * 4096
unfolding start_read checked load
misses = refl

writes_and_exits :
    (finish_write (pos 0) (pos 65536) start ≡ exit 1)
    × (finish_write (pos 0) (negsuc 0) start ≡ exit 1)
    × (is_rd_valid (pos 10) start ≡ fault)
    × (is_rd_valid (pos 1) start ≡ ok (failure, start))
unfolding finish_write checked is_rd_valid load store
writes_and_exits = (refl, refl, refl, refl)

start-IsOpen : IsOpen start 0 ring
start-IsOpen = record { in_table = omega arith; entry = refl; in_use = refl }

start-IsBook : IsBook start ring
start-IsBook = omega arith

abbrev letters : Buffer
letters i = if i == 0 then b'x' else if i == 1 then b'y' else if i == 2 then b'z' else 0

letters_in : contents start ring letters ≡ b'x' ∷ b'y' ∷ b'z' ∷ []
unfolding read_at
letters_in = refl

produce-contents_example :
    (s' : Process) × (finish_write (pos 0) (pos 2) start ≡ ok (tt, s'))
    × (contents s' ring
          (write_at letters (addr_of (start_write (pos 0) start) - ring.buf) (1 ∷ 2 ∷ []))
        ≡ contents start ring letters ++ (1 ∷ 2 ∷ []))
produce-contents_example =
    produce-contents start-IsOpen start-IsBook (omega arith) letters (1 ∷ 2 ∷ []) (omega arith)

consume-contents_example :
    (s' : Process) × (finish_read (pos 0) (pos 2) start ≡ ok (tt, s'))
    × (contents start ring letters
        ≡ read_at letters (addr_of (start_read (pos 0) start) - ring.buf) 2
          ++ contents s' ring letters)
consume-contents_example =
    consume-contents start-IsOpen start-IsBook (omega arith) letters 2 (omega arith) refl
      (omega arith)

start_read-front_iff_example :
    (start_read (pos 0) start
      ≡ ok ((ring.buf + reads start ring % capacity, pos (used start ring)), start))
    ↔ (reads start ring % capacity ≡ 0)
start_read-front_iff_example = start_read-front_iff start-IsOpen start-IsBook (omega arith)

abbrev after_write : Process
after_write = record start { mem = λ a. if a == 0x3ffffdc008 then 65544 else start.mem a }

wrote_five : finish_write (pos 0) (pos 5) start ≡ ok (tt, after_write)
unfolding finish_write checked load store
wrote_five = refl

abbrev after_read : Process
after_read = record start { mem = λ a. if a == 0x3ffffdc000 then 65538 else start.mem a }

read_two : finish_read (pos 0) (pos 2) start ≡ ok (tt, after_read)
unfolding finish_read checked load store
read_two = refl

finish_write-Reach_example : Reach (view start ring idle idle) (view after_write ring idle idle)
finish_write-Reach_example = finish_write-Reach start-IsOpen (pos 5) idle wrote_five

start-IsSafe : IsSafe (view start ring idle idle)
start-IsSafe = omega arith

Reach-IsSafe_example : IsSafe (view after_write ring idle idle)
Reach-IsSafe_example =
    Reach-IsSafe start-IsSafe (finish_write-Reach start-IsOpen (pos 5) idle wrote_five)

is_rd_valid-fault_iff_example :
    (is_rd_valid (pos 10) start ≡ fault) ↔ (◌≡◌ {A = ℤ} (pos 10) (pos 10))
is_rd_valid-fault_iff_example = is_rd_valid-fault_iff (pos 10) start refl

-- A kernel that always maps at the same address.
abbrev syscall : Syscall
syscall name open_flag addr s = ok ((success, 0x3fffffc000), s)

-- Entry 1 of `start` is the first that is free.
ringbuf_open-IsOpen_example :
    ((i : ℕ) × (s' : Process) × IsFirstFree start.user_ring_bufs i
      × (ringbuf_open syscall (λ _. 0) 5 start ≡ ok (pos i, s'))
      × IsOpen s' i (opened 0x3fffffc000)
      × ((j : ℕ) → i ≢ j → get_elem? s'.user_ring_bufs j ≡ get_elem? start.user_ring_bufs j))
    ⊎ (IsFull start.user_ring_bufs × (ringbuf_open syscall (λ _. 0) 5 start ≡ ok (failure, start)))
ringbuf_open-IsOpen_example =
    ringbuf_open-IsOpen syscall {s = start} {t = start} (λ _. 0) 5 0x3fffffc000 refl refl

ringbuf_close_lem_example :
    ringbuf_close syscall (pos 0) (λ _. 0) start
    ≡ ok (success, record start { user_ring_bufs = set start.user_ring_bufs 0 closed })
ringbuf_close_lem_example =
    ringbuf_close_lem syscall {s = start} {t = start} (λ _. 0) 0 0x3fffffc000 0x3fffffc000
      (omega arith) start-IsOpen refl refl
