-- ===== src/UserRing/Counters.antt =====
-- The calls of user/ringbuf.c on a ring that is open: what they do to the two counters.
use zerocopy_ringbuf.Common.{
  ℕ, ◌+◌, ◌-◌, ◌*◌, ◌%◌, ◌^◌, ◌≤◌, ◌<◌, ◌≡◌, ◌↔◌, ℤ, pos, some, to_u64, sub64, add64, ltb, leb,
  ◌==◌, get_elem?, ok, exit, arith, Ensures, if◌then◌else◌, ◌>>=◌,
}
use zerocopy_ringbuf.UserRing.{
  UserRingBuf, Process, read_done, write_done, checked, start_read, finish_read, start_write,
  finish_write, store,
}

-- The capacity of a ring in bytes.
abbrev pub capacity : ℕ
capacity = 65536

-- Entry `rd` of the process's table is the open ring `rb`.
pub record IsOpen (s : Process) (rd : ℕ) (rb : UserRingBuf) : Type 0 where
  pub in_table : rd ≤ 10
  pub entry : get_elem? s.user_ring_bufs rd ≡ some rb
  pub in_use : rb.exists ≡ 1

abbrev pub reads : Process → UserRingBuf → ℕ
reads s rb = s.mem (read_done rb.book)

abbrev pub writes : Process → UserRingBuf → ℕ
writes s rb = s.mem (write_done rb.book)

-- The bytes that are written and not yet read.
abbrev pub used : Process → UserRingBuf → ℕ
used s rb = sub64 (writes s rb) (reads s rb)

-- The counters are 64-bit words, and the ring holds no more than its capacity.
pub record IsBook (s : Process) (rb : UserRingBuf) : Type 0 where
  pub read_word : reads s rb < 2 ^ 64
  pub write_word : writes s rb < 2 ^ 64
  pub fits : used s rb ≤ capacity

module _ {s : Process} {rd : ℕ} {rb : UserRingBuf} (o : IsOpen s rd rb) where
  pub checked-open : checked (pos rd) s ≡ ok (rb, s)
  unfolding checked
  checked-open = ground arith

  pub finish_write-eq :
      (bytes : ℤ)
      → finish_write (pos rd) bytes s ≡ (
          if ltb (sub64 capacity (used s rb)) (to_u64 bytes)
          then exit 1
          else store (write_done rb.book) (add64 (writes s rb) (to_u64 bytes)) s)
  unfolding finish_write
  finish_write-eq bytes = rw (checked-open, ◌>>=◌) (ground arith)

  pub finish_read-eq :
      (bytes : ℤ)
      → finish_read (pos rd) bytes s ≡ (
          if ltb (used s rb) (to_u64 bytes)
          then ok (tt, s)
          else if leb (to_u64 bytes) (writes s rb)
          then store (read_done rb.book) (add64 (reads s rb) (to_u64 bytes)) s
          else ok (tt, s))
  unfolding finish_read
  finish_read-eq bytes = rw (checked-open, ◌>>=◌) (ground arith)

  -- Room for the bytes: exactly `write_done` advances, by their number.
  pub finish_write-ok :
      (n : ℕ)
      → IsBook s rb
      → n ≤ capacity - used s rb
      → (s' : Process) × (finish_write (pos rd) (pos n) s ≡ ok (tt, s'))
        × (reads s' rb ≡ reads s rb)
        × (writes s' rb ≡ add64 (writes s rb) n)
        × (used s' rb ≡ used s rb + n)
        × IsBook s' rb
  unfolding store
  finish_write-ok n b h = (
    record s {
      mem = λ a. if a == write_done rb.book then add64 (writes s rb) (to_u64 (pos n)) else s.mem a;
    },
    rw (finish_write-eq (pos n)) (ground arith),
    ground arith,
    ground arith,
    ground arith,
    ground arith,
  )

  -- For an open ring with consistent counters, finish_write of more bytes, taken as an unsigned
  -- number, than there is room for exits with 1.
  finish_write-exits :
      (bytes : ℤ)
      → IsBook s rb
      → capacity - used s rb < to_u64 bytes
      → finish_write (pos rd) bytes s ≡ exit 1
  finish_write-exits bytes b h = rw (finish_write-eq bytes) (ground arith)

  -- Bytes that are there to read: exactly `read_done` advances, by their number.
  pub finish_read-ok :
      (n : ℕ)
      → IsBook s rb
      → reads s rb ≤ writes s rb
      → n ≤ used s rb
      → (s' : Process) × (finish_read (pos rd) (pos n) s ≡ ok (tt, s'))
        × (reads s' rb ≡ reads s rb + n)
        × (writes s' rb ≡ writes s rb)
        × (used s' rb + n ≡ used s rb)
        × IsBook s' rb
  unfolding store
  finish_read-ok n b h k = (
    record s {
      mem = λ a. if a == read_done rb.book then add64 (reads s rb) (to_u64 (pos n)) else s.mem a;
    },
    rw (finish_read-eq (pos n)) (ground arith),
    ground arith,
    ground arith,
    ground arith,
    ground arith,
  )

  -- More than there is, or a negative count: nothing changes.
  pub finish_read-over :
      (bytes : ℤ) → used s rb < to_u64 bytes → finish_read (pos rd) bytes s ≡ ok (tt, s)
  finish_read-over bytes h = rw (finish_read-eq bytes) (ground arith)

  pub finish_read-IsBook :
      (bytes : ℤ) → IsBook s rb → Ensures (λ _ s'. IsBook s' rb) (finish_read (pos rd) bytes s)
  unfolding store
  finish_read-IsBook bytes b = rw (finish_read-eq bytes) (ground arith)

  pub finish_write-IsBook :
      (bytes : ℤ) → IsBook s rb → Ensures (λ _ s'. IsBook s' rb) (finish_write (pos rd) bytes s)
  unfolding store
  finish_write-IsBook bytes b = rw (finish_write-eq bytes) (ground arith)

  -- For an open ring with consistent counters whose two mappings lie below 2 ^ 64: start_write
  -- returns the buffer's address plus the write counter modulo the capacity, and the free space,
  -- and that space ends within the two mappings.
  pub start_write_lem :
      IsBook s rb
      → rb.buf + 2 * capacity ≤ 2 ^ 64
      → (start_write (pos rd) s
          ≡ ok ((rb.buf + writes s rb % capacity, pos (capacity - used s rb)), s))
        × (writes s rb % capacity + (capacity - used s rb) ≤ 2 * capacity)
  unfolding start_write
  start_write_lem b h = (rw (checked-open, ◌>>=◌) (ground arith), omega arith)

  pub start_read-eq :
      IsBook s rb
      → rb.buf + 2 * capacity ≤ 2 ^ 64
      → start_read (pos rd) s ≡ ok ((rb.buf + reads s rb % 16 * 4096, pos (used s rb)), s)
  unfolding start_read
  start_read-eq b h = rw (checked-open, ◌>>=◌) (ground arith)

-- The offset of the code and the right one agree at the multiples of the capacity only.
pub offset_iff : (r : ℕ) → (r % 16 * 4096 ≡ r % capacity) ↔ (r % capacity ≡ 0)
offset_iff r = (λ h. omega arith, λ h. omega arith)
