-- ===== src/UserRing/Stream.antt =====
-- The calls of user/ringbuf.c as a stream of bytes: what a producer writes at the address that it
-- is given joins the end of the ring, and what a consumer finds there is the ring's front.
use zerocopy_ringbuf.Common.{
  ℕ, ◌+◌, ◌-◌, ◌*◌, ◌%◌, ◌^◌, ◌≤◌, ◌≡◌, ◌↔◌, ◌∙◌, ap, sym, List, ◌++◌, length, pos, ok, arith,
  Outcome, ℤ,
}
use mathlib.Core.Path.{ap₂}
use zerocopy_ringbuf.UserRing.{
  UserRingBuf, Process, start_read, finish_read, start_write, finish_write,
}
use zerocopy_ringbuf.UserRing.Counters.{
  capacity, IsOpen, IsBook, reads, writes, used, start_write_lem, finish_write-ok, start_read-eq,
  finish_read-ok, offset_iff,
}
use zerocopy_ringbuf.UserRing.Contents.{
  Buffer, write_at, read_at, read_at-mod, read_at-add, write_at-mod, read_at-write_at,
}

-- The bytes in the ring, the oldest first.
abbrev pub contents : Process → UserRingBuf → Buffer → List ℕ
contents s rb m = read_at m (reads s rb) (used s rb)

-- The address and the count that a start function returned.
abbrev pub addr_of : Outcome ((ℕ × ℤ) × Process) → ℕ
addr_of (ok ((a, n), s)) = a
addr_of _ = 0

module _ {s : Process} {rd : ℕ} {rb : UserRingBuf} (o : IsOpen s rd rb) (b : IsBook s rb)
    (room : rb.buf + 2 * capacity ≤ 2 ^ 64) where
  -- For an open ring with consistent counters whose two mappings lie below 2 ^ 64: start_read
  -- returns the address of the front of the contents, with the bytes in use, exactly where the
  -- read counter is a multiple of 65536.
  pub start_read-front_iff :
      (start_read (pos rd) s ≡ ok ((rb.buf + reads s rb % capacity, pos (used s rb)), s))
      ↔ (reads s rb % capacity ≡ 0)
  start_read-front_iff = rw (start_read-eq o b room) (
    λ e. (offset_iff (reads s rb)).0 (omega (arith, ap addr_of e)),
    λ e. ground (arith, (offset_iff (reads s rb)).1 e),
  )

module _ {s : Process} {rd : ℕ} {rb : UserRingBuf} (o : IsOpen s rd rb) (b : IsBook s rb)
    (room : rb.buf + 2 * capacity ≤ 2 ^ 64) (m : Buffer) where
  write_address : addr_of (start_write (pos rd) s) - rb.buf ≡ writes s rb % capacity
  write_address = ap (λ t. addr_of t - rb.buf) (start_write_lem o b room).0 ∙ omega arith

  -- For an open ring with consistent counters whose two mappings lie below 2 ^ 64, and at most as
  -- many bytes as there is room for, written at the address that start_write returns: finish_write
  -- returns, and the ring's contents are the old contents followed by these bytes.
  pub produce-contents :
      (xs : List ℕ)
      → length xs ≤ capacity - used s rb
      → (s' : Process) × (finish_write (pos rd) (pos (length xs)) s ≡ ok (tt, s'))
        × (contents s' rb (write_at m (addr_of (start_write (pos rd) s) - rb.buf) xs)
            ≡ contents s rb m ++ xs)
  produce-contents xs h =
      let (s', run, r, w, u, b') = finish_write-ok o (length xs) b h in
      let seen = λ (m' : Buffer). read_at m' (reads s rb) (used s rb + length xs) in
      let here = addr_of (start_write (pos rd) s) - rb.buf in
      (
        s',
        run,
        ap₂ (read_at (write_at m here xs)) r u
            ∙ ap (λ a. seen (write_at m a xs)) write_address
            ∙ ap seen
                (write_at-mod m (writes s rb % capacity) (reads s rb + used s rb) xs (omega arith))
            ∙ read_at-write_at m (reads s rb) (used s rb) xs (omega arith),
      )

  pub read_address : addr_of (start_read (pos rd) s) - rb.buf ≡ reads s rb % 16 * 4096
  read_address = ap (λ t. addr_of t - rb.buf) (start_read-eq o b room) ∙ omega arith

  -- For an open ring with consistent counters whose two mappings lie below 2 ^ 64, with a read
  -- counter that is at most the write counter and a multiple of 65536: n bytes, at most those in
  -- use, at the address that start_read returns are the front of the contents, and finish_read
  -- returns and leaves the rest.
  pub consume-contents :
      (n : ℕ)
      → reads s rb ≤ writes s rb
      → reads s rb % capacity ≡ 0
      → n ≤ used s rb
      → (s' : Process) × (finish_read (pos rd) (pos n) s ≡ ok (tt, s'))
        × (contents s rb m
            ≡ read_at m (addr_of (start_read (pos rd) s) - rb.buf) n ++ contents s' rb m)
  consume-contents n h z k =
      let (s', run, r, w, u, b') = finish_read-ok o n b h k in
      let here = addr_of (start_read (pos rd) s) - rb.buf in
      let total : used s rb ≡ n + used s' rb = omega arith in
      (
        s',
        run,
        ap (read_at m (reads s rb)) total
            ∙ read_at-add m (reads s rb) n (used s' rb)
            ∙ ap₂ ◌++◌ (read_at-mod m (reads s rb) here n (omega (arith, read_address)))
                (ap (λ a. read_at m a (used s' rb)) (sym r)),
      )
