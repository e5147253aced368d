-- ===== src/UserRing.antt =====
-- user/ringbuf.c and user/ringbuf.h: the process's table of ring buffers, and the calls that move
-- the two counters of a ring's book page. `mem` holds the process's 64-bit words by address.
pub mod Counters
pub mod Contents
pub mod Stream
pub mod Interleaving
pub mod Table
mod Tests
use zerocopy_ringbuf.Common.{
  ℕ, ◌+◌, ◌-◌, ◌*◌, ◌%◌, Option, none, some, List, [], ◌∷◌, ℤ, pos, negsuc, is_zero, success,
  failure, to_int, to_u64, add64, sub64, ltb, leb, ◌==◌, ◌!=◌, if◌then◌else◌, get_elem?, set, ok,
  exit, fault, Cmd, pure, ◌>>=◌, ◌>>◌,
}

abbrev pub pgsize : ℕ
pgsize = 4096

abbrev pub max_usr_ringbuf : ℕ
max_usr_ringbuf = 10

abbrev pub usr_ringbuf_size : ℕ
usr_ringbuf_size = 16

pub record UserRingBuf : Type 0 where
  pub buf : ℕ
  pub book : ℕ
  pub exists : ℕ

-- `struct book`: the word `read_done` stands at the book's address, and `write_done` behind it.
abbrev pub read_done : ℕ → ℕ
read_done book = book

abbrev pub write_done : ℕ → ℕ
write_done book = book + 8

pub record Process : Type 0 where
  pub user_ring_bufs : List UserRingBuf
  pub mem : ℕ → ℕ

abbrev pub Run : Type 0 → Type 0
Run = Cmd Process

unfoldable pub load : ℕ → Run ℕ
load p s = ok (s.mem p, s)

unfoldable pub store : ℕ → ℕ → Run (Unit {0})
store p v s = ok (tt, record s { mem = λ a. if a == p then v else s.mem a })

-- An access to `user_ring_bufs[rd]`; outside of the array it is a fault.
unfoldable pub ring_at : ℕ → Run UserRingBuf
ring_at rd s = elim (get_elem? s.user_ring_bufs rd) [ none ↦ fault | some rb ↦ ok (rb, s) ]

unfoldable pub put_ring : ℕ → UserRingBuf → Run (Unit {0})
put_ring rd rb s = ok (tt, record s { user_ring_bufs = set s.user_ring_bufs rd rb })

unfoldable pub is_rd_valid : ℤ → Run ℤ
unfolding ring_at
is_rd_valid (negsuc n) = pure failure
is_rd_valid (pos rd) =
    if ltb max_usr_ringbuf rd
    then pure failure
    else do rb ← ring_at rd; pure (if rb.exists == 0 then failure else success)

-- The start of four functions: `exit(1)` unless `rd` is valid, and then the ring.
fetch : ℤ → Run UserRingBuf
unfolding ring_at
fetch (pos rd) = ring_at rd
fetch (negsuc n) = λ _. fault

unfoldable pub checked : ℤ → Run UserRingBuf
unfolding is_rd_valid fetch
checked rd = do rc ← is_rd_valid rd; if is_zero rc then fetch rd else λ _. exit 1

-- `read % MAX_RINGBUF_BYTES` with the macro's text `USR_RINGBUF_SIZE *PGSIZE` put in.
unfoldable pub start_read : ℤ → Run (ℕ × ℤ)
unfolding load
start_read rd = do
  rb ← checked rd
  read ← load (read_done rb.book)
  write ← load (write_done rb.book)
  pure (add64 rb.buf (read % usr_ringbuf_size * pgsize), to_int (sub64 write read))

unfoldable pub finish_read : ℤ → ℤ → Run (Unit {0})
unfolding load store
finish_read rd bytes = do
  rb ← checked rd
  read ← load (read_done rb.book)
  write ← load (write_done rb.book)
  if ltb (sub64 write read) (to_u64 bytes)
      then pure tt
      else if leb (to_u64 bytes) write
      then store (read_done rb.book) (add64 read (to_u64 bytes))
      else pure tt

unfoldable pub start_write : ℤ → Run (ℕ × ℤ)
unfolding load
start_write rd = do
  rb ← checked rd
  read ← load (read_done rb.book)
  write ← load (write_done rb.book)
  pure (
    add64 rb.buf (write % (usr_ringbuf_size * pgsize)),
    to_int (sub64 (usr_ringbuf_size * pgsize) (sub64 write read)),
  )

unfoldable pub finish_write : ℤ → ℤ → Run (Unit {0})
unfolding load store
finish_write rd bytes = do
  rb ← checked rd
  read ← load (read_done rb.book)
  write ← load (write_done rb.book)
  if ltb (sub64 (usr_ringbuf_size * pgsize) (sub64 write read)) (to_u64 bytes)
      then (λ _. exit 1)
      else store (write_done rb.book) (add64 write (to_u64 bytes))

-- The first entry whose `exists` is not 1.
unfoldable pub free_entry : List UserRingBuf → ℕ → Option ℕ
free_entry [] i = none
free_entry (rb ∷ rest) i = if rb.exists != 1 then some i else free_entry rest (i + 1)

-- The system call `ringbuf(name, open, &addr)`: it takes what `addr` holds, and returns its result
-- and what `addr` holds then.
abbrev pub Syscall : Type 0
Syscall = (ℕ → ℕ) → ℤ → ℕ → Run (ℤ × ℕ)

fill : ℕ → ℕ → Run ℤ
unfolding put_ring
fill addr i = do
  let buf = sub64 addr ((2 * usr_ringbuf_size - 1) * pgsize)
  put_ring i (record { buf = buf; book = sub64 buf pgsize; exists = 1 })
  pure (pos i)

enter : ℕ → Run ℤ
unfolding fill free_entry
enter addr s = elim (free_entry s.user_ring_bufs 0) [
  | none ↦ ok (failure, s)
  | some i ↦ fill addr i s
]

clear : ℤ → Run ℤ
unfolding put_ring
clear (pos rd) = do put_ring rd (record { buf = 0; book = 0; exists = 0 }); pure success
clear (negsuc n) = λ _. fault

module _ (ringbuf : Syscall) where
  unfoldable pub ringbuf_open : (ℕ → ℕ) → ℕ → Run ℤ
  unfolding enter
  ringbuf_open name addr = do
    (rc, addr) ← ringbuf name (pos 1) addr
    if is_zero rc then enter addr else pure failure

  unfoldable pub ringbuf_close : ℤ → (ℕ → ℕ) → Run ℤ
  unfolding clear
  ringbuf_close rd name = do
    rb ← checked rd
    (rc, _) ← ringbuf name (pos 0) (add64 rb.buf ((2 * usr_ringbuf_size - 1) * pgsize))
    if is_zero rc then clear rd else pure failure
