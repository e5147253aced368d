-- ===== src/Bio.antt =====
-- kernel/bio.c: the cache of disk blocks, a doubly linked list of 30 buffers in the order of their
-- last use. Buffer `i` is `bcache.buf[i]`, and number 30 is the list's head. What a function does with
-- bcache.lock held is one step; it takes and gives back the buffer's sleep lock in further steps.
pub mod Linked
pub mod Order
pub mod Get
pub mod Cached
mod Tests
use zerocopy_ringbuf.Common.{
  ℕ, zero, suc, ◌+◌, ◌-◌, ◌%◌, ◌^◌, Bool, true, false, ◌&&◌, Option, none, some, ◌==◌,
  if◌then◌else◌, Outcome, ok, panic,
}
use zerocopy_ringbuf.Proc.{Procs}
use zerocopy_ringbuf.Sleeplock.{Sleeplock, initsleeplock, releasesleep, holdingsleep}

abbrev pub nbuf : ℕ
nbuf = 30

-- `&bcache.head`
abbrev pub head : ℕ
head = 30

-- `struct buf` but for its links; `bytes` is its data, and `disk`, which the driver uses, is left out.
pub record Buf : Type 0 where
  pub valid : Bool
  pub dev : ℕ
  pub blockno : ℕ
  pub lock : Sleeplock
  pub refcnt : ℕ
  pub bytes : ℕ → ℕ

pub record Bcache : Type 0 where
  pub prev : ℕ → ℕ
  pub next : ℕ → ℕ
  pub buf : ℕ → Buf

abbrev pub put {ℓ} : {A : Type ℓ} → (ℕ → A) → ℕ → A → ℕ → A
put f i v j = if j == i then v else f j

abbrev pub set_next : ℕ → ℕ → Bcache → Bcache
set_next i v c = record c { next = put c.next i v }

abbrev pub set_prev : ℕ → ℕ → Bcache → Bcache
set_prev i v c = record c { prev = put c.prev i v }

abbrev pub set_buf : ℕ → Buf → Bcache → Bcache
set_buf i b c = record c { buf = put c.buf i b }

-- A buffer goes to the front of the list, by four writes in the code's order.
unfoldable pub link_front : ℕ → Bcache → Bcache
link_front b c =
    let c1 = set_prev b head (set_next b (c.next head) c) in
    let c2 = set_prev (c1.next head) b c1 in set_next head b c2

-- `b->next->prev = b->prev; b->prev->next = b->next;`
unfoldable pub unlink : ℕ → Bcache → Bcache
unlink b c = let c1 = set_prev (c.next b) (c.prev b) c in set_next (c1.prev b) (c1.next b) c1

-- A buffer of the loop of `binit`, whose writes to the links are those of `link_front`.
unfoldable pub add_buf : ℕ → Bcache → Bcache
unfolding link_front
add_buf b c = link_front b (set_buf b (record (c.buf b) { lock = initsleeplock }) c)

-- The loop of `binit` from buffer `b` on, with `n` left.
unfoldable pub add_bufs : ℕ → ℕ → Bcache → Bcache
unfolding add_buf
add_bufs zero b c = c
add_bufs (suc n) b c = add_bufs n (b + 1) (add_buf b c)

unfoldable pub binit : Bcache → Bcache
unfolding add_bufs
binit c = add_bufs nbuf 0 (set_next head head (set_prev head head c))

-- The first loop of `bget` from buffer `b` on, which follows at most `n` links.
unfoldable pub find_cached : ℕ → ℕ → ℕ → ℕ → Bcache → Option ℕ
find_cached zero dev blockno b c = none
find_cached (suc n) dev blockno b c =
    let rest = find_cached n dev blockno (c.next b) c in
    if b == head
    then none
    else if ((c.buf b).dev == dev) && ((c.buf b).blockno == blockno)
    then some b
    else rest

-- The second loop of `bget`, likewise.
unfoldable pub find_unused : ℕ → ℕ → Bcache → Option ℕ
find_unused zero b c = none
find_unused (suc n) b c =
    let rest = find_unused n (c.prev b) c in
    if b == head then none else if (c.buf b).refcnt == 0 then some b else rest

abbrev pub incr_refcnt : ℕ → Bcache → Bcache
incr_refcnt i c = set_buf i (record (c.buf i) { refcnt = ((c.buf i).refcnt + 1) % 2 ^ 32 }) c

abbrev pub decr_refcnt : ℕ → Bcache → Bcache
decr_refcnt i c =
    set_buf i (record (c.buf i) { refcnt = ((c.buf i).refcnt + (2 ^ 32 - 1)) % 2 ^ 32 }) c

-- The buffer for another block.
unfoldable pub recycle : ℕ → ℕ → ℕ → Bcache → Bcache
recycle i dev blockno c =
    set_buf i (record (c.buf i) { dev = dev; blockno = blockno; valid = false; refcnt = 1 }) c

-- The rest of `bget` behind its loops: the buffer of the block, or else the unused one, goes over to
-- the block.
abbrev pub chosen : ℕ → ℕ → Bcache → Option ℕ → Option ℕ → Outcome (ℕ × Bcache)
chosen dev blockno c (some i) o = ok (i, incr_refcnt i c)
chosen dev blockno c none (some i) = ok (i, recycle i dev blockno c)
chosen dev blockno c none none = panic

-- `bget` up to its call of acquiresleep, with the buffer that it is for.
unfoldable pub bget : ℕ → ℕ → Bcache → Outcome (ℕ × Bcache)
bget dev blockno c =
    chosen dev blockno c (find_cached (nbuf + 1) dev blockno (c.next head) c)
      (find_unused (nbuf + 1) (c.prev head) c)

-- `bread` behind bget, with the sleep lock held: `block` is what the disk has there.
unfoldable pub fill_buf : ℕ → (ℕ → ℕ) → Bcache → Bcache
fill_buf i block c =
    if (c.buf i).valid then c else set_buf i (record (c.buf i) { valid = true; bytes = block }) c

-- The disk with the buffer written.
unfoldable pub bwrite : ℕ → ℕ → Procs → Bcache → (ℕ → ℕ → ℕ) → Outcome (ℕ → ℕ → ℕ)
bwrite i me ps c disk =
    if holdingsleep me (c.buf i).lock ps
    then ok (put disk (c.buf i).blockno (c.buf i).bytes)
    else panic

-- The part of `brelse` that holds bcache.lock.
unfoldable pub put_back : ℕ → Bcache → Bcache
unfolding unlink link_front
put_back i c =
    let c1 = decr_refcnt i c in if (c1.buf i).refcnt == 0 then link_front i (unlink i c1) else c1

-- `lk` is the address of the buffer's sleep lock.
unfoldable pub brelse : ℕ → ℕ → ℕ → Procs → Bcache → Outcome (Bcache × Procs)
unfolding put_back
brelse i lk me ps c =
    if holdingsleep me (c.buf i).lock ps
    then (let (l, ps') = releasesleep lk me (c.buf i).lock ps in
        ok (put_back i (set_buf i (record (c.buf i) { lock = l }) c), ps'))
    else panic

unfoldable pub bpin : ℕ → Bcache → Bcache
bpin i c = incr_refcnt i c

unfoldable pub bunpin : ℕ → Bcache → Bcache
bunpin i c = decr_refcnt i c
