-- ===== src/Kalloc.antt =====
-- kernel/kalloc.c: the allocator of physical pages, whose free list is threaded through the first
-- word of each free page. Physical memory is mapped at its own addresses.
pub mod FreeList
pub mod Init
mod Tests
use zerocopy_ringbuf.Common.{
  ℕ, zero, suc, ◌+◌, ◌-◌, ◌*◌, ◌%◌, ◌/◌, Bool, true, false, ◌||◌, ltb, leb, ◌==◌, ◌!=◌, ◌≡◌,
  if◌then◌else◌, ok, panic, Cmd, pure, ◌>>=◌, ◌>>◌,
}
use zerocopy_ringbuf.Kstring.{Mem, memset}
use zerocopy_ringbuf.Words.{load_word, store_word}

abbrev pub pgsize : ℕ
pgsize = 4096

abbrev pub kernbase : ℕ
kernbase = 0x8000_0000

abbrev pub phystop : ℕ
phystop = kernbase + 128 * 1024 * 1024

abbrev pub pg_round_up : ℕ → ℕ
pg_round_up sz = (sz + pgsize - 1) / pgsize * pgsize

-- The memory, and `kmem`.
pub record Kmem : Type 0 where
  pub mem : Mem
  pub lock : Bool
  pub freelist : ℕ

-- `acquire(&kmem.lock)` on a CPU that may hold the lock.
unfoldable pub acquire_kmem : Cmd Kmem (Unit {0})
acquire_kmem k = if k.lock then panic else ok (tt, record k { lock = true })

pub acquire_kmem-free :
    (k : Kmem) → k.lock ≡ false → acquire_kmem k ≡ ok (tt, record k { lock = true })
unfolding acquire_kmem
acquire_kmem-free k free = rw free

unfoldable pub release_kmem : Cmd Kmem (Unit {0})
release_kmem k = if k.lock then ok (tt, record k { lock = false }) else panic

unfoldable pub fill : ℕ → ℕ → Cmd Kmem (Unit {0})
fill pa c k = ok (tt, record k { mem = memset k.mem pa c pgsize })

-- `r->next = kmem.freelist; kmem.freelist = r;`
unfoldable pub push_page : ℕ → Cmd Kmem (Unit {0})
push_page r k = ok (tt, record k { mem = store_word k.mem r k.freelist; freelist = r })

-- `r = kmem.freelist; if(r) kmem.freelist = r->next;`
unfoldable pub pop_page : Cmd Kmem ℕ
pop_page k = ok (
  k.freelist,
  record k { freelist = if k.freelist == 0 then k.freelist else load_word k.mem k.freelist },
)

unfoldable pub kalloc : Cmd Kmem ℕ
unfolding release_kmem fill pop_page
kalloc = do
  acquire_kmem
  r ← pop_page
  release_kmem
  if r == 0 then pure r else (do fill r 5; pure r)

-- `end`, where the kernel's own memory ends, is the linker's.
module _ (kernel_end : ℕ) where
  abbrev pub bad_page : ℕ → Bool
  bad_page pa = (pa % pgsize != 0) || (ltb pa kernel_end || leb phystop pa)

  unfoldable pub kfree : ℕ → Cmd Kmem (Unit {0})
  unfolding release_kmem fill push_page
  kfree pa =
      if bad_page pa then (λ _. panic) else (do fill pa 1; acquire_kmem; push_page pa; release_kmem)

  -- The loop of `freerange` from `p` on, with `n` rounds left.
  unfoldable pub free_pages : ℕ → ℕ → Cmd Kmem (Unit {0})
  free_pages zero p = pure tt
  free_pages (suc n) p = do kfree p; free_pages n (p + pgsize)

  unfoldable pub freerange : ℕ → ℕ → Cmd Kmem (Unit {0})
  unfolding free_pages
  freerange pa_start pa_end =
      free_pages ((pa_end - pg_round_up pa_start) / pgsize) (pg_round_up pa_start)

  unfoldable pub kinit : Cmd Kmem (Unit {0})
  unfolding freerange
  kinit k = freerange kernel_end phystop (record k { lock = false })
