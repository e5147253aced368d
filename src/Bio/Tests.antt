-- ===== src/Bio/Tests.antt =====
-- Tests of kernel/bio.c: a new cache gets a block, and gives its buffer back.
use zerocopy_ringbuf.Common.{
  ◌+◌, ◌⊎◌, ◌%◌, none, some, panic, ℕ, ◌<◌, ◌≡◌, refl, false, List, [], ◌∷◌, ◌++◌, ok, ◌^◌, ◌==◌,
  if◌then◌else◌, arith,
}
use zerocopy_ringbuf.Sleeplock.{initsleeplock}
use zerocopy_ringbuf.Bio.{Bcache, nbuf, binit, bget, recycle, put_back}
use zerocopy_ringbuf.Bio.Order.{IsBcache, ups, same_links, put_back-IsBcache, binit-IsBcache}
use zerocopy_ringbuf.Bio.Get.{cached, unused, Changed, bget_lists, bget-list}
use zerocopy_ringbuf.Bio.Cached.{get, Reach, here, next, IsCache, Reach-IsCache}

abbrev zeros : Bcache
zeros = record {
  prev = λ _. 0;
  next = λ _. 0;
  buf = λ _. record {
    valid = false;
    dev = 0;
    blockno = 0;
    lock = initsleeplock;
    refcnt = 0;
    bytes = λ _. 0;
  };
}

abbrev order : List ℕ
order = ups nbuf 0 []

bget-list_example :
    ((i : ℕ) × (c' : Bcache) × (cached 1 5 (binit zeros) order ≡ some i)
      × (bget 1 5 (binit zeros) ≡ ok (i, c'))
      × Changed
          (binit zeros)
          i
          (record ((binit zeros).buf i) { refcnt = (((binit zeros).buf i).refcnt + 1) % 2 ^ 32 })
          c')
    ⊎ ((i : ℕ) × (c' : Bcache) × (cached 1 5 (binit zeros) order ≡ none)
        × (unused (binit zeros) order ≡ some i)
        × (bget 1 5 (binit zeros) ≡ ok (i, c'))
        × Changed
            (binit zeros)
            i
            (record ((binit zeros).buf i) { valid = false; dev = 1; blockno = 5; refcnt = 1 })
            c')
    ⊎ ((cached 1 5 (binit zeros) order ≡ none)
        × (unused (binit zeros) order ≡ none)
        × (bget 1 5 (binit zeros) ≡ panic))
bget-list_example = bget-list 1 5 (binit zeros) order (binit-IsBcache zeros)

abbrev got : Bcache
got = recycle 0 1 5 (binit zeros)

oldest_first : bget 1 5 (binit zeros) ≡ ok (0, got)
unfolding cached unused binit
oldest_first = bget_lists 1 5 (binit zeros) order (binit-IsBcache zeros)

got-Reach : Reach (binit zeros) got
got-Reach = next here (get 1 5 0 got (omega arith) oldest_first)

Reach-IsCache_example : IsCache got
Reach-IsCache_example = Reach-IsCache zeros (λ i. refl) got-Reach

abbrev newer : List ℕ
newer = ups 29 1 []

got-IsBcache : IsBcache got (newer ++ 0 ∷ [])
unfolding recycle
got-IsBcache = same_links (binit zeros) got order (binit-IsBcache zeros) refl refl

one_reference : (got.buf 0).refcnt < 2 ^ 32
unfolding recycle
one_reference = omega arith

put_back-IsBcache_example :
    IsBcache (put_back 0 got) (if (got.buf 0).refcnt == 1 then 0 ∷ newer ++ [] else newer ++ 0 ∷ [])
put_back-IsBcache_example = put_back-IsBcache got newer 0 [] got-IsBcache one_reference
