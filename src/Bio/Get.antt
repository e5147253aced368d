-- ===== src/Bio/Get.antt =====
-- bget of kernel/bio.c on the list of buffers: the buffer of the block, or the least recently used
-- one that no one holds.
use zerocopy_ringbuf.Common.{
  ◌⊎◌, ◌≢◌, ◌%◌, ◌^◌, ok, panic, Option-cases, ℕ, zero, suc, ◌+◌, ◌<◌, ◌≡◌, refl, sym, ap, ◌∙◌,
  true, false, ◌&&◌, Option, none, some, List, [], ◌∷◌, length, ◌==◌, if◌then◌else◌, arith,
  Bool-cases, inl, inr,
}
use zerocopy_ringbuf.Kalloc.FreeList.{has}
use zerocopy_ringbuf.Bio.{
  Bcache, Buf, nbuf, head, find_cached, find_unused, bget, chosen, recycle, incr_refcnt, set_buf,
}
use zerocopy_ringbuf.Bio.Linked.{Linked}
use zerocopy_ringbuf.Bio.Order.{IsBcache}

-- The first buffer of a list that is for a block.
unfoldable pub cached : ℕ → ℕ → Bcache → List ℕ → Option ℕ
cached dev blockno c [] = none
cached dev blockno c (x ∷ xs) =
    if ((c.buf x).dev == dev) && ((c.buf x).blockno == blockno)
    then some x
    else cached dev blockno c xs

abbrev pub or_else : Option ℕ → Option ℕ → Option ℕ
or_else (some x) o = some x
or_else none o = o

-- The last buffer of a list that has no references.
unfoldable pub unused : Bcache → List ℕ → Option ℕ
unused c [] = none
unused c (x ∷ xs) = or_else (unused c xs) (if (c.buf x).refcnt == 0 then some x else none)

find_cached-list :
    (n dev blockno : ℕ) (c : Bcache) (a : ℕ) (xs : List ℕ)
    → Linked c.next c.prev a xs head
    → has head xs ≡ false
    → length xs < n
    → find_cached n dev blockno (c.next a) c ≡ cached dev blockno c xs
unfolding find_cached cached
find_cached-list zero dev blockno c a xs l h lt = absurd (omega (arith, lt))
find_cached-list (suc n) dev blockno c a [] l h lt =
    let at : (c.next a == head) ≡ true = ground (arith, l.0) in rw at refl
find_cached-list (suc n) dev blockno c a (x ∷ xs) l h lt =
    let rest = find_cached-list n dev blockno c x xs l.2 (ground (arith, h)) (omega (arith, lt)) in
    let off : (x == head) ≡ false = ground (arith, h) in rw l.0 (rw (off, rest) refl)

or_else_assoc : (o p q : Option ℕ) → or_else o (or_else p q) ≡ or_else (or_else o p) q
or_else_assoc none p q = refl
or_else_assoc (some x) p q = refl

-- A round of the second loop.
find_unused-next :
    (n : ℕ) (c : Bcache) (x a : ℕ)
    → (x == head) ≡ false
    → c.prev x ≡ a
    → find_unused (suc n) x c
      ≡ or_else (if (c.buf x).refcnt == 0 then some x else none) (find_unused n a c)
unfolding find_unused
find_unused-next n c x a off e = elim (Bool-cases ((c.buf x).refcnt == 0)) [
  | inl free ↦ rw (off, free) refl
  | inr busy ↦ rw (off, busy, e) refl
]

-- From the end of a list back to its start `a`.
find_unused-list :
    (n : ℕ) (c : Bcache) (a : ℕ) (xs : List ℕ) (b : ℕ)
    → Linked c.next c.prev a xs b
    → has head xs ≡ false
    → find_unused (n + length xs) (c.prev b) c ≡ or_else (unused c xs) (find_unused n a c)
unfolding unused
find_unused-list n c a [] b l h = let z : n + 0 ≡ n = omega arith in rw (z, l.1) refl
find_unused-list n c a (x ∷ xs) b l h =
    let z : n + suc (length xs) ≡ suc n + length xs = omega arith in
    let off : (x == head) ≡ false = ground (arith, h) in
    ap (λ m. find_unused m (c.prev b) c) z
    ∙ find_unused-list (suc n) c x xs b l.2 (ground (arith, h))
    ∙ ap (or_else (unused c xs)) (find_unused-next n c x a off l.1)
    ∙ or_else_assoc (unused c xs) (if (c.buf x).refcnt == 0 then some x else none)
        (find_unused n a c)

find_unused-head : (n : ℕ) (c : Bcache) → find_unused n head c ≡ none
unfolding find_unused
find_unused-head zero c = refl
find_unused-head (suc n) c = refl

or_else-none : (o : Option ℕ) → or_else o none ≡ o
or_else-none none = refl
or_else-none (some x) = refl

pub bget_lists :
    (dev blockno : ℕ) (c : Bcache) (xs : List ℕ)
    → IsBcache c xs
    → bget dev blockno c ≡ chosen dev blockno c (cached dev blockno c xs) (unused c xs)
unfolding bget
bget_lists dev blockno c xs v =
    let l = v.list.links in
    let out : has head xs ≡ false = v.list.distinct.0 in
    let rounds : 1 + length xs ≡ nbuf + 1 = omega (arith, v.count) in
    let last : find_unused (nbuf + 1) (c.prev head) c ≡ unused c xs =
      ap (λ m. find_unused m (c.prev head) c) (sym rounds)
      ∙ find_unused-list 1 c head xs head l out
      ∙ ap (or_else (unused c xs)) (find_unused-head 1 c)
      ∙ or_else-none (unused c xs) in
    ap (λ o. chosen dev blockno c o (find_unused (nbuf + 1) (c.prev head) c))
      (find_cached-list (nbuf + 1) dev blockno c head xs l out (omega (arith, v.count)))
    ∙ ap (chosen dev blockno c (cached dev blockno c xs)) last

-- Buffer `i` alone has changed, to `b`; no link has.
pub record Changed (c : Bcache) (i : ℕ) (b : Buf) (c' : Bcache) : Type 0 where
  pub now : c'.buf i ≡ b
  pub others : (j : ℕ) → j ≢ i → c'.buf j ≡ c.buf j
  pub nexts : c'.next ≡ c.next
  pub prevs : c'.prev ≡ c.prev

set_buf-Changed : (c : Bcache) (i : ℕ) (b : Buf) → Changed c i b (set_buf i b c)
set_buf-Changed c i b = record {
  now = let at : (i == i) ≡ true = ground arith in rw at refl;
  others = λ j ne. let off : (j == i) ≡ false = ground (arith, ne) in rw off refl;
  nexts = refl;
  prevs = refl;
}

-- Where the links are a list of all buffers: bget takes the first buffer of the list that is for
-- the block, and counts one reference more; where there is none, it takes the last one without
-- references and makes it the block's, not valid and with one reference; where there is none of
-- these either, it panics. No other buffer changes, and no link.
pub bget-list :
    (dev blockno : ℕ) (c : Bcache) (xs : List ℕ)
    → IsBcache c xs
    → ((i : ℕ) × (c' : Bcache) × (cached dev blockno c xs ≡ some i)
        × (bget dev blockno c ≡ ok (i, c'))
        × Changed c i (record (c.buf i) { refcnt = ((c.buf i).refcnt + 1) % 2 ^ 32 }) c')
      ⊎ ((i : ℕ) × (c' : Bcache) × (cached dev blockno c xs ≡ none)
          × (unused c xs ≡ some i)
          × (bget dev blockno c ≡ ok (i, c'))
          × Changed c i
              (record (c.buf i) { valid = false; dev = dev; blockno = blockno; refcnt = 1 })
              c')
      ⊎ ((cached dev blockno c xs ≡ none) × (unused c xs ≡ none) × (bget dev blockno c ≡ panic))
unfolding recycle
bget-list dev blockno c xs v =
    let run = bget_lists dev blockno c xs v in
    elim (Option-cases (cached dev blockno c xs)) [
      | inr (i, e) ↦ inl (i, incr_refcnt i c, e, run ∙ rw e refl, set_buf-Changed c i _)
      | inl none_cached ↦ elim (Option-cases (unused c xs)) [
        | inr (i, e) ↦ inr (
            inl (
              i,
              recycle i dev blockno c,
              none_cached,
              e,
              run ∙ rw (none_cached, e) refl,
              set_buf-Changed c i _,
            ))
        | inl none_free ↦ inr (inr (none_cached, none_free, run ∙ rw (none_cached, none_free) refl))
      ]
    ]
