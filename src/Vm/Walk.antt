-- ===== src/Vm/Walk.antt =====
-- Looking up a page of kernel/vm.c: walk without `alloc` and walkaddr only read, and what they
-- return is a function of the memory.
use zerocopy_ringbuf.Common.{
  ℕ, zero, suc, ◌+◌, ◌%◌, ◌<◌, ◌≡◌, refl, false, ◌&&◌, ◌||◌, leb, ◌==◌, if◌then◌else◌, ok, arith,
  Bool-cases, inl, inr, ◌>>=◌,
}
use zerocopy_ringbuf.Kstring.{Mem}
use zerocopy_ringbuf.Words.{load_word}
use zerocopy_ringbuf.Kalloc.{Kmem}
use zerocopy_ringbuf.Vm.{
  pg_round_down, pte_addr, pte_v, pte_u, pte2pa, maxva, walk, walk_from, walkaddr,
}

-- The address of the entry that `walk` comes to from a level on, or 0.
unfoldable pub leaf : ℕ → Mem → ℕ → ℕ → ℕ
leaf zero m pt va = pte_addr pt 0 va
leaf (suc level) m pt va =
    if pte_v (load_word m (pte_addr pt (suc level) va))
    then leaf level m (pte2pa (load_word m (pte_addr pt (suc level) va))) va
    else 0

-- The physical page that a user address is mapped to, or 0.
unfoldable pub user_page_at : Mem → ℕ → ℕ → ℕ
user_page_at m pt va =
    if leb maxva va || (leaf 2 m pt va == 0)
    then 0
    else if pte_v (load_word m (leaf 2 m pt va)) && pte_u (load_word m (leaf 2 m pt va))
    then pte2pa (load_word m (leaf 2 m pt va))
    else 0

pub walk_from-leaf :
    (level : ℕ) (pt va : ℕ) (k : Kmem)
    → walk_from level pt va false k ≡ ok (leaf level k.mem pt va, k)
unfolding walk_from leaf
walk_from-leaf zero pt va k = refl
walk_from-leaf (suc level) pt va k =
    let pte : ℕ = load_word k.mem (pte_addr pt (suc level) va) in
    elim (Bool-cases (pte_v pte)) [
      | inl v ↦ rw (v, ◌>>=◌) (walk_from-leaf level (pte2pa pte) va k)
      | inr n ↦ rw (n, ◌>>=◌) refl
    ]

pub walk-leaf :
    (pt va : ℕ) (k : Kmem) → va < maxva → walk pt va false k ≡ ok (leaf 2 k.mem pt va, k)
unfolding walk
walk-leaf pt va k h =
    let low : leb maxva va ≡ false = ground arith in rw low (walk_from-leaf 2 pt va k)

-- walkaddr always returns and changes nothing; it gives the page of the leaf entry that is found
-- through the three levels of the table, or 0 where an entry on the way or the user bit is
-- missing, or the address is not below 2 ^ 38.
pub walkaddr_lem : (pt va : ℕ) (k : Kmem) → walkaddr pt va k ≡ ok (user_page_at k.mem pt va, k)
unfolding walkaddr user_page_at
walkaddr_lem pt va k = elim (Bool-cases (leb maxva va)) [
  | inl high ↦ rw high
  | inr low ↦ rw low (rw (walk-leaf pt va k (ground arith), ◌>>=◌) (ground arith))
]

-- The physical address of the byte at a user address.
abbrev pub physical : Mem → ℕ → ℕ → ℕ
physical m pt va = user_page_at m pt (pg_round_down va) + va % 4096
