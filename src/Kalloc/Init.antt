-- ===== src/Kalloc/Init.antt =====
-- kinit and freerange of kernel/kalloc.c: every page of the managed memory becomes free.
use zerocopy_ringbuf.Common.{
  ℕ, zero, suc, ◌+◌, ◌-◌, ◌*◌, ◌%◌, ◌/◌, ◌≤◌, ◌<◌, ◌≡◌, ◌↔◌, refl, List, [], ◌∷◌, true, false, ◌||◌,
  ◌&&◌, ltb, leb, ◌==◌, ok, arith, ◌>>=◌, Bool-cases, inl, inr,
}
use zerocopy_ringbuf.Kalloc.{Kmem, phystop, pg_round_up, free_pages, freerange, kinit}
use zerocopy_ringbuf.Kalloc.FreeList.{has, IsPage, IsFree, kfree_lem}

-- The list after `n` pages from `p` on were freed before `xs`.
abbrev freed : ℕ → ℕ → List ℕ → List ℕ
freed zero p xs = xs
freed (suc n) p xs = freed n (p + 4096) (p ∷ xs)

has-freed :
    (n p : ℕ) (xs : List ℕ) (a : ℕ)
    → has a (freed n p xs)
      ≡ (has a xs || (leb p a && (ltb a (p + n * 4096) && ((a - p) % 4096 == 0))))
has-freed zero p xs a = ground arith
has-freed (suc n) p xs a = ground (arith, has-freed n (p + 4096) (p ∷ xs) a)

managed_iff :
    (kernel_end : ℕ)
    → 0 < kernel_end
    → kernel_end ≤ phystop
    → (a : ℕ)
    → (let start = pg_round_up kernel_end in
        (leb start a
          && (ltb a (start + (phystop - start) / 4096 * 4096) && ((a - start) % 4096 == 0)))
        ≡ true)
      ↔ IsPage kernel_end a
managed_iff kernel_end po hi a = (λ e. ground arith, λ p. ground arith)

module _ (kernel_end : ℕ) where
  free_pages-IsFree :
      (n p : ℕ) (k : Kmem) (xs : List ℕ)
      → 0 < p
      → p % 4096 ≡ 0
      → kernel_end ≤ p
      → p + n * 4096 ≤ phystop
      → IsFree kernel_end k xs
      → ((a : ℕ) → has a xs ≡ true → a < p)
      → (k' : Kmem) × (free_pages kernel_end n p k ≡ ok (tt, k'))
        × IsFree kernel_end k' (freed n p xs)
  unfolding free_pages
  free_pages-IsFree zero p k xs po al lo hi f below = (k, refl, f)
  free_pages-IsFree (suc n) p k xs po al lo hi f below = elim (Bool-cases (has p xs)) [
    | inl old ↦ absurd (omega (arith, below p old))
    | inr new ↦
        let (k1, run, f1, same) = kfree_lem kernel_end k p xs f (omega arith) new in
        let (k2, rest, f2) =
          free_pages-IsFree n (p + 4096) k1 (p ∷ xs) (omega arith) (omega arith) (omega arith)
            (omega arith) f1 (λ a h. ground (arith, below a)) in
        (k2, rw (run, ◌>>=◌) rest, f2)
  ]

  -- From an empty free list, with end above 0 and not above PHYSTOP, kinit returns, and the free
  -- list holds exactly the aligned pages from end to PHYSTOP, each once.
  pub kinit-IsFree :
      (k : Kmem)
      → 0 < kernel_end
      → kernel_end ≤ phystop
      → k.freelist ≡ 0
      → (k' : Kmem) × (xs : List ℕ) × (kinit kernel_end k ≡ ok (tt, k'))
        × IsFree kernel_end k' xs
        × ((a : ℕ) → (has a xs ≡ true) ↔ IsPage kernel_end a)
  unfolding kinit freerange
  kinit-IsFree k po hi none_free =
      let start = pg_round_up kernel_end in
      let n = (phystop - start) / 4096 in
      let (k', run, f) =
        free_pages-IsFree n start (record k { lock = false }) [] (omega arith) (omega arith)
          (omega arith) (omega arith) (record { unlocked = refl; chain = none_free })
          (λ a h. absurd (cc)) in
      (
        k',
        freed n start [],
        run,
        f,
        λ a. rw (has-freed n start [] a) (managed_iff kernel_end po hi a),
      )
