-- ===== src/Kalloc/FreeList.antt =====
-- The free list of kernel/kalloc.c as a list of pages: kalloc takes its head, kfree puts a page
-- before it.
use zerocopy_ringbuf.Common.{
  ℕ, ◌%◌, ◌^◌, ◌≤◌, ◌<◌, ◌≡◌, ◌↔◌, ◌⊎◌, ◌≢◌, refl, List, get_or, [], ◌∷◌, Bool, false, ◌||◌, ◌==◌,
  ok, panic, arith, Bool-cases, inl, inr, ◌>>=◌, if◌then◌else◌,
}
use zerocopy_ringbuf.Kstring.{Mem, memset}
use zerocopy_ringbuf.Kstring.Memory.{within, memset-at}
use zerocopy_ringbuf.Words.{
  load_word, store_word, store_word-outside, load_word-store_word_self, load_word-same,
}
use zerocopy_ringbuf.Kalloc.{Kmem, acquire_kmem-free, kalloc, kfree, bad_page, phystop}

abbrev pub has : ℕ → List ℕ → Bool
has a [] = false
has a (x ∷ xs) = (a == x) || has a xs

abbrev pub tail : List ℕ → List ℕ
tail [] = []
tail (x ∷ xs) = xs

module _ (kernel_end : ℕ) where
  abbrev pub IsPage : ℕ → Type 0
  IsPage pa = (0 < pa) × (pa % 4096 ≡ 0) × (kernel_end ≤ pa) × (pa < phystop)

  -- From `head` the first words of the distinct pages `xs` lead to 0.
  abbrev pub Chain : Mem → ℕ → List ℕ → Type 0
  Chain m head [] = head ≡ 0
  Chain m head (x ∷ xs) = (head ≡ x) × IsPage x × (has x xs ≡ false) × Chain m (load_word m x) xs

  pub record IsFree (k : Kmem) (xs : List ℕ) : Type 0 where
    pub unlocked : k.lock ≡ false
    pub chain : Chain k.mem k.freelist xs

  -- Writing to one page keeps a list that it is not on.
  pub Chain-frame :
      (m m' : Mem) (head pa : ℕ) (xs : List ℕ)
      → pa % 4096 ≡ 0
      → has pa xs ≡ false
      → ((a : ℕ) → within pa 4096 a ≡ false → m' a ≡ m a)
      → Chain m head xs
      → Chain m' head xs
  Chain-frame m m' head pa [] al out same c = c
  Chain-frame m m' head pa (x ∷ xs) al out same (e, page, new, rest) =
      let words : load_word m x ≡ load_word m' x =
        load_word-same m m' x (λ b w. ground (arith, same b)) in
      (
        e,
        page,
        new,
        rw (← words) (Chain-frame m m' (load_word m x) pa xs al (ground arith) same rest),
      )

  pub Chain-head-lt : (m : Mem) (head : ℕ) (xs : List ℕ) → Chain m head xs → head < 2 ^ 64
  Chain-head-lt m head [] c = omega arith
  Chain-head-lt m head (x ∷ xs) c = omega arith

  IsPage-good : (pa : ℕ) → IsPage pa → bad_page kernel_end pa ≡ false
  IsPage-good pa page = ground arith

  -- With an empty list kalloc returns 0 and changes nothing.
  pub kalloc-empty : (k : Kmem) → IsFree k [] → kalloc k ≡ ok (0, k)
  unfolding kalloc
  kalloc-empty k f =
      rw (acquire_kmem-free k f.unlocked, ◌>>=◌) (ground (arith, f.unlocked, f.chain))

  pub kalloc-head :
      (k : Kmem) (x : ℕ) (xs : List ℕ)
      → IsFree k (x ∷ xs)
      → (k' : Kmem) × (kalloc k ≡ ok (x, k'))
        × IsFree k' xs
        × ((a : ℕ) → k'.mem a ≡ (if within x 4096 a then 5 else k.mem a))
  unfolding kalloc
  kalloc-head k x xs f = (
    record k { mem = memset k.mem x 5 4096; freelist = load_word k.mem x },
    rw (acquire_kmem-free k f.unlocked, ◌>>=◌) (ground (arith, f.unlocked, f.chain)),
    record {
      unlocked = f.unlocked;
      chain =
          Chain-frame k.mem (memset k.mem x 5 4096) (load_word k.mem x) x xs (f.chain.1.1)
            (f.chain.2) (λ a w. ground (arith, memset-at k.mem x 5 4096 a)) (f.chain.3);
    },
    λ a. memset-at k.mem x 5 4096 a,
  )

  -- On a well-formed free list kalloc returns its head, or 0 if it is empty; the tail is the free
  -- list then, well-formed still, and bytes outside the page are unchanged.
  pub kalloc_lem :
      (k : Kmem) (xs : List ℕ)
      → IsFree k xs
      → (k' : Kmem) × (kalloc k ≡ ok (get_or xs 0 0, k'))
        × IsFree k' (tail xs)
        × ((a : ℕ) → within (get_or xs 0 0) 4096 a ≡ false → k'.mem a ≡ k.mem a)
  kalloc_lem k [] f = (k, kalloc-empty k f, f, λ a w. refl)
  kalloc_lem k (x ∷ xs) f =
      let (k', run, free, at) = kalloc-head k x xs f in (k', run, free, λ a w. ground (arith, at a))

  kfree-run :
      (k : Kmem) (pa : ℕ)
      → k.lock ≡ false
      → bad_page kernel_end pa ≡ false
      → kfree kernel_end pa k
        ≡ ok (
          tt,
          record k { mem = store_word (memset k.mem pa 1 4096) pa k.freelist; freelist = pa },
        )
  unfolding kfree
  kfree-run k pa free good =
      rw (good, acquire_kmem-free (record k { mem = memset k.mem pa 1 4096 }) free, ◌>>=◌)
        (ground (arith, free))

  -- For a managed page that is not free kfree returns, the page is put before the well-formed free
  -- list, and bytes outside the page are unchanged.
  pub kfree_lem :
      (k : Kmem) (pa : ℕ) (xs : List ℕ)
      → IsFree k xs
      → IsPage pa
      → has pa xs ≡ false
      → (k' : Kmem) × (kfree kernel_end pa k ≡ ok (tt, k'))
        × IsFree k' (pa ∷ xs)
        × ((a : ℕ) → within pa 4096 a ≡ false → k'.mem a ≡ k.mem a)
  kfree_lem k pa xs f page out =
      let filled : Mem = memset k.mem pa 1 4096 in
      let linked : Mem = store_word filled pa k.freelist in
      let outside : (a : ℕ) → within pa 4096 a ≡ false → linked a ≡ k.mem a = λ a w.
        ground (arith, memset-at k.mem pa 1 4096 a, store_word-outside filled pa k.freelist a) in
      let word : load_word linked pa ≡ k.freelist =
        load_word-store_word_self filled pa k.freelist
          (Chain-head-lt k.mem k.freelist xs f.chain) in
      (
        record k { mem = linked; freelist = pa },
        kfree-run k pa f.unlocked (IsPage-good pa page),
        record {
          unlocked = f.unlocked;
          chain = (
            refl,
            page,
            out,
            rw word (Chain-frame k.mem linked k.freelist pa xs (page.1) out outside f.chain),
          );
        },
        outside,
      )

  -- kfree panics exactly for an address that is not that of a page which the allocator manages.
  pub kfree-panic_iff :
      (k : Kmem) (pa : ℕ)
      → k.lock ≡ false
      → (kfree kernel_end pa k ≡ panic) ↔ ((pa % 4096 ≢ 0) ⊎ (pa < kernel_end) ⊎ (phystop ≤ pa))
  unfolding kfree
  kfree-panic_iff k pa free = elim (Bool-cases (bad_page kernel_end pa)) [
    | inl bad ↦ (λ _. ground arith, λ _. rw bad)
    | inr good ↦ (λ e. absurd (cc (kfree-run k pa free good)), λ w. absurd (ground arith))
  ]
