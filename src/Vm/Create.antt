-- ===== src/Vm/Create.antt =====
-- uvmcreate of kernel/vm.c: a new root table makes a well-formed memory with nothing mapped.
use zerocopy_ringbuf.Common.{
  ℕ, zero, suc, ◌+◌, ◌*◌, ◌<◌, ◌≡◌, ◌≢◌, refl, ◌∙◌, List, ◌∷◌, true, false, ◌==◌, ok, arith, ◌>>=◌,
}
use zerocopy_ringbuf.Kstring.{Mem, memset}
use zerocopy_ringbuf.Kstring.Memory.{memset-at}
use zerocopy_ringbuf.Words.{load_word, load_word-zero}
use zerocopy_ringbuf.Kalloc.{Kmem}
use zerocopy_ringbuf.Kalloc.FreeList.{has, IsPage, IsFree, Chain-frame, kalloc-head}
use zerocopy_ringbuf.Vm.{pte_v, pte2pa}
use zerocopy_ringbuf.Vm.Space.{uvmcreate}
use zerocopy_ringbuf.Vm.Walk.{user_page_at}
use zerocopy_ringbuf.Vm.Tables.{idx, idx-lt, Same, child, table, IsTables}
use zerocopy_ringbuf.Vm.Lookup.{user_page_at-table}
use zerocopy_ringbuf.Vm.Valid.{IsValid, tr}

module _ (kernel_end pt : ℕ) (m : Mem) (xs : List ℕ) (page : IsPage kernel_end pt)
    (taken : has pt xs ≡ false) (zeros : (i : ℕ) → i < 512 → load_word m (pt + 8 * i) ≡ 0) where
  child-root : (i : ℕ) → i < 512 → child m pt i ≡ 0
  unfolding child
  child-root i lt = ground (arith, zeros i lt)

  child-none : (i : ℕ) → child m 0 i ≡ 0
  unfolding child
  child-none i = refl

  no_table : (d va : ℕ) → table kernel_end pt (suc d) m va ≡ 0
  unfolding table
  no_table zero va = child-root (idx 0 va) (idx-lt 0 va)
  no_table (suc d) va = rw (no_table d va) (child-none (idx (suc d) va))

  root_table : (va : ℕ) → table kernel_end pt 0 m va ≡ pt
  unfolding table
  root_table va = refl

  empty-page :
      (d va : ℕ)
      → table kernel_end pt d m va ≢ 0
      → IsPage kernel_end (table kernel_end pt d m va)
        × (has (table kernel_end pt d m va) xs ≡ false)
  empty-page zero va some = rw (root_table va) (page, taken)
  empty-page (suc d) va some = absurd (some (no_table d va))

  empty_unique :
      (d e va w : ℕ)
      → table kernel_end pt d m va ≢ 0
      → table kernel_end pt d m va ≡ table kernel_end pt e m w
      → (d ≡ e) × Same d va w
  empty_unique zero zero va w some q = (refl, tt)
  empty_unique zero (suc e) va w some q = absurd (some (q ∙ no_table e w))
  empty_unique (suc d) e va w some q = absurd (some (no_table d va))

  empty-children :
      (d va : ℕ)
      → table kernel_end pt d m va ≢ 0
      → pte_v (load_word m (table kernel_end pt d m va + 8 * idx d va)) ≡ true
      → pte2pa (load_word m (table kernel_end pt d m va + 8 * idx d va)) ≢ 0
  empty-children zero va =
      rw (root_table va) (rw (zeros (idx 0 va) (idx-lt 0 va)) (λ some valid. absurd (cc)))
  empty-children (suc d) va = λ some. absurd (some (no_table d va))

  pub empty-IsTables : IsTables kernel_end pt m xs
  empty-IsTables = record {
    root = λ z. omega (arith, page);
    page = λ d va le. empty-page d va;
    unique = λ d e va w le le'. empty_unique d e va w;
    children = λ d va lt. empty-children d va;
  }

  pub empty-unmapped : (va : ℕ) → user_page_at m pt va ≡ 0
  empty-unmapped va =
      user_page_at-table kernel_end pt m xs va empty-IsTables ∙ rw (no_table 1 va) (ground arith)

-- With a free page at the head of the list, uvmcreate returns that page and takes it off the list;
-- with it as the root table the memory is well-formed, and no user address is mapped.
uvmcreate-IsValid :
    (kernel_end : ℕ) (k : Kmem) (pt : ℕ) (xs : List ℕ)
    → IsFree kernel_end k (pt ∷ xs)
    → (k' : Kmem) × (uvmcreate k ≡ ok (pt, k'))
      × IsFree kernel_end k' xs
      × IsValid kernel_end pt k'
      × ((va : ℕ) → tr kernel_end pt k' va ≡ 0)
unfolding uvmcreate
uvmcreate-IsValid kernel_end k pt xs f =
    let (k1, run, f1, bytes) = kalloc-head kernel_end k pt xs f in
    let m : Mem = memset k1.mem pt 0 4096 in
    let there : (pt == 0) ≡ false = ground (arith, f.chain) in
    let zeros : (i : ℕ) → i < 512 → load_word m (pt + 8 * i) ≡ 0 =
      λ i lt. load_word-zero m (pt + 8 * i) (λ b w. ground (arith, memset-at k1.mem pt 0 4096 b)) in
    let f2 : IsFree kernel_end (record k1 { mem = m }) xs = record {
      unlocked = f1.unlocked;
      chain =
          Chain-frame kernel_end k1.mem m k1.freelist pt xs f.chain.1.1 f.chain.2
            (λ a w. ground (arith, memset-at k1.mem pt 0 4096 a)) f1.chain;
    } in
    (
      record k1 { mem = m },
      rw (run, ◌>>=◌) (rw (there, ◌>>=◌) refl),
      f2,
      record {
        free_list = xs;
        free = f2;
        tables = empty-IsTables kernel_end pt m xs f.chain.1 f.chain.2 zeros;
      },
      empty-unmapped kernel_end pt m xs f.chain.1 f.chain.2 zeros,
    )
