-- ===== src/Paging/Laws.antt =====
-- What the ring buffers rely on of the memory management, for one page table `pt`: `tr s va` is the
-- physical address of the user page at `va` or 0, and `Page s pa` says that `pa` is a page which
-- was allocated and is no part of a page table.
use zerocopy_ringbuf.Common.{ℕ, ◌%◌, ◌/◌, ◌^◌, ◌<◌, ◌≡◌, ◌≢◌, true, is_zero, ok, Ensures}
use zerocopy_ringbuf.Paging.{Paging}

module _ {S : Type 0} (tr : S → ℕ → ℕ) (Valid : S → Type 0) (Page : S → ℕ → Type 0) where
  -- The translations and the pages of `s` are those of `s'` too.
  pub record Kept (s s' : S) : Type 0 where
    pub valid : Valid s'
    pub same : (va : ℕ) → tr s' va ≡ tr s va
    pub pages : (pa : ℕ) → Page s pa → Page s' pa

  pub record Allocated (s : S) (mem : ℕ) (s' : S) : Type 0 where
    pub kept : Kept s s'
    pub page : mem ≢ 0 → Page s' mem
    pub fresh : mem ≢ 0 → ¬ Page s mem

  pub record Mapped (s : S) (va pa : ℕ) (s' : S) : Type 0 where
    pub valid : Valid s'
    pub pages : (p : ℕ) → Page s p → Page s' p
    pub here : tr s' va ≡ pa
    pub others : (w : ℕ) → w / 4096 ≢ va / 4096 → tr s' w ≡ tr s w

  pub record IsPaging (vm : Paging S) (pt : ℕ) : Type 0 where
    pub walkaddr_reads : (va : ℕ) (s : S) → Valid s → vm.walkaddr pt va s ≡ ok (tr s va, s)
    pub kalloc_allocates : (s : S) → Valid s → Ensures (λ mem s'. Allocated s mem s') (vm.kalloc s)
    pub memset_keeps :
        (mem : ℕ) (s : S)
        → Valid s
        → Page s mem
        → Ensures (λ _ s'. Kept s s') (vm.memset mem 0 4096 s)
    pub mappages_maps :
        (va pa : ℕ) (s : S)
        → Valid s
        → Page s pa
        → va % 4096 ≡ 0
        → va < 2 ^ 38
        → Ensures (λ rc s'. is_zero rc ≡ true → Mapped s va pa s') (vm.mappages pt va 4096 pa 30 s)
