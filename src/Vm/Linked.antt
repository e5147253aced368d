-- ===== src/Vm/Linked.antt =====
-- The link to a new table of zeros maps no page and unmaps none.
use zerocopy_ringbuf.Common.{ℕ, ◌+◌, ◌*◌, ◌≤◌, ◌<◌, ◌≡◌, ◌≢◌, ap, ◌∙◌, List, false, arith, inl, inr}
use zerocopy_ringbuf.Kstring.{Mem}
use zerocopy_ringbuf.Words.{load_word}
use zerocopy_ringbuf.Kalloc.FreeList.{has, IsPage}
use zerocopy_ringbuf.Vm.{pte_v}
use zerocopy_ringbuf.Vm.Walk.{user_page_at}
use zerocopy_ringbuf.Vm.Tables.{idx, idx-lt, table, IsTables}
use zerocopy_ringbuf.Vm.Lookup.{user_page_at-table}
use zerocopy_ringbuf.Vm.Translate.{user_page_at-same}
use zerocopy_ringbuf.Vm.Link.{linked, placed, no_table, load_new, entry_other, linked-IsTables}

module _ (kernel_end pt : ℕ) (m : Mem) (xs : List ℕ) (t : IsTables kernel_end pt m xs) (d va p : ℕ)
    (low : d < 2) (some_table : table kernel_end pt d m va ≢ 0)
    (free_entry : pte_v (load_word m (table kernel_end pt d m va + 8 * idx d va)) ≡ false)
    (page : IsPage kernel_end p) (taken : has p xs ≡ false)
    (new : (e w : ℕ) → e ≤ 2 → table kernel_end pt e m w ≢ p)
    (cleared : (i : ℕ) → i < 512 → load_word m (p + 8 * i) ≡ 0) where
  abbrev m' : Mem
  m' = linked kernel_end pt m xs t d va p low some_table free_entry page taken new cleared

  abbrev t' : IsTables kernel_end pt m' xs
  t' = linked-IsTables kernel_end pt m xs t d va p low some_table free_entry page taken new cleared

  pub user_page_at-linked : (w : ℕ) → user_page_at m' pt w ≡ user_page_at m pt w
  user_page_at-linked w =
      elim (placed kernel_end pt m xs t d va p low some_table free_entry page taken new cleared 2 w
        (omega arith)) [
          | inl (q, s, at) ↦
              let gone : table kernel_end pt 2 m w ≡ 0 =
                ap (λ c. table kernel_end pt c m w) q
                ∙ no_table kernel_end pt m xs t d va p low some_table free_entry page taken new
                    cleared w s in
              let zeros : load_word m' (p + 8 * idx 2 w) ≡ 0 =
                load_new kernel_end pt m xs t d va p low some_table free_entry page taken new
                  cleared (idx 2 w) (idx-lt 2 w) in
              rw
                (
                  user_page_at-table kernel_end pt m' xs w t',
                  user_page_at-table kernel_end pt m xs w t,
                  at,
                  gone,
                )
                (rw zeros (ground arith))
          | inr kept ↦ user_page_at-same kernel_end pt m m' xs xs t t' w kept (λ some.
              entry_other kernel_end pt m xs t d va p low some_table free_entry page taken new
                cleared 2 w (omega arith) (λ q s. omega arith) some)
        ]
