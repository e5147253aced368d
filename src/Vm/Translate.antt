-- ===== src/Vm/Translate.antt =====
-- Which writes change what a page table maps: none outside the tables, not the link to a new table
-- of zeros, and of the writes to a last entry the one for its own page.
use zerocopy_ringbuf.Common.{
  ℕ, zero, suc, ◌+◌, ◌*◌, ◌^◌, ◌≤◌, ◌<◌, ◌≡◌, ◌≢◌, refl, sym, ap, ◌∙◌, List, false, leb, ◌==◌,
  arith, Bool-cases, inl, inr,
}
use zerocopy_ringbuf.Kstring.{Mem}
use zerocopy_ringbuf.Words.{
  load_word, store_word, load_word-store_word_self, load_word-store_word_ne,
}
use zerocopy_ringbuf.Vm.{maxva}
use zerocopy_ringbuf.Vm.Walk.{user_page_at}
use zerocopy_ringbuf.Vm.Tables.{
  idx, idx-lt, child, Same, slots_apart, table, IsTables, Spares, load-Spares, table-Spares,
}
use zerocopy_ringbuf.Vm.Lookup.{user_page, leaf_table, user_page_at-table}

abbrev leaf_word : ℕ → ℕ → Mem → ℕ → ℕ
leaf_word kernel_end pt m va = load_word m (leaf_table kernel_end pt m va + 8 * idx 2 va)

module _ (kernel_end pt : ℕ) (m m' : Mem) (xs ys : List ℕ) (t : IsTables kernel_end pt m xs)
    (t' : IsTables kernel_end pt m' ys) where
  -- A page is mapped as before where its last table and its entry there are as before.
  pub user_page_at-same :
      (w : ℕ)
      → leaf_table kernel_end pt m' w ≡ leaf_table kernel_end pt m w
      → (leaf_table kernel_end pt m w ≢ 0
          → load_word m' (leaf_table kernel_end pt m w + 8 * idx 2 w)
            ≡ load_word m (leaf_table kernel_end pt m w + 8 * idx 2 w))
      → user_page_at m' pt w ≡ user_page_at m pt w
  user_page_at-same w same word =
      rw
        (
          user_page_at-table kernel_end pt m' ys w t',
          user_page_at-table kernel_end pt m xs w t,
          same,
        )
        (elim (Bool-cases (leaf_table kernel_end pt m w == 0)) [
          | inl none_there ↦ rw none_there (ground arith)
          | inr there ↦ rw (word (λ z. ground arith)) refl
        ])

  pub user_page_at-Spares :
      (w : ℕ) → Spares kernel_end pt m m' → user_page_at m' pt w ≡ user_page_at m pt w
  user_page_at-Spares w sp =
      user_page_at-same w (table-Spares kernel_end pt m m' 2 w (omega arith) sp)
        (λ some. load-Spares kernel_end pt m m' 2 w (idx 2 w) (omega arith) sp some (idx-lt 2 w))

-- Writing the last entry for `va`.
module _ (kernel_end pt : ℕ) (m : Mem) (xs : List ℕ) (t : IsTables kernel_end pt m xs) (va v : ℕ)
    (word : v < 2 ^ 64) (some_table : table kernel_end pt 2 m va ≢ 0) where
  abbrev at : ℕ
  at = table kernel_end pt 2 m va + 8 * idx 2 va

  abbrev pub written : Mem
  written = store_word m at v

  load_written :
      (e w : ℕ)
      → e ≤ 2
      → table kernel_end pt e m w ≢ 0
      → (e ≡ 2 → Same 3 va w → ⊥)
      → load_word written (table kernel_end pt e m w + 8 * idx e w)
        ≡ load_word m (table kernel_end pt e m w + 8 * idx e w)
  load_written e w le some apart =
      load_word-store_word_ne m at (table kernel_end pt e m w + 8 * idx e w) v (
        slots_apart (table kernel_end pt 2 m va) (table kernel_end pt e m w) (idx 2 va) (idx e w)
          (t.page 2 va (omega arith) some_table).0.1 (t.page e w le some).0.1 (idx-lt 2 va)
          (idx-lt e w)
          (λ same i.
            let (de, s) = t.unique 2 e va w (omega arith) le some_table same in
            apart (sym de) (s, i ∙ ap (λ k. idx k w) (sym de))))

  pub table_written :
      (e w : ℕ) → e ≤ 2 → table kernel_end pt e written w ≡ table kernel_end pt e m w
  unfolding table child
  table_written zero w le = refl
  table_written (suc e) w le =
      rw (table_written e w (omega arith)) (elim (Bool-cases (table kernel_end pt e m w == 0)) [
        | inl none_there ↦ rw none_there refl
        | inr there ↦
            rw (load_written e w (omega arith) (λ z. ground arith) (λ q s. omega arith)) refl
      ])

  pub written-IsTables : IsTables kernel_end pt written xs
  written-IsTables = record {
    root = t.root;
    page = λ e w le. rw (table_written e w le) (t.page e w le);
    unique = λ e e' w w' le le'.
        rw (table_written e w le, table_written e' w' le') (t.unique e e' w w' le le');
    children = λ e w lt. rw (table_written e w (omega arith)) (λ some.
        rw (load_written e w (omega arith) some (λ q s. omega arith)) (t.children e w lt some));
  }

  pub user_page_at-written_other :
      (w : ℕ) → (Same 3 va w → ⊥) → user_page_at written pt w ≡ user_page_at m pt w
  user_page_at-written_other w apart =
      user_page_at-same kernel_end pt m written xs xs t written-IsTables w
        (table_written 2 w (omega arith))
        (λ some. load_written 2 w (omega arith) some (λ q s. apart s))

  pub user_page_at-written_self : va < maxva → user_page_at written pt va ≡ user_page v
  user_page_at-written_self low =
      let below : leb maxva va ≡ false = ground arith in
      let there : (table kernel_end pt 2 m va == 0) ≡ false = ground (arith, some_table) in
      user_page_at-table kernel_end pt written xs va written-IsTables
      ∙ rw (below, table_written 2 va (omega arith), there)
          (ap user_page (load_word-store_word_self m at v word))
