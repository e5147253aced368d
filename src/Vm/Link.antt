-- ===== src/Vm/Link.antt =====
-- Storing a new table in an entry that was not valid: the tree gains that table and nothing else.
use zerocopy_ringbuf.Common.{
  ℕ, zero, suc, ◌+◌, ◌*◌, ◌%◌, ◌≤◌, ◌<◌, ◌≡◌, ◌≢◌, ◌⊎◌, refl, sym, ap, ◌∙◌, List, true, false, ◌==◌,
  arith, Bool-cases, inl, inr,
}
use mathlib.Core.Path.{subst}
use zerocopy_ringbuf.Kstring.{Mem}
use zerocopy_ringbuf.Words.{
  load_word, store_word, load_word-store_word_self, load_word-store_word_ne,
}
use zerocopy_ringbuf.Kalloc.FreeList.{has, IsPage}
use zerocopy_ringbuf.Vm.{pte_v, pte2pa, entry}
use zerocopy_ringbuf.Vm.Tables.{
  idx, idx-lt, child, Same, Same-dec, Same-sym, Same-trans, slots_apart, table, table-Same,
  IsTables,
}

module _ (kernel_end pt : ℕ) (m : Mem) (xs : List ℕ) (t : IsTables kernel_end pt m xs) (d va p : ℕ)
    (low : d < 2) (some_table : table kernel_end pt d m va ≢ 0)
    (free_entry : pte_v (load_word m (table kernel_end pt d m va + 8 * idx d va)) ≡ false)
    (page : IsPage kernel_end p) (taken : has p xs ≡ false)
    (new : (e w : ℕ) → e ≤ 2 → table kernel_end pt e m w ≢ p)
    (cleared : (i : ℕ) → i < 512 → load_word m (p + 8 * i) ≡ 0) where
  abbrev pub tbl : ℕ → Mem → ℕ → ℕ
  tbl = table kernel_end pt

  abbrev pub slot : ℕ
  slot = tbl d m va + 8 * idx d va

  abbrev pub linked : Mem
  linked = store_word m slot (entry p 0)

  aligned : (e w : ℕ) → e ≤ 2 → tbl e m w ≢ 0 → tbl e m w % 4096 ≡ 0
  aligned e w le some = (t.page e w le some).0.1

  load_slot : load_word linked slot ≡ entry p 0
  load_slot = load_word-store_word_self m slot (entry p 0) (omega arith)

  load_other :
      (e w i : ℕ)
      → e ≤ 2
      → tbl e m w ≢ 0
      → i < 512
      → (tbl d m va ≡ tbl e m w → idx d va ≢ i)
      → load_word linked (tbl e m w + 8 * i) ≡ load_word m (tbl e m w + 8 * i)
  load_other e w i le some lt ne = load_word-store_word_ne m slot (tbl e m w + 8 * i) (entry p 0) (
      slots_apart (tbl d m va) (tbl e m w) (idx d va) i (aligned d va (omega arith) some_table)
        (aligned e w le some) (idx-lt d va) lt ne)

  pub load_new : (i : ℕ) → i < 512 → load_word linked (p + 8 * i) ≡ 0
  load_new i lt =
      load_word-store_word_ne m slot (p + 8 * i) (entry p 0) (
        slots_apart (tbl d m va) p (idx d va) i (aligned d va (omega arith) some_table) page.1
          (idx-lt d va) lt (λ e. absurd (new d va (omega arith) e)))
      ∙ cleared i lt

  -- An entry of an old table other than the slot is as it was.
  pub entry_other :
      (e w : ℕ)
      → e ≤ 2
      → (e ≡ d → Same (suc d) va w → ⊥)
      → tbl e m w ≢ 0
      → load_word linked (tbl e m w + 8 * idx e w) ≡ load_word m (tbl e m w + 8 * idx e w)
  entry_other e w le apart some = load_other e w (idx e w) le some (idx-lt e w) (λ same i.
      let (de, s) = t.unique d e va w (omega arith) le some_table same in
      apart (sym de) (s, i ∙ ap (λ k. idx k w) (sym de)))

  child_other :
      (e w : ℕ)
      → e ≤ 2
      → (e ≡ d → Same (suc d) va w → ⊥)
      → child linked (tbl e m w) (idx e w) ≡ child m (tbl e m w) (idx e w)
  unfolding child
  child_other e w le apart = elim (Bool-cases (tbl e m w == 0)) [
    | inl none_there ↦ rw none_there refl
    | inr there ↦ rw (entry_other e w le apart (λ z. ground arith)) refl
  ]

  table_low : (e w : ℕ) → e ≤ d → tbl e linked w ≡ tbl e m w
  unfolding table
  table_low zero w le = refl
  table_low (suc e) w le =
      rw (table_low e w (omega arith)) (child_other e w (omega arith) (λ q s. omega arith))

  child_slot : child linked (tbl d m va) (idx d va) ≡ p
  unfolding child
  child_slot = rw load_slot (ground (arith, some_table))

  pub table_linked : (w : ℕ) → Same (suc d) va w → tbl (suc d) linked w ≡ p
  unfolding table
  table_linked w s =
      rw (table_low d w (omega arith), ← table-Same kernel_end pt d m va w s.0, ← s.1) child_slot

  child-zero : (i : ℕ) → child m 0 i ≡ 0
  unfolding child
  child-zero i = refl

  child_new : (i : ℕ) → i < 512 → child linked p i ≡ 0
  unfolding child
  child_new i lt = ground (arith, load_new i lt)

  -- No table stood behind the entry.
  pub no_table : (w : ℕ) → Same (suc d) va w → tbl (suc d) m w ≡ 0
  unfolding table child
  no_table w s = sym (table-Same kernel_end pt (suc d) m va w s) ∙ (rw free_entry (ground arith))

  pub table_kept :
      (e w : ℕ) → e ≤ 2 → (e ≡ suc d → Same (suc d) va w → ⊥) → tbl e linked w ≡ tbl e m w
  unfolding table
  table_kept zero w le apart = refl
  table_kept (suc e) w le apart = elim (Same-dec (suc d) va w) [
    | inr other ↦
        rw (table_kept e w (omega arith) (λ q s. other s))
          (child_other e w (omega arith) (λ q s. other s))
    | inl same ↦ elim (Bool-cases (e == suc d)) [
      | inl below ↦
          let q : e ≡ suc d = ground arith in
          rw q (
            rw (table_linked w same, no_table w same)
              (child_new (idx (suc d) w) (idx-lt (suc d) w) ∙ sym (child-zero (idx (suc d) w))))
      | inr above ↦
          rw (table_kept e w (omega arith) (λ q s. ground arith))
            (child_other e w (omega arith) (λ q s. apart (ap suc q) s))
    ]
  ]

  pub placed :
      (e w : ℕ)
      → e ≤ 2
      → ((e ≡ suc d) × Same (suc d) va w × (tbl e linked w ≡ p)) ⊎ (tbl e linked w ≡ tbl e m w)
  placed e w le = elim (Same-dec (suc d) va w) [
    | inr other ↦ inr (table_kept e w le (λ q s. other s))
    | inl same ↦ elim (Bool-cases (e == suc d)) [
      | inl here ↦
          let q : e ≡ suc d = ground arith in
          inl (q, same, ap (λ c. tbl c linked w) q ∙ table_linked w same)
      | inr elsewhere ↦ inr (table_kept e w le (λ q s. ground arith))
    ]
  ]

  linked_unique :
      (e e' w w' : ℕ)
      → e ≤ 2
      → e' ≤ 2
      → tbl e linked w ≢ 0
      → tbl e linked w ≡ tbl e' linked w'
      → (e ≡ e') × Same e w w'
  linked_unique e e' w w' le le' some eq = elim (placed e w le) [
    | inl (q, s, at) ↦ elim (placed e' w' le') [
      | inl (q', s', at') ↦ (
        q ∙ sym q',
        subst (λ c. Same c w w') (sym q) (Same-trans (suc d) w va w' (Same-sym (suc d) va w s) s'),
      )
      | inr kept' ↦ absurd (new e' w' le' (sym kept' ∙ sym eq ∙ at))
    ]
    | inr kept ↦ elim (placed e' w' le') [
      | inl (q', s', at') ↦ absurd (new e w le (sym kept ∙ eq ∙ at'))
      | inr kept' ↦ t.unique e e' w w' le le' (λ z. some (kept ∙ z)) (sym kept ∙ eq ∙ kept')
    ]
  ]

  linked-children :
      (e w : ℕ)
      → e < 2
      → tbl e linked w ≢ 0
      → pte_v (load_word linked (tbl e linked w + 8 * idx e w)) ≡ true
      → pte2pa (load_word linked (tbl e linked w + 8 * idx e w)) ≢ 0
  linked-children e w lt = elim (placed e w (omega arith)) [
    | inl (q, s, at) ↦ rw at (rw (load_new (idx e w) (idx-lt e w)) (λ some v. absurd (cc)))
    | inr kept ↦ rw kept (elim (Same-dec (suc d) va w) [
      | inr other ↦
          λ some. rw (entry_other e w (omega arith) (λ q s. other s) some) (t.children e w lt some)
      | inl same ↦ elim (Bool-cases (e == d)) [
        | inr elsewhere ↦ λ some.
            rw (entry_other e w (omega arith) (λ q s. ground arith) some) (t.children e w lt some)
        | inl here ↦
            let q : e ≡ d = ground arith in
            rw (q, ← table-Same kernel_end pt d m va w same.0, ← same.1)
              (rw load_slot (λ some v z. omega arith))
      ]
    ])
  ]

  pub linked-IsTables : IsTables kernel_end pt linked xs
  linked-IsTables = record {
    root = t.root;
    page = λ e w le. elim (placed e w le) [
      | inl (q, s, at) ↦ λ some. rw at (page, taken)
      | inr kept ↦ rw kept (t.page e w le)
    ];
    unique = λ e e' w w'. linked_unique e e' w w';
    children = linked-children;
  }
