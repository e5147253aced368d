-- ===== src/Vm/Lookup.antt =====
-- What a well-formed page table maps, read off its tables of depth 2.
use zerocopy_ringbuf.Common.{
  ℕ, suc, ◌+◌, ◌-◌, ◌*◌, ◌≡◌, ◌≢◌, refl, ap, ◌∙◌, List, true, false, ◌&&◌, ◌||◌, leb, ◌==◌,
  if◌then◌else◌, arith, Bool-cases, inl, inr,
}
use zerocopy_ringbuf.Kstring.{Mem}
use zerocopy_ringbuf.Words.{load_word}
use zerocopy_ringbuf.Vm.{maxva, px, pte_v, pte_u, pte2pa}
use zerocopy_ringbuf.Vm.Walk.{leaf, user_page_at}
use zerocopy_ringbuf.Vm.Tables.{idx, child, table, IsTables}

-- The page that an entry gives to the user, or 0.
abbrev pub user_page : ℕ → ℕ
user_page pte = if pte_v pte && pte_u pte then pte2pa pte else 0

pub level-idx : (level d va : ℕ) → suc level + d ≡ 2 → px (suc level) va ≡ idx d va
unfolding idx
level-idx level d va depth = let e : suc level ≡ 2 - d = omega arith in ap (λ l. px l va) e

leaf-zero : (m : Mem) (t va : ℕ) → leaf 0 m t va ≡ t + 8 * idx 2 va
unfolding leaf idx
leaf-zero m t va = refl

module _ (kernel_end pt : ℕ) where
  abbrev pub leaf_table : Mem → ℕ → ℕ
  leaf_table m va = table kernel_end pt 2 m va

  -- One step of the walk, at the level that belongs to the depth.
  leaf-step :
      (level d : ℕ) (m : Mem) (xs : List ℕ) (va : ℕ)
      → suc level + d ≡ 2
      → IsTables kernel_end pt m xs
      → table kernel_end pt d m va ≢ 0
      → leaf (suc level) m (table kernel_end pt d m va) va ≡ (
          if table kernel_end pt (suc d) m va == 0
          then 0
          else leaf level m (table kernel_end pt (suc d) m va) va)
  unfolding leaf table child
  leaf-step level d m xs va depth t some =
      let at : px (suc level) va ≡ idx d va = level-idx level d va depth in
      let there : (table kernel_end pt d m va == 0) ≡ false = ground (arith, some) in
      elim (Bool-cases (pte_v (load_word m (table kernel_end pt d m va + 8 * idx d va)))) [
        | inr not_valid ↦ rw (at, there, not_valid) refl
        | inl valid ↦
            let child_some : (pte2pa (load_word m (table kernel_end pt d m va + 8 * idx d va)) == 0)
                ≡ false =
              ground (arith, t.children d va (omega arith) some valid) in
            rw (at, there, valid) (rw child_some refl)
      ]

  leaf_table-zero :
      (m : Mem) (va : ℕ) → (table kernel_end pt 1 m va == 0) ≡ true → leaf_table m va ≡ 0
  unfolding table child
  leaf_table-zero m va none_there = rw none_there refl

  pub leaf-table :
      (m : Mem) (xs : List ℕ) (va : ℕ)
      → IsTables kernel_end pt m xs
      → leaf 2 m pt va ≡ (if leaf_table m va == 0 then 0 else leaf_table m va + 8 * idx 2 va)
  unfolding table
  leaf-table m xs va t =
      leaf-step 1 0 m xs va refl t t.root ∙ (elim (Bool-cases (table kernel_end pt 1 m va == 0)) [
        | inl none_there ↦ rw (none_there, leaf_table-zero m va none_there) refl
        | inr there ↦ rw there (
            leaf-step 0 1 m xs va refl t (λ z. ground arith)
            ∙ rw (leaf-zero m (leaf_table m va) va) refl)
      ])

  pub user_page_at-table :
      (m : Mem) (xs : List ℕ) (va : ℕ)
      → IsTables kernel_end pt m xs
      → user_page_at m pt va ≡ (
          if leb maxva va || (leaf_table m va == 0)
          then 0
          else user_page (load_word m (leaf_table m va + 8 * idx 2 va)))
  unfolding user_page_at
  user_page_at-table m xs va t = elim (Bool-cases (leaf_table m va == 0)) [
    | inl none_there ↦ rw (leaf-table m xs va t, none_there) (ground arith)
    | inr there ↦ rw (leaf-table m xs va t, there) (ground arith)
  ]
