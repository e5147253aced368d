-- ===== src/Vm/Map.antt =====
-- mappages of kernel/vm.c for one page: the page is mapped, and every other is mapped as before.
use zerocopy_ringbuf.Common.{
  ℕ, zero, suc, ◌+◌, ◌*◌, ◌≡◌, ◌≢◌, refl, sym, ap, ◌∙◌, Option, none, some, true, false, ◌==◌, ok,
  pure, Cmd, arith, Bool-cases, inl, inr, ◌>>=◌, Outcome,
}
use mathlib.Core.Path.{subst}
use zerocopy_ringbuf.Paging.Laws.{Kept}
use zerocopy_ringbuf.Words.{load_word}
use zerocopy_ringbuf.Kalloc.{Kmem}
use zerocopy_ringbuf.Vm.{pte_v, pte2pa, pte_addr, new_table, walk_from}
use zerocopy_ringbuf.Vm.Tables.{idx, table, child}
use zerocopy_ringbuf.Vm.Lookup.{level-idx}
use zerocopy_ringbuf.Vm.Valid.{tr, IsValid, IsData, Kept-trans}
use zerocopy_ringbuf.Vm.Grow.{Made, new_table-Kept}

px-idx : (u va : ℕ) → pte_addr u 0 va ≡ u + 8 * idx 2 va
unfolding idx
px-idx u va = refl

-- What `walk_from` does with the result of `new_table`.
abbrev walk_on : ℕ → ℕ → Option ℕ → Kmem → Outcome (ℕ × Kmem)
walk_on level va none k = ok (0, k)
walk_on level va (some p) k = walk_from level p va true k

walk_from-end : (u va : ℕ) (k : Kmem) → walk_from 0 u va true k ≡ ok (pte_addr u 0 va, k)
unfolding walk_from
walk_from-end u va k = refl

walk_from-valid :
    (level u va a : ℕ) (k : Kmem)
    → pte_addr u (suc level) va ≡ a
    → pte_v (load_word k.mem a) ≡ true
    → walk_from (suc level) u va true k ≡ walk_from level (pte2pa (load_word k.mem a)) va true k
unfolding walk_from
walk_from-valid level u va a k e valid =
    subst
      (λ b.
        pte_v (load_word k.mem b) ≡ true
        → walk_from (suc level) u va true k
          ≡ walk_from level (pte2pa (load_word k.mem b)) va true k)
      e (λ v. rw (v, ◌>>=◌) refl) valid

walk_from-missing :
    (level u va a : ℕ) (k : Kmem) (made : Option ℕ) (k1 : Kmem)
    → pte_addr u (suc level) va ≡ a
    → pte_v (load_word k.mem a) ≡ false
    → new_table a true k ≡ ok (made, k1)
    → walk_from (suc level) u va true k ≡ walk_on level va made k1
unfolding walk_from
walk_from-missing level u va a k made k1 e missing run =
    subst
      (λ b.
        pte_v (load_word k.mem b) ≡ false
        → new_table b true k ≡ ok (made, k1)
        → walk_from (suc level) u va true k ≡ walk_on level va made k1)
      e (λ v r. rw (v, ◌>>=◌) (rw (r, ◌>>=◌) (continues made))) missing run
  where
    continues :
        (made : Option ℕ)
        → (let rest : Cmd Kmem ℕ = elim made [
          | none ↦ pure 0
          | some p ↦ walk_from level p va true
        ] in
            rest k1)
          ≡ walk_on level va made k1
    continues none = refl
    continues (some p) = refl

module _ (kernel_end pt : ℕ) where
  -- The entry that `walk` found: that of the address in a table of depth 2, or none.
  abbrev pub Found : ℕ → ℕ → Kmem → Type 0
  Found va at k =
      at ≢ 0
      → (table kernel_end pt 2 k.mem va ≢ 0) × (at ≡ table kernel_end pt 2 k.mem va + 8 * idx 2 va)

  table-child :
      (d va : ℕ) (k : Kmem) (u : ℕ)
      → table kernel_end pt d k.mem va ≡ u
      → u ≢ 0
      → pte_v (load_word k.mem (u + 8 * idx d va)) ≡ true
      → table kernel_end pt (suc d) k.mem va ≡ pte2pa (load_word k.mem (u + 8 * idx d va))
  unfolding table child
  table-child d va k u e some_table valid =
      let there : (u == 0) ≡ false = ground (arith, some_table) in rw (e, there, valid) refl

  -- What `walk_from` comes to on every run.
  abbrev pub Walks : ℕ → ℕ → Kmem → Outcome (ℕ × Kmem) → Type 0
  Walks va u k run =
      (at : ℕ) × (k' : Kmem) × (run ≡ ok (at, k'))
      × Kept (tr kernel_end pt) (IsValid kernel_end pt) (IsData kernel_end pt) k k'
      × Found va at k'

  -- Behind `new_table`.
  after_new :
      (level d va : ℕ) (k k1 : Kmem) (u : ℕ) (made : Option ℕ)
      → Kept (tr kernel_end pt) (IsValid kernel_end pt) (IsData kernel_end pt) k k1
      → Made kernel_end pt d va made k1
      → ((u' : ℕ)
          → table kernel_end pt (suc d) k1.mem va ≡ u'
          → u' ≢ 0
          → Walks va u' k1 (walk_from level u' va true k1))
      → Walks va u k (walk_on level va made k1)
  after_new level d va k k1 u none kept is_made go_on = (0, k1, refl, kept, λ z. absurd (z refl))
  after_new level d va k k1 u (some p) kept is_made go_on =
      let (at, k', run, more, found) = go_on p is_made.1 is_made.0 in
      (at, k', run, Kept-trans kernel_end pt kept more, found)

  pub walk_from-Kept :
      (level d va : ℕ) (k : Kmem) (u : ℕ)
      → level + d ≡ 2
      → IsValid kernel_end pt k
      → table kernel_end pt d k.mem va ≡ u
      → u ≢ 0
      → Walks va u k (walk_from level u va true k)
  walk_from-Kept zero d va k u depth v e some_table =
      let two : d ≡ 2 = omega arith in
      let e' = ap (λ c. table kernel_end pt c k.mem va) (sym two) ∙ e in
      (
        pte_addr u 0 va,
        k,
        walk_from-end u va k,
        record { valid = v; same = λ w. refl; pages = λ p dp. dp },
        λ _. (rw e' some_table, rw e' (px-idx u va)),
      )
  walk_from-Kept (suc level) d va k u depth v e some_table =
      let slot : pte_addr u (suc level) va ≡ u + 8 * idx d va =
        ap (λ i. u + 8 * i) (level-idx level d va depth) in
      elim (Bool-cases (pte_v (load_word k.mem (u + 8 * idx d va)))) [
        | inl valid ↦
            let (at, k', run, kept, found) =
              walk_from-Kept level (suc d) va k (pte2pa (load_word k.mem (u + 8 * idx d va)))
                (omega arith) v (table-child d va k u e some_table valid)
                (rw e at (v.tables.children d va (omega arith)) some_table valid) in
            (at, k', walk_from-valid level u va (u + 8 * idx d va) k slot valid ∙ run, kept, found)
        | inr missing ↦
            let (made, k1, run, kept, is_made) =
              new_table-Kept kernel_end pt k v d va (omega arith) (rw e some_table)
                (rw e missing) in
            let (at, k', rest, all, found) =
              after_new level d va k k1 u made kept is_made (λ u' e1 some1.
                walk_from-Kept level (suc d) va k1 u' (omega arith) kept.valid e1 some1) in
            (
              at,
              k',
              walk_from-missing level u va (u + 8 * idx d va) k made k1 slot missing (rw e at run)
                  ∙ rest,
              all,
              found,
            )
      ]
