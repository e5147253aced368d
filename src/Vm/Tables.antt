-- ===== src/Vm/Tables.antt =====
-- The page-table pages below a root, by depth: what a well-formed three-level table is, and that
-- writing elsewhere leaves it alone.
use zerocopy_ringbuf.Common.{
  ℕ, zero, suc, ◌+◌, ◌-◌, ◌*◌, ◌%◌, ◌≤◌, ◌<◌, ◌≡◌, ◌≢◌, ◌⊎◌, refl, sym, ◌∙◌, List, true, false,
  ◌==◌, if◌then◌else◌, arith, Bool-cases, inl, inr,
}
use zerocopy_ringbuf.Kstring.{Mem}
use zerocopy_ringbuf.Kstring.Memory.{within}
use zerocopy_ringbuf.Words.{load_word, load_word-same}
use zerocopy_ringbuf.Kalloc.FreeList.{has, IsPage}
use zerocopy_ringbuf.Vm.{px, pte_v, pte2pa}

-- The index that an address has in a table of depth `d`; the root has depth 0.
unfoldable pub idx : ℕ → ℕ → ℕ
idx d va = px (2 - d) va

pub idx-lt : (d va : ℕ) → idx d va < 512
unfolding idx
idx-lt d va = omega arith

-- The table that entry `i` of table `t` points to, or 0.
unfoldable pub child : Mem → ℕ → ℕ → ℕ
child m t i =
    if t == 0
    then 0
    else if pte_v (load_word m (t + 8 * i))
    then pte2pa (load_word m (t + 8 * i))
    else 0

-- The two addresses go through the same entries above depth `d`.
abbrev pub Same : ℕ → ℕ → ℕ → Type 0
Same zero va w = Unit {0}
Same (suc d) va w = Same d va w × (idx d va ≡ idx d w)

pub Same-dec : (d va w : ℕ) → Same d va w ⊎ (Same d va w → ⊥)
Same-dec zero va w = inl tt
Same-dec (suc d) va w = elim (Same-dec d va w) [
  | inl s ↦ elim (Bool-cases (idx d va == idx d w)) [
    | inl e ↦ inl (s, ground arith)
    | inr n ↦ inr (λ q. ground (arith, q.1))
  ]
  | inr n ↦ inr (λ q. n q.0)
]

pub Same-refl : (d va : ℕ) → Same d va va
Same-refl zero va = tt
Same-refl (suc d) va = (Same-refl d va, refl)

pub Same-sym : (d va w : ℕ) → Same d va w → Same d w va
Same-sym zero va w s = tt
Same-sym (suc d) va w s = (Same-sym d va w s.0, sym s.1)

pub Same-trans : (d u v w : ℕ) → Same d u v → Same d v w → Same d u w
Same-trans zero u v w s t = tt
Same-trans (suc d) u v w s t = (Same-trans d u v w s.0 t.0, s.1 ∙ t.1)

pub slots_apart :
    (t u i j : ℕ)
    → t % 4096 ≡ 0
    → u % 4096 ≡ 0
    → i < 512
    → j < 512
    → ((t ≡ u) → i ≢ j)
    → (t + 8 * i + 8 ≤ u + 8 * j) ⊎ (u + 8 * j + 8 ≤ t + 8 * i)
slots_apart t u i j at au it jt ne = ground arith

module _ (kernel_end pt : ℕ) where
  -- The table of depth `d` for an address, or 0.
  unfoldable pub table : ℕ → Mem → ℕ → ℕ
  table zero m va = pt
  table (suc d) m va = child m (table d m va) (idx d va)

  pub table-Same : (d : ℕ) (m : Mem) (va w : ℕ) → Same d va w → table d m va ≡ table d m w
  unfolding table
  table-Same zero m va w s = refl
  table-Same (suc d) m va w s = rw (table-Same d m va w s.0, s.1) refl

  -- Every table is a page of its own that is not free, and has one place in the tree.
  pub record IsTables (m : Mem) (xs : List ℕ) : Type 0 where
    pub root : pt ≢ 0
    pub page :
        (d va : ℕ)
        → d ≤ 2
        → table d m va ≢ 0
        → IsPage kernel_end (table d m va) × (has (table d m va) xs ≡ false)
    pub unique :
        (d e va w : ℕ)
        → d ≤ 2
        → e ≤ 2
        → table d m va ≢ 0
        → table d m va ≡ table e m w
        → (d ≡ e) × Same d va w
    pub children :
        (d va : ℕ)
        → d < 2
        → table d m va ≢ 0
        → pte_v (load_word m (table d m va + 8 * idx d va)) ≡ true
        → pte2pa (load_word m (table d m va + 8 * idx d va)) ≢ 0

  -- `m'` agrees with `m` on the tables of `m`.
  abbrev pub Spares : Mem → Mem → Type 0
  Spares m m' =
      (d va a : ℕ) → d ≤ 2 → table d m va ≢ 0 → within (table d m va) 4096 a ≡ true → m' a ≡ m a

  pub load-Spares :
      (m m' : Mem) (d va i : ℕ)
      → d ≤ 2
      → Spares m m'
      → table d m va ≢ 0
      → i < 512
      → load_word m' (table d m va + 8 * i) ≡ load_word m (table d m va + 8 * i)
  load-Spares m m' d va i le sp some lt =
      load_word-same m' m (table d m va + 8 * i) (λ b w. sp d va b le some (ground arith))

  pub table-Spares : (m m' : Mem) (d va : ℕ) → d ≤ 3 → Spares m m' → table d m' va ≡ table d m va
  unfolding table child
  table-Spares m m' zero va le sp = refl
  table-Spares m m' (suc d) va le sp =
      rw (table-Spares m m' d va (omega arith) sp) (elim (Bool-cases (table d m va == 0)) [
        | inl none_there ↦ rw none_there refl
        | inr there ↦
            rw (load-Spares m m' d va (idx d va) (omega arith) sp (ground arith) (idx-lt d va)) refl
      ])

  pub Spares-trans : (m m1 m2 : Mem) → Spares m m1 → Spares m1 m2 → Spares m m2
  Spares-trans m m1 m2 sp sp' d va a le some inside =
      let e = table-Spares m m1 d va (omega arith) sp in
      sp' d va a le (rw e some) (rw e inside) ∙ sp d va a le some inside

  pub IsTables-Spares :
      (m m' : Mem) (xs ys : List ℕ)
      → IsTables m xs
      → Spares m m'
      → ((d va : ℕ) → d ≤ 2 → table d m va ≢ 0 → has (table d m va) ys ≡ false)
      → IsTables m' ys
  IsTables-Spares m m' xs ys t sp out = record {
    root = t.root;
    page = λ d va le.
        rw (table-Spares m m' d va (omega arith) sp)
          (λ some. ((t.page d va le some).0, out d va le some));
    unique = λ d e va w le le'.
        rw (table-Spares m m' d va (omega arith) sp, table-Spares m m' e w (omega arith) sp)
          (t.unique d e va w le le');
    children = λ d va lt. rw (table-Spares m m' d va (omega arith) sp) (λ some.
        rw (load-Spares m m' d va (idx d va) (omega arith) sp some (idx-lt d va))
          (t.children d va lt some));
  }
