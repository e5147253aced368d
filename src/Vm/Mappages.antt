-- ===== src/Vm/Mappages.antt =====
-- mappages of kernel/vm.c on one user page: it is mapped, and every other is mapped as before.
use zerocopy_ringbuf.Common.{
  ℕ, ◌+◌, ◌*◌, ◌%◌, ◌/◌, ◌^◌, ◌≤◌, ◌<◌, ◌≡◌, ◌≢◌, refl, sym, ◌∙◌, List, true, false, ◌==◌, leb,
  is_zero, add64, sub64, arith, Bool-cases, inl, inr, ◌>>=◌, Ensures,
}
use zerocopy_ringbuf.Paging.Laws.{Kept, Mapped}
use zerocopy_ringbuf.Words.{load_word, store_word, store_word-outside}
use zerocopy_ringbuf.Kalloc.{Kmem}
use zerocopy_ringbuf.Kalloc.FreeList.{IsFree, Chain-frame}
use zerocopy_ringbuf.Vm.{
  maxva, pg_round_down, pte_v, entry, walk_from, walk, map_page, mappages, map_from,
}
use zerocopy_ringbuf.Vm.Walk.{user_page_at}
use zerocopy_ringbuf.Vm.Tables.{idx, idx-lt, Same, table, IsTables}
use zerocopy_ringbuf.Vm.Lookup.{user_page}
use zerocopy_ringbuf.Vm.Translate.{
  table_written, written-IsTables, user_page_at-written_self, user_page_at-written_other,
}
use zerocopy_ringbuf.Vm.Valid.{tr, IsValid, IsData, has_unique}
use zerocopy_ringbuf.Vm.Map.{walk_from-Kept}

-- The indices of an address below `maxva` are those of its page only.
Same-page : (va w : ℕ) → va < maxva → w < maxva → Same 3 va w → w / 4096 ≡ va / 4096
unfolding idx
Same-page va w lv lw s = omega (arith, s.0.0.1, s.0.1, s.1)

user_page_at-high : (m : ℕ → ℕ) (pt w : ℕ) → maxva ≤ w → user_page_at m pt w ≡ 0
unfolding user_page_at
user_page_at-high m pt w h = ground arith

table-root : (kernel_end pt : ℕ) (k : Kmem) (va : ℕ) → table kernel_end pt 0 k.mem va ≡ pt
unfolding table
table-root kernel_end pt k va = refl

walk-low : (pt va : ℕ) (k : Kmem) → va < maxva → walk pt va true k ≡ walk_from 2 pt va true k
unfolding walk
walk-low pt va k h = let low : leb maxva va ≡ false = ground arith in rw low refl

-- Storing the entry for a page of data.
module _ (kernel_end pt va pa : ℕ) (low : va < maxva) (k k' : Kmem)
    (kept : Kept (tr kernel_end pt) (IsValid kernel_end pt) (IsData kernel_end pt) k k')
    (d : IsData kernel_end pt k pa) (some_table : table kernel_end pt 2 k'.mem va ≢ 0) where
  abbrev xs : List ℕ
  xs = kept.valid.free_list

  abbrev t : IsTables kernel_end pt k'.mem xs
  t = kept.valid.tables

  abbrev v : ℕ
  v = entry pa 30

  word : v < 2 ^ 64
  word = omega (arith, d.page)

  abbrev k'' : Kmem
  k'' = record k' { mem = store_word k'.mem (table kernel_end pt 2 k'.mem va + 8 * idx 2 va) v }

  t' : IsTables kernel_end pt k''.mem xs
  t' = written-IsTables kernel_end pt k'.mem xs t va v word some_table

  f' : IsFree kernel_end k'' xs
  f' =
      let home = t.page 2 va (omega arith) some_table in
      record {
        unlocked = kept.valid.free.unlocked;
        chain =
            Chain-frame kernel_end k'.mem k''.mem k'.freelist (table kernel_end pt 2 k'.mem va) xs
              home.0.1 home.1
              (λ a w.
                store_word-outside k'.mem (table kernel_end pt 2 k'.mem va + 8 * idx 2 va) v a
                  (ground (arith, idx-lt 2 va)))
              kept.valid.free.chain;
      }

  gives_page : user_page v ≡ pa
  gives_page = ground (arith, d.page)

  entry-Mapped :
      Mapped (tr kernel_end pt) (IsValid kernel_end pt) (IsData kernel_end pt) k va pa k''
  entry-Mapped = record {
    valid = record { free_list = xs; free = f'; tables = t' };
    pages = λ p dp.
        let dq = kept.pages p dp in
        record {
          page = dq.page;
          taken = has_unique kernel_end k'' xs p f' (dq.taken xs kept.valid.free);
          no_table = λ e w le.
              rw (table_written kernel_end pt k'.mem xs t va v word some_table e w le)
                (dq.no_table e w le);
        };
    here =
        user_page_at-written_self kernel_end pt k'.mem xs t va v word some_table low ∙ gives_page;
    others = λ w ne. elim (Bool-cases (leb maxva w)) [
      | inl high ↦
          user_page_at-high k''.mem pt w (ground arith)
          ∙ sym (user_page_at-high k.mem pt w (ground arith))
      | inr in_range ↦
          user_page_at-written_other kernel_end pt k'.mem xs t va v word some_table w
            (λ s. ne (Same-page va w low (ground arith) s))
          ∙ kept.same w
    ];
  }

mappages-one :
    (pt va pa : ℕ) (k : Kmem)
    → va % 4096 ≡ 0
    → va < maxva
    → mappages pt va 4096 pa 30 k ≡ map_page pt va pa 30 k
unfolding mappages map_from
mappages-one pt va pa k al low =
    let first : pg_round_down va ≡ va = omega arith in
    let none_left : sub64 (pg_round_down (sub64 (add64 va 4096) 1)) va / 4096 ≡ 0 = omega arith in
    rw first (rw none_left refl)

module _ (kernel_end pt va pa : ℕ) (low : va < maxva) where
  -- map_page on a well-formed memory returns or panics; where it returns 0, the page is mapped.
  pub map_page-Mapped :
      (k : Kmem)
      → IsValid kernel_end pt k
      → IsData kernel_end pt k pa
      → Ensures
          (λ rc k'.
            is_zero rc ≡ true
            → Mapped (tr kernel_end pt) (IsValid kernel_end pt) (IsData kernel_end pt) k va pa k')
          (map_page pt va pa 30 k)
  unfolding map_page
  map_page-Mapped k v d =
      let (at, k', run, kept, found) =
        walk_from-Kept kernel_end pt 2 0 va k pt refl v (table-root kernel_end pt k va)
          v.tables.root in
      elim (Bool-cases (at == 0)) [
        | inl none_there ↦
            rw (walk-low pt va k low ∙ run, ◌>>=◌) (rw (none_there, ◌>>=◌) (λ z. absurd (cc)))
        | inr there ↦
            let (some_table, e) = found (λ z. ground arith) in
            rw (walk-low pt va k low ∙ run, ◌>>=◌)
              (rw (there, ◌>>=◌)
                (elim (Bool-cases (pte_v (load_word k'.mem at))) [
                  | inl in_use ↦ rw (in_use, ◌>>=◌) tt
                  | inr unused ↦
                      rw (unused, ◌>>=◌)
                        (λ z. rw e (entry-Mapped kernel_end pt va pa low k k' kept d some_table))
                ]))
      ]

  -- So does mappages for a size of one page.
  pub mappages-Mapped :
      (k : Kmem)
      → va % 4096 ≡ 0
      → IsValid kernel_end pt k
      → IsData kernel_end pt k pa
      → Ensures
          (λ rc k'.
            is_zero rc ≡ true
            → Mapped (tr kernel_end pt) (IsValid kernel_end pt) (IsData kernel_end pt) k va pa k')
          (mappages pt va 4096 pa 30 k)
  mappages-Mapped k al v d = rw (mappages-one pt va pa k al low) (map_page-Mapped k v d)
