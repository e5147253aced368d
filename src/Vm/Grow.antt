-- ===== src/Vm/Grow.antt =====
-- walk with `alloc`: it adds the tables that are missing on the way to an address, and keeps what is
-- mapped.
use zerocopy_ringbuf.Common.{
  ℕ, suc, ◌+◌, ◌*◌, ◌<◌, ◌≡◌, ◌≢◌, refl, sym, ◌∙◌, Option, none, some, true, false, ◌==◌, ok, arith,
  Bool-cases, inl, inr, ◌>>=◌,
}
use mathlib.Core.Path.{subst}
use zerocopy_ringbuf.Paging.Laws.{Kept}
use zerocopy_ringbuf.Kstring.{Mem, memset}
use zerocopy_ringbuf.Kstring.Memory.{within, memset-at}
use zerocopy_ringbuf.Words.{load_word, store_word, load_word-zero, store_word-outside}
use zerocopy_ringbuf.Kalloc.{Kmem}
use zerocopy_ringbuf.Kalloc.FreeList.{has, IsFree, Chain-frame}
use zerocopy_ringbuf.Vm.{pte_v, entry, new_table}
use zerocopy_ringbuf.Vm.Tables.{
  idx, idx-lt, Same-refl, Spares, Spares-trans, table, table-Spares, load-Spares,
}
use zerocopy_ringbuf.Vm.Link.{linked, table_linked, placed, linked-IsTables}
use zerocopy_ringbuf.Vm.Linked.{user_page_at-linked}
use zerocopy_ringbuf.Vm.Valid.{
  tr, IsValid, IsData, has_unique, Spares-Kept, Spares-page, kalloc-Allocated,
}

module _ (kernel_end pt : ℕ) where
  abbrev tbl : ℕ → Mem → ℕ → ℕ
  tbl = table kernel_end pt

  -- Writing to an allocated page keeps everything.
  pub page_write-Kept :
      (k : Kmem) (m' : Mem) (p : ℕ)
      → IsValid kernel_end pt k
      → IsData kernel_end pt k p
      → ((a : ℕ) → within p 4096 a ≡ false → m' a ≡ k.mem a)
      → Kept
          (tr kernel_end pt)
          (IsValid kernel_end pt)
          (IsData kernel_end pt)
          k
          (record k { mem = m' })
        × Spares kernel_end pt k.mem m'
  page_write-Kept k m' p v d same =
      let sp : Spares kernel_end pt k.mem m' =
        Spares-page kernel_end pt k m' p v d.page.1 (λ e w le some. d.no_table e w le) same in
      (
        Spares-Kept kernel_end pt k (record k { mem = m' }) v v.free_list
            (record {
              unlocked = v.free.unlocked;
              chain =
                  Chain-frame kernel_end k.mem m' k.freelist p v.free_list d.page.1
                    (d.taken v.free_list v.free) same v.free.chain;
            })
            (λ q out. out) sp,
        sp,
      )

  -- What is known where a table is missing below depth `d`.
  module _ (k : Kmem) (v : IsValid kernel_end pt k) (d va : ℕ) (low : d < 2)
      (some_table : tbl d k.mem va ≢ 0)
      (free_entry : pte_v (load_word k.mem (tbl d k.mem va + 8 * idx d va)) ≡ false) where
    -- Linking an allocated page of zeros.
    link-Kept :
        (p : ℕ)
        → IsData kernel_end pt k p
        → ((i : ℕ) → i < 512 → load_word k.mem (p + 8 * i) ≡ 0)
        → (m' : Mem) × (m' ≡ store_word k.mem (tbl d k.mem va + 8 * idx d va) (entry p 0))
          × IsValid kernel_end pt (record k { mem = m' })
          × ((w : ℕ) → tr kernel_end pt (record k { mem = m' }) w ≡ tr kernel_end pt k w)
          × ((q : ℕ)
              → q ≢ p
              → IsData kernel_end pt k q
              → IsData kernel_end pt (record k { mem = m' }) q)
          × (tbl (suc d) m' va ≡ p)
    link-Kept p dp zeros =
        let t = v.tables in
        let out : has p v.free_list ≡ false = dp.taken v.free_list v.free in
        let m' : Mem =
          linked kernel_end pt k.mem v.free_list t d va p low some_table free_entry dp.page out
            dp.no_table zeros in
        let f' : IsFree kernel_end (record k { mem = m' }) v.free_list = record {
          unlocked = v.free.unlocked;
          chain =
              Chain-frame kernel_end k.mem m' k.freelist (tbl d k.mem va) v.free_list
                (t.page d va (omega arith) some_table).0.1 (t.page d va (omega arith) some_table).1
                (λ a w.
                  store_word-outside k.mem (tbl d k.mem va + 8 * idx d va) (entry p 0) a
                    (ground (arith, idx-lt d va)))
                v.free.chain;
        } in
        (
          m',
          refl,
          record {
            free_list = v.free_list;
            free = f';
            tables =
                linked-IsTables kernel_end pt k.mem v.free_list t d va p low some_table free_entry
                  dp.page out dp.no_table zeros;
          },
          user_page_at-linked kernel_end pt k.mem v.free_list t d va p low some_table free_entry
              dp.page out dp.no_table zeros,
          λ q ne dq. record {
            page = dq.page;
            taken =
                has_unique kernel_end (record k { mem = m' }) v.free_list q f'
                  (dq.taken v.free_list v.free);
            no_table = λ e w le.
                elim (placed kernel_end pt k.mem v.free_list t d va p low some_table free_entry
                  dp.page out dp.no_table zeros e w le) [
                    | inl (_, _, here) ↦ λ z. ne (sym z ∙ here)
                    | inr kept ↦ rw kept (dq.no_table e w le)
                  ];
          },
          table_linked kernel_end pt k.mem v.free_list t d va p low some_table free_entry dp.page
              out dp.no_table zeros va (Same-refl (suc d) va),
        )

  -- What `new_table` made of the table of depth `d + 1` for an address.
  abbrev pub Made : ℕ → ℕ → Option ℕ → Kmem → Type 0
  Made d va none k' = Unit
  Made d va (some p) k' = (p ≢ 0) × (tbl (suc d) k'.mem va ≡ p)

  module _ (k : Kmem) (v : IsValid kernel_end pt k) (d va : ℕ) (low : d < 2)
      (some_table : tbl d k.mem va ≢ 0)
      (free_entry : pte_v (load_word k.mem (tbl d k.mem va + 8 * idx d va)) ≡ false) where
    pub new_table-Kept :
        (made : Option ℕ) × (k' : Kmem) × (new_table (tbl d k.mem va + 8 * idx d va) true k
          ≡ ok (made, k'))
        × Kept (tr kernel_end pt) (IsValid kernel_end pt) (IsData kernel_end pt) k k'
        × Made d va made k'
    unfolding new_table
    new_table-Kept =
        let (p, k1, run, a, sp1) = kalloc-Allocated kernel_end pt k v in
        elim (Bool-cases (p == 0)) [
          | inl out_of_pages ↦
              (none, k1, rw (run, ◌>>=◌) (rw (out_of_pages, ◌>>=◌) refl), a.kept, tt)
          | inr there ↦
              let dp1 = a.page (ground arith) in
              let m2 : Mem = memset k1.mem p 0 4096 in
              let (kept2, sp2) =
                page_write-Kept k1 m2 p a.kept.valid dp1
                  (λ b w. ground (arith, memset-at k1.mem p 0 4096 b)) in
              let k2 : Kmem = record k1 { mem = m2 } in
              let sp = Spares-trans kernel_end pt k.mem k1.mem m2 sp1 sp2 in
              let e : tbl d m2 va ≡ tbl d k.mem va =
                table-Spares kernel_end pt k.mem m2 d va (omega arith) sp in
              let same_word =
                load-Spares kernel_end pt k.mem m2 d va (idx d va) (omega arith) sp some_table
                  (idx-lt d va) in
              let (m3, stored, valid, same, pages, at) =
                link-Kept k2 kept2.valid d va low (rw e some_table) (rw e (rw same_word free_entry))
                  p (kept2.pages p dp1)
                  (λ i lt.
                    load_word-zero m2 (p + 8 * i)
                      (λ b w. ground (arith, memset-at k1.mem p 0 4096 b))) in
              (
                some p,
                record k1 { mem = m3 },
                rw (run, ◌>>=◌) (rw (there, ◌>>=◌) (rw (stored, e) refl)),
                record {
                  valid = valid;
                  same = λ w. same w ∙ kept2.same w ∙ a.kept.same w;
                  pages = λ q dq.
                      pages q (λ z. a.fresh (ground arith) (subst (IsData kernel_end pt k) z dq))
                        (kept2.pages q (a.kept.pages q dq));
                },
                (λ z. ground arith, at),
              )
        ]
