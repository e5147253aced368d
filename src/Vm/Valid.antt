-- ===== src/Vm/Valid.antt =====
-- A well-formed kernel memory: a free list and one page table with disjoint pages; and the changes
-- of it that keep what is mapped.
use zerocopy_ringbuf.Common.{ℕ, ◌%◌, ◌≤◌, ◌≡◌, ◌≢◌, refl, ◌∙◌, List, [], ◌∷◌, false, ok, arith}
use mathlib.Core.Path.{subst}
use zerocopy_ringbuf.Paging.Laws.{Kept, Allocated}
use zerocopy_ringbuf.Kstring.{Mem}
use zerocopy_ringbuf.Kstring.Memory.{within}
use zerocopy_ringbuf.Words.{load_word}
use zerocopy_ringbuf.Kalloc.{Kmem, kalloc}
use zerocopy_ringbuf.Kalloc.FreeList.{has, IsPage, Chain, IsFree, kalloc-empty, kalloc-head}
use zerocopy_ringbuf.Vm.Walk.{user_page_at}
use zerocopy_ringbuf.Vm.Tables.{table, IsTables, Spares, table-Spares, IsTables-Spares}
use zerocopy_ringbuf.Vm.Translate.{user_page_at-Spares}

Chain-unique :
    (kernel_end : ℕ) (m : Mem) (head : ℕ) (xs ys : List ℕ)
    → Chain kernel_end m head xs
    → Chain kernel_end m head ys
    → xs ≡ ys
Chain-unique kernel_end m head [] [] c c' = refl
Chain-unique kernel_end m head [] (y ∷ ys) c c' = absurd (omega arith)
Chain-unique kernel_end m head (x ∷ xs) [] c c' = absurd (omega arith)
Chain-unique kernel_end m head (x ∷ xs) (y ∷ ys) c c' =
    let e : y ≡ x = omega arith in
    cc (
      Chain-unique kernel_end m (load_word m x) xs ys c.3
        (subst (λ a. Chain kernel_end m (load_word m a) ys) e c'.3))

pub has_unique :
    (kernel_end : ℕ) (k : Kmem) (xs : List ℕ) (p : ℕ)
    → IsFree kernel_end k xs
    → has p xs ≡ false
    → (ys : List ℕ) → IsFree kernel_end k ys
    → has p ys ≡ false
has_unique kernel_end k xs p f out ys g =
    subst (λ l. has p l ≡ false) (Chain-unique kernel_end k.mem k.freelist xs ys f.chain g.chain)
      out

module _ (kernel_end pt : ℕ) where
  -- What is mapped at a user address.
  abbrev pub tr : Kmem → ℕ → ℕ
  tr k va = user_page_at k.mem pt va

  pub record IsValid (k : Kmem) : Type 0 where
    pub free_list : List ℕ
    pub free : IsFree kernel_end k free_list
    pub tables : IsTables kernel_end pt k.mem free_list

  -- An allocated page that is not part of the page table.
  pub record IsData (k : Kmem) (p : ℕ) : Type 0 where
    pub page : IsPage kernel_end p
    pub taken : (xs : List ℕ) → IsFree kernel_end k xs → has p xs ≡ false
    pub no_table : (e w : ℕ) → e ≤ 2 → table kernel_end pt e k.mem w ≢ p

  pub Kept-trans :
      {k k' k'' : Kmem}
      → Kept tr IsValid IsData k k'
      → Kept tr IsValid IsData k' k''
      → Kept tr IsValid IsData k k''
  Kept-trans a b = record {
    valid = b.valid;
    same = λ va. b.same va ∙ a.same va;
    pages = λ p d. b.pages p (a.pages p d);
  }

  -- A change outside the tables that frees no page keeps everything.
  pub Spares-Kept :
      (k k' : Kmem) (v : IsValid k) (ys : List ℕ)
      → IsFree kernel_end k' ys
      → ((p : ℕ) → has p v.free_list ≡ false → has p ys ≡ false)
      → Spares kernel_end pt k.mem k'.mem
      → Kept tr IsValid IsData k k'
  Spares-Kept k k' v ys f fewer sp = record {
    valid = record { free_list = ys; free = f; tables = t' };
    same = λ va. user_page_at-Spares kernel_end pt k.mem k'.mem v.free_list ys v.tables t' va sp;
    pages = λ p data_page. record {
      page = data_page.page;
      taken = λ zs g.
          has_unique kernel_end k' ys p f (fewer p (data_page.taken v.free_list v.free)) zs g;
      no_table = λ e w le.
          rw (table-Spares kernel_end pt k.mem k'.mem e w (omega arith) sp)
            (data_page.no_table e w le);
    };
  }
    where
      t' : IsTables kernel_end pt k'.mem ys
      t' =
          IsTables-Spares kernel_end pt k.mem k'.mem v.free_list ys v.tables sp
            (λ d va le some. fewer (table kernel_end pt d k.mem va) (v.tables.page d va le some).1)

  -- Writing to a page that is no table spares the tables.
  pub Spares-page :
      (k : Kmem) (m' : Mem) (p : ℕ)
      → IsValid k
      → p % 4096 ≡ 0
      → ((e w : ℕ) → e ≤ 2 → table kernel_end pt e k.mem w ≢ 0 → table kernel_end pt e k.mem w ≢ p)
      → ((a : ℕ) → within p 4096 a ≡ false → m' a ≡ k.mem a)
      → Spares kernel_end pt k.mem m'
  Spares-page k m' p v al apart same d va a le some inside =
      same a (ground (arith, apart d va le some, (v.tables.page d va le some).0))

  -- kalloc keeps what is mapped, and gives a page that was free.
  pub kalloc-Allocated :
      (k : Kmem) (v : IsValid k)
      → (p : ℕ) × (k' : Kmem) × (kalloc k ≡ ok (p, k'))
        × Allocated tr IsValid IsData k p k'
        × Spares kernel_end pt k.mem k'.mem
  kalloc-Allocated k v = go v.free_list v.free v.tables
    where
      go :
          (xs : List ℕ)
          → IsFree kernel_end k xs
          → IsTables kernel_end pt k.mem xs
          → (p : ℕ) × (k' : Kmem) × (kalloc k ≡ ok (p, k'))
            × Allocated tr IsValid IsData k p k'
            × Spares kernel_end pt k.mem k'.mem
      go [] f t = (
        0,
        k,
        kalloc-empty kernel_end k f,
        record {
          kept = record { valid = v; same = λ va. refl; pages = λ p d. d };
          page = λ some. absurd (some refl);
          fresh = λ some. absurd (some refl);
        },
        λ d va a le some w. refl,
      )
      go (x ∷ xs) f t =
          let (k', run, f', bytes) = kalloc-head kernel_end k x xs f in
          let whole : IsValid k = record { free_list = x ∷ xs; free = f; tables = t } in
          let sp : Spares kernel_end pt k.mem k'.mem =
            Spares-page k k'.mem x whole f.chain.1.1
              (λ e w le some. ground (arith, (t.page e w le some).1))
              (λ a w. ground (arith, bytes a)) in
          let root_ne : (e w : ℕ) → e ≤ 2 → table kernel_end pt e k.mem w ≢ x =
            λ e w le q. absurd (ground (arith, t.page e w le (λ z. ground (arith, f.chain)))) in
          (
            x,
            k',
            run,
            record {
              kept = Spares-Kept k k' whole xs f' (λ p out. ground arith) sp;
              page = λ some. record {
                page = f.chain.1;
                taken = λ ys g. has_unique kernel_end k' xs x f' f.chain.2 ys g;
                no_table = λ e w le.
                    rw (table-Spares kernel_end pt k.mem k'.mem e w (omega arith) sp)
                      (root_ne e w le);
              };
              fresh = λ some d. ground (arith, d.taken (x ∷ xs) f);
            },
            sp,
          )
