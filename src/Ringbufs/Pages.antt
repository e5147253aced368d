-- ===== src/Ringbufs/Pages.antt =====
-- kernel/ringbuf.c: the functions that choose and map the pages of a ring buffer.
use zerocopy_ringbuf.Common.{
  ℕ, zero, suc, ◌+◌, ◌-◌, ◌*◌, ◌%◌, ◌/◌, ◌^◌, true, false, Option, none, some, ℤ, is_zero, is_neg,
  success, failure, sub64, ltb, ◌==◌, if◌then◌else◌, Cmd, pure, ◌>>=◌, ◌>>◌,
}
use zerocopy_ringbuf.Paging.{Paging}
use zerocopy_ringbuf.Ringbufs.{Ringbuf, ringbuf_size, pgsize}

abbrev pub maxva : ℕ
maxva = 2 ^ 38

abbrev pub kernbase : ℕ
kernbase = 0x8000_0000

abbrev pub pg_round_up : ℕ → ℕ
pg_round_up sz = (sz + pgsize - 1) / pgsize * pgsize

-- PTE_R | PTE_W | PTE_X | PTE_U
abbrev pub user_page : ℕ
user_page = 30

-- Where the search starts, and the number of pages between `kernbase` and there.
abbrev pub top_va : ℕ
top_va = pg_round_up (maxva - pgsize - pgsize - pgsize)

abbrev pub search_pages : ℕ
search_pages = (top_va - kernbase) / pgsize

-- The page at `n` pages above `kernbase`.
abbrev pub page_va : ℕ → ℕ
page_va n = kernbase + n * pgsize

-- 1 guard page, 2 * 16 pages of the buffer and 1 book page.
abbrev pub num_pages : ℕ
num_pages = 34

-- `va = base_va - i * PGSIZE`
abbrev pub va_at : ℕ → ℕ → ℕ
va_at base i = sub64 base (i * pgsize)

module _ {S : Type 0} (vm : Paging S) where
  open vm use {kalloc, kfree, memset, walkaddr, mappages, uvmdealloc, copyout}

  -- The loop of `find_contiguous_pages` from `page_va n` down, with `count` pages found and the base
  -- at `base`.
  unfoldable pub search : ℕ → ℕ → ℕ → ℕ → ℕ → Cmd S (ℤ × ℕ)
  search pt num zero count base = pure (failure, base)
  search pt num (suc n) count base = do
    pa ← walkaddr pt (page_va (suc n))
    elim (pa == 0) [
      | true ↦ elim (count + 1 == num) [
        | true ↦ pure (success, base)
        | false ↦ search pt num n (count + 1) base
      ]
      | false ↦ search pt num n 0 (page_va (suc n))
    ]

  unfoldable pub find_contiguous_pages : ℕ → ℕ → Cmd S (ℤ × ℕ)
  find_contiguous_pages pt num = search pt num search_pages 0 top_va

  -- The ways out of the mapping functions: with no page, and with a page that was not mapped.
  unfoldable pub no_page : ℕ → ℕ → Ringbuf → Cmd S (ℤ × Ringbuf)
  no_page pt va rb = do _ ← uvmdealloc pt va pgsize; pure (failure, rb)

  unfoldable pub give_up : ℕ → ℕ → ℕ → Ringbuf → Cmd S (ℤ × Ringbuf)
  give_up pt pa va rb = do kfree pa; _ ← uvmdealloc pt va pgsize; pure (failure, rb)

  -- `mappage_to_book` where the page is new, and where the ring has one.
  unfoldable pub new_book : ℕ → Ringbuf → ℕ → Cmd S (ℤ × Ringbuf)
  unfolding no_page give_up
  new_book pt rb va = do
    mem ← kalloc
    elim (mem == 0) [
      | true ↦ no_page pt va rb
      | false ↦ do
        memset mem 0 pgsize
        rc ← mappages pt va pgsize mem user_page
        elim (is_zero rc) [
          | true ↦ pure (success, record rb { book = mem })
          | false ↦ give_up pt mem va rb
        ]
    ]

  unfoldable pub old_book : ℕ → Ringbuf → ℕ → Cmd S (ℤ × Ringbuf)
  unfolding give_up
  old_book pt rb va = do
    rc ← mappages pt va pgsize rb.book user_page
    elim (is_zero rc) [ true ↦ pure (success, rb) | false ↦ give_up pt rb.book va rb ]

  unfoldable pub mappage_to_book : ℕ → Ringbuf → ℕ → Cmd S (ℤ × Ringbuf)
  unfolding new_book old_book
  mappage_to_book pt rb va = if is_zero rb.refcount then new_book pt rb va else old_book pt rb va

  -- The physical page for round `i` of the first mapping: a new one, zeroed and stored in `buf`, in
  -- the first 16 rounds, and then `buf[i % 16]` again. `none` is a failed `kalloc`.
  unfoldable pub page_for : Ringbuf → ℕ → Cmd S (Option (ℕ × Ringbuf))
  page_for rb i =
      if ltb i ringbuf_size
      then (do
        mem ← kalloc
        elim (mem == 0) [
          | true ↦ pure none
          | false ↦ do
            memset mem 0 pgsize
            pure (some (mem, record rb { buf = λ j. if j == i then mem else rb.buf j }))
        ])
      else pure (some (rb.buf (i % ringbuf_size), rb))

  -- The two loops of `mappages_to_proc`, from round `i` on with `n` left.
  unfoldable pub map_new : ℕ → ℕ → ℕ → ℕ → Ringbuf → Cmd S (ℤ × Ringbuf)
  unfolding page_for no_page give_up
  map_new pt base zero i rb = pure (success, rb)
  map_new pt base (suc n) i rb = do
    page ← page_for rb i
    elim page [
      | none ↦ no_page pt (va_at base i) rb
      | some (pa, rb') ↦ do
        rc ← mappages pt (va_at base i) pgsize pa user_page
        elim (is_zero rc) [
          | true ↦ map_new pt base n (i + 1) rb'
          | false ↦ give_up pt pa (va_at base i) rb'
        ]
    ]

  unfoldable pub map_again : ℕ → ℕ → ℕ → ℕ → Ringbuf → Cmd S (ℤ × Ringbuf)
  unfolding give_up
  map_again pt base zero i rb = pure (success, rb)
  map_again pt base (suc n) i rb = do
    rc ← mappages pt (va_at base i) pgsize (rb.buf (i % ringbuf_size)) user_page
    elim (is_zero rc) [
      | true ↦ map_again pt base n (i + 1) rb
      | false ↦ give_up pt (rb.buf (i % ringbuf_size)) (va_at base i) rb
    ]

  unfoldable pub mappages_to_proc : ℕ → Ringbuf → ℕ → ℕ → Cmd S (ℤ × Ringbuf)
  mappages_to_proc pt rb base num =
      if is_neg rb.refcount
      then pure (failure, rb)
      else if is_zero rb.refcount
      then map_new pt base num 0 rb
      else map_again pt base num 0 rb

  unfoldable pub validate_pages : ℕ → ℕ → Cmd S ℤ
  validate_pages pt va = do pa ← walkaddr pt va; pure (if pa == 0 then failure else success)

  unfoldable pub copyout_user_addr : ℕ → ℕ → ℕ → Cmd S ℤ
  copyout_user_addr pt base user_addr = do
    rc ← copyout pt user_addr base
    pure (if is_neg rc then failure else success)
