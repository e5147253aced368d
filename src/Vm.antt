-- ===== src/Vm.antt =====
-- kernel/vm.c: Sv39 page tables. A page table is a page of 512 words; `walk` finds the word for an
-- address, and the functions below map, unmap and look up pages by it.
pub mod Space
pub mod Copy
pub mod Walk
pub mod Tables
pub mod Link
pub mod Lookup
pub mod Translate
pub mod Linked
pub mod Valid
pub mod Grow
pub mod Map
pub mod Mappages
pub mod Interface
pub mod Create
pub mod Copyin
mod Tests
use zerocopy_ringbuf.Common.{
  ℕ, zero, suc, ◌+◌, ◌-◌, ◌*◌, ◌%◌, ◌/◌, ◌^◌, Bool, true, false, Option, none, some, ℤ, is_zero,
  success, failure, add64, sub64, ltb, leb, ◌==◌, ◌!=◌, if◌then◌else◌, ok, panic, Cmd, pure, ◌>>=◌,
  ◌>>◌,
}
use zerocopy_ringbuf.Kstring.{memset, memmove}
use zerocopy_ringbuf.Words.{load_word, store_word}
use zerocopy_ringbuf.Kalloc.{Kmem, pgsize, kalloc, kfree}

abbrev pub maxva : ℕ
maxva = 2 ^ 38

abbrev pub pg_round_down : ℕ → ℕ
pg_round_down a = a / pgsize * pgsize

abbrev pub pg_round_up : ℕ → ℕ
pg_round_up sz = pg_round_down (add64 sz (pgsize - 1))

-- The flags of an entry: bits 0 and 4, and the ten lowest.
abbrev pub pte_v : ℕ → Bool
pte_v pte = pte % 2 != 0

abbrev pub pte_u : ℕ → Bool
pte_u pte = pte / 2 ^ 4 % 2 != 0

abbrev pub pte_flags : ℕ → ℕ
pte_flags pte = pte % 2 ^ 10

abbrev pub pa2pte : ℕ → ℕ
pa2pte pa = pa / 2 ^ 12 * 2 ^ 10

abbrev pub pte2pa : ℕ → ℕ
pte2pa pte = pte / 2 ^ 10 * 2 ^ 12 % 2 ^ 64

-- `PA2PTE(pa) | perm | PTE_V` for a `perm` of ten bits, which the shifted address leaves free.
abbrev pub entry : ℕ → ℕ → ℕ
entry pa perm = pa2pte pa + perm % 2 ^ 10 + (1 - perm % 2)

abbrev pub px : ℕ → ℕ → ℕ
px level va = va / 2 ^ (12 + 9 * level) % 2 ^ 9

-- `&pagetable[PX(level, va)]`
abbrev pub pte_addr : ℕ → ℕ → ℕ → ℕ
pte_addr pt level va = pt + 8 * px level va

unfoldable pub load : ℕ → Cmd Kmem ℕ
load a k = ok (load_word k.mem a, k)

unfoldable pub store : ℕ → ℕ → Cmd Kmem (Unit {0})
store a v k = ok (tt, record k { mem = store_word k.mem a v })

-- `memset(pa, 0, PGSIZE)`
unfoldable pub clear_page : ℕ → Cmd Kmem (Unit {0})
clear_page pa k = ok (tt, record k { mem = memset k.mem pa 0 pgsize })

-- `memmove(dst, src, n)`
unfoldable pub move : ℕ → ℕ → ℕ → Cmd Kmem (Unit {0})
move dst src n k = ok (tt, record k { mem = memmove k.mem dst src n })

-- The branch of `walk` for an entry that is not valid; `none` is its `return 0`.
unfoldable pub new_table : ℕ → Bool → Cmd Kmem (Option ℕ)
unfolding clear_page store
new_table pte alloc =
    if alloc
    then (do
      table ← kalloc
      elim (table == 0) [
        | true ↦ pure none
        | false ↦ do clear_page table; store pte (entry table 0); pure (some table)
      ])
    else pure none

-- The loop of `walk` from a level on, and the address that it returns at the end.
unfoldable pub walk_from : ℕ → ℕ → ℕ → Bool → Cmd Kmem ℕ
unfolding load new_table
walk_from zero pt va alloc = pure (pte_addr pt 0 va)
walk_from (suc level) pt va alloc = do
  pte ← load (pte_addr pt (suc level) va)
  elim (pte_v pte) [
    | true ↦ walk_from level (pte2pa pte) va alloc
    | false ↦ do
      made ← new_table (pte_addr pt (suc level) va) alloc
      elim made [ none ↦ pure 0 | some table ↦ walk_from level table va alloc ]
  ]

unfoldable pub walk : ℕ → ℕ → Bool → Cmd Kmem ℕ
unfolding walk_from
walk pt va alloc = if leb maxva va then (λ _. panic) else walk_from 2 pt va alloc

unfoldable pub walkaddr : ℕ → ℕ → Cmd Kmem ℕ
unfolding load
walkaddr pt va = if leb maxva va then pure 0 else (do
  at ← walk pt va false
  elim (at == 0) [
    | true ↦ pure 0
    | false ↦ do
      pte ← load at
      elim (pte_v pte) [
        | false ↦ pure 0
        | true ↦ elim (pte_u pte) [ false ↦ pure 0 | true ↦ pure (pte2pa pte) ]
      ]
  ])

-- One round of `mappages`.
unfoldable pub map_page : ℕ → ℕ → ℕ → ℕ → Cmd Kmem ℤ
unfolding load store
map_page pt a pa perm = do
  at ← walk pt a true
  elim (at == 0) [
    | true ↦ pure failure
    | false ↦ do
      pte ← load at
      elim (pte_v pte) [ true ↦ λ _. panic | false ↦ do store at (entry pa perm); pure success ]
  ]

-- The loop of `mappages` from page `a` on, with `n` rounds left after this one.
unfoldable pub map_from : ℕ → ℕ → ℕ → ℕ → ℕ → Cmd Kmem ℤ
unfolding map_page
map_from zero pt a pa perm = map_page pt a pa perm
map_from (suc n) pt a pa perm = do
  rc ← map_page pt a pa perm
  elim (is_zero rc) [
    | true ↦ map_from n pt (add64 a pgsize) (add64 pa pgsize) perm
    | false ↦ pure rc
  ]

-- The loop goes from the first page to the last, through the end of the addresses if it must.
unfoldable pub mappages : ℕ → ℕ → ℕ → ℕ → ℕ → Cmd Kmem ℤ
unfolding map_from
mappages pt va size pa perm = if size == 0 then (λ _. panic) else (do
  let first = pg_round_down va
  let last = pg_round_down (sub64 (add64 va size) 1)
  map_from (sub64 last first / pgsize) pt first pa perm)

module _ (kernel_end : ℕ) where
  unfoldable pub unmap_page : ℕ → ℕ → Bool → Cmd Kmem (Unit {0})
  unfolding load store
  unmap_page pt a do_free = do
    at ← walk pt a false
    elim (at == 0) [
      | true ↦ λ _. panic
      | false ↦ do
        pte ← load at
        elim (pte_v pte) [
          | false ↦ λ _. panic
          | true ↦ elim (pte_flags pte == 1) [
            | true ↦ λ _. panic
            | false ↦ do if do_free then kfree kernel_end (pte2pa pte) else pure tt; store at 0
          ]
        ]
    ]

  unfoldable pub unmap_from : ℕ → ℕ → ℕ → Bool → Cmd Kmem (Unit {0})
  unfolding unmap_page
  unmap_from zero pt a do_free = pure tt
  unmap_from (suc n) pt a do_free = do unmap_page pt a do_free; unmap_from n pt (a + pgsize) do_free

  unfoldable pub uvmunmap : ℕ → ℕ → ℕ → Bool → Cmd Kmem (Unit {0})
  unfolding unmap_from
  uvmunmap pt va npages do_free =
      if va % pgsize != 0
      then (λ _. panic)
      else unmap_from ((add64 va (npages * pgsize) - va) / pgsize) pt va do_free
