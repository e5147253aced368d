-- ===== src/Vm/Space.antt =====
-- kernel/vm.c: making, growing, copying and freeing the page tables of the kernel and of processes.
use zerocopy_ringbuf.Common.{
  ℕ, zero, suc, ◌+◌, ◌-◌, ◌*◌, ◌%◌, ◌/◌, ◌^◌, true, false, ℤ, is_zero, success, failure, to_int,
  to_u64, ltb, leb, ◌==◌, if◌then◌else◌, panic, fault, Cmd, pure, ◌>>=◌, ◌>>◌,
}
use zerocopy_ringbuf.Kalloc.{Kmem, pgsize, kernbase, phystop, kalloc, kfree}
use zerocopy_ringbuf.Vm.{
  maxva, pg_round_up, pte_v, pte_u, pte_flags, pte2pa, load, store, clear_page, move, walk,
  mappages, uvmunmap,
}

-- PTE_R, PTE_W, PTE_X and PTE_U
abbrev pte_r : ℕ
pte_r = 2

abbrev pte_w : ℕ
pte_w = 4

abbrev pte_x : ℕ
pte_x = 8

abbrev pte_user : ℕ
pte_user = 16

unfoldable pub kvmmap : ℕ → ℕ → ℕ → ℕ → ℕ → Cmd Kmem (Unit {0})
kvmmap pt va pa sz perm = do
  rc ← mappages pt va sz pa perm
  if is_zero rc then pure tt else λ _. panic

abbrev pub trampoline_va : ℕ
trampoline_va = maxva - pgsize

abbrev pub kstack : ℕ → ℕ
kstack p = trampoline_va - (p + 1) * 2 * pgsize

-- `proc_mapstacks` of kernel/proc.c, from process `p` on with `n` left.
unfoldable pub map_stacks : ℕ → ℕ → ℕ → Cmd Kmem (Unit {0})
unfolding kvmmap
map_stacks zero p pt = pure tt
map_stacks (suc n) p pt = do
  pa ← kalloc
  if pa == 0
      then (λ _. panic)
      else (do kvmmap pt (kstack p) pa pgsize (pte_r + pte_w); map_stacks n (p + 1) pt)

abbrev pub nproc : ℕ
nproc = 64

-- `kvmmake`, with the linker's `etext` and `trampoline`. With no page for the table it writes
-- to address 0.
unfoldable pub kvmmake : ℕ → ℕ → Cmd Kmem ℕ
unfolding kvmmap map_stacks clear_page
kvmmake etext trampoline = do
  kpgtbl ← kalloc
  if kpgtbl == 0 then (λ _. fault) else (do
    clear_page kpgtbl
    kvmmap kpgtbl 0x10000000 0x10000000 pgsize (pte_r + pte_w)
    kvmmap kpgtbl 0x10001000 0x10001000 pgsize (pte_r + pte_w)
    kvmmap kpgtbl 0x0c000000 0x0c000000 0x400000 (pte_r + pte_w)
    kvmmap kpgtbl kernbase kernbase (etext - kernbase) (pte_r + pte_x)
    kvmmap kpgtbl etext etext (phystop - etext) (pte_r + pte_w)
    kvmmap kpgtbl trampoline_va trampoline pgsize (pte_r + pte_x)
    map_stacks nproc 0 kpgtbl
    pure kpgtbl)

unfoldable pub uvmcreate : Cmd Kmem ℕ
unfolding clear_page
uvmcreate = do
  pagetable ← kalloc
  if pagetable == 0 then pure 0 else (do clear_page pagetable; pure pagetable)

-- As in `kvmmake`, there is no test for a page.
unfoldable pub uvmfirst : ℕ → ℕ → ℕ → Cmd Kmem (Unit {0})
unfolding clear_page move
uvmfirst pt src sz = if leb pgsize sz then (λ _. panic) else (do
  mem ← kalloc
  if mem == 0 then (λ _. fault) else (do
    clear_page mem
    _ ← mappages pt 0 pgsize mem (pte_w + pte_r + pte_x + pte_user)
    move mem src sz))

unfoldable pub uvmclear : ℕ → ℕ → Cmd Kmem (Unit {0})
unfolding load store
uvmclear pt va = do
  at ← walk pt va false
  if at == 0
      then (λ _. panic)
      else (do pte ← load at; store at (if pte_u pte then pte - pte_user else pte))

module _ (kernel_end : ℕ) where
  unfoldable pub uvmdealloc : ℕ → ℕ → ℕ → Cmd Kmem ℕ
  uvmdealloc pt oldsz newsz =
      if leb oldsz newsz
      then pure oldsz
      else if ltb (pg_round_up newsz) (pg_round_up oldsz)
      then (do
        uvmunmap kernel_end pt (pg_round_up newsz)
            (to_u64 (to_int ((pg_round_up oldsz - pg_round_up newsz) / pgsize))) true
        pure newsz)
      else pure newsz

  -- The loop of `uvmalloc` from page `a` on, with `n` rounds left.
  unfoldable pub alloc_from : ℕ → ℕ → ℕ → ℕ → ℕ → ℕ → Cmd Kmem ℕ
  unfolding clear_page
  alloc_from zero pt a oldsz newsz xperm = pure newsz
  alloc_from (suc n) pt a oldsz newsz xperm = do
    mem ← kalloc
    if mem == 0 then (do _ ← uvmdealloc pt a oldsz; pure 0) else (do
      clear_page mem
      rc ← mappages pt a pgsize mem (pte_r + pte_user + xperm)
      elim (is_zero rc) [
        | true ↦ alloc_from n pt (a + pgsize) oldsz newsz xperm
        | false ↦ do kfree kernel_end mem; _ ← uvmdealloc pt a oldsz; pure 0
      ])

  unfoldable pub uvmalloc : ℕ → ℕ → ℕ → ℕ → Cmd Kmem ℕ
  unfolding alloc_from
  uvmalloc pt oldsz newsz xperm =
      if ltb newsz oldsz
      then pure oldsz
      else (let start = pg_round_up oldsz in
          alloc_from ((newsz + (pgsize - 1) - start) / pgsize) pt start start newsz xperm)

  -- The loop of `freewalk` over the entries from `i` on, with `n` left; `free_child` is its
  -- recursive call.
  unfoldable pub free_entries : (ℕ → Cmd Kmem (Unit {0})) → ℕ → ℕ → ℕ → Cmd Kmem (Unit {0})
  unfolding load store
  free_entries free_child zero i pt = pure tt
  free_entries free_child (suc n) i pt = do
    pte ← load (pt + 8 * i)
    elim (pte_v pte) [
      | false ↦ free_entries free_child n (i + 1) pt
      | true ↦ elim (pte / 2 % 2 ^ 3 == 0) [
        | false ↦ λ _. panic
        | true ↦ do
          free_child (pte2pa pte)
          store (pt + 8 * i) 0
          free_entries free_child n (i + 1) pt
      ]
    ]

  -- A call takes a part of the kernel's stack of 4096 bytes, so there are fewer nested calls.
  unfoldable pub freewalk_at : ℕ → ℕ → Cmd Kmem (Unit {0})
  unfolding free_entries
  freewalk_at zero pt = λ _. fault
  freewalk_at (suc depth) pt = do free_entries (freewalk_at depth) 512 0 pt; kfree kernel_end pt

  unfoldable pub freewalk : ℕ → Cmd Kmem (Unit {0})
  unfolding freewalk_at
  freewalk pt = freewalk_at 4096 pt

  unfoldable pub uvmfree : ℕ → ℕ → Cmd Kmem (Unit {0})
  uvmfree pt sz = do
    if ltb 0 sz then uvmunmap kernel_end pt 0 (pg_round_up sz / pgsize) true else pure tt
    freewalk pt

  -- The loop of `uvmcopy` from address `i` on, with `n` rounds left.
  unfoldable pub copy_from : ℕ → ℕ → ℕ → ℕ → Cmd Kmem ℤ
  unfolding load move
  copy_from zero old new i = pure success
  copy_from (suc n) old new i = do
    at ← walk old i false
    if at == 0 then (λ _. panic) else (do
      pte ← load at
      if pte_v pte
          then (do
            mem ← kalloc
            if mem == 0 then (do uvmunmap kernel_end new 0 (i / pgsize) true; pure failure) else (do
              move mem (pte2pa pte) pgsize
              rc ← mappages new i pgsize mem (pte_flags pte)
              elim (is_zero rc) [
                | true ↦ copy_from n old new (i + pgsize)
                | false ↦ do
                  kfree kernel_end mem
                  uvmunmap kernel_end new 0 (i / pgsize) true
                  pure failure
              ]))
          else λ _. panic)

  unfoldable pub uvmcopy : ℕ → ℕ → ℕ → Cmd Kmem ℤ
  unfolding copy_from
  uvmcopy old new sz = copy_from ((sz + (pgsize - 1)) / pgsize) old new 0
