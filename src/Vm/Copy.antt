-- ===== src/Vm/Copy.antt =====
-- kernel/vm.c: copying between the kernel's memory and a process's, page by page.
use zerocopy_ringbuf.Common.{
  ℕ, zero, suc, ◌+◌, ◌-◌, Bool, true, false, ℤ, success, failure, ltb, ◌==◌, if◌then◌else◌, fault,
  ok, Cmd, pure, ◌>>=◌, ◌>>◌,
}
use zerocopy_ringbuf.Kstring.{put}
use zerocopy_ringbuf.Kalloc.{Kmem, pgsize}
use zerocopy_ringbuf.Vm.{pg_round_down, move, walkaddr}

-- The number of bytes from `va` on that one round copies.
abbrev pub chunk : ℕ → ℕ → ℕ
chunk va len = let n = pgsize - (va - pg_round_down va) in if ltb len n then len else n

-- The loops, with the number of rounds that may still follow: a round copies a byte at least.
unfoldable pub copyout_from : ℕ → ℕ → ℕ → ℕ → ℕ → Cmd Kmem ℤ
unfolding move
copyout_from rounds pt dstva src zero = pure success
copyout_from zero pt dstva src (suc len) = λ _. fault
copyout_from (suc rounds) pt dstva src (suc len) = do
  let va0 = pg_round_down dstva
  pa0 ← walkaddr pt va0
  elim (pa0 == 0) [
    | true ↦ pure failure
    | false ↦ do
      let n = chunk dstva (suc len)
      move (pa0 + (dstva - va0)) src n
      copyout_from rounds pt (va0 + pgsize) (src + n) (suc len - n)
  ]

unfoldable pub copyout : ℕ → ℕ → ℕ → ℕ → Cmd Kmem ℤ
unfolding copyout_from
copyout pt dstva src len = copyout_from len pt dstva src len

unfoldable pub copyin_from : ℕ → ℕ → ℕ → ℕ → ℕ → Cmd Kmem ℤ
unfolding move
copyin_from rounds pt dst srcva zero = pure success
copyin_from zero pt dst srcva (suc len) = λ _. fault
copyin_from (suc rounds) pt dst srcva (suc len) = do
  let va0 = pg_round_down srcva
  pa0 ← walkaddr pt va0
  elim (pa0 == 0) [
    | true ↦ pure failure
    | false ↦ do
      let n = chunk srcva (suc len)
      move dst (pa0 + (srcva - va0)) n
      copyin_from rounds pt (dst + n) (va0 + pgsize) (suc len - n)
  ]

unfoldable pub copyin : ℕ → ℕ → ℕ → ℕ → Cmd Kmem ℤ
unfolding copyin_from
copyin pt dst srcva len = copyin_from len pt dst srcva len

-- The inner loop of `copyinstr` over `n` bytes: whether it met the 0, and the number of bytes
-- that it took from `max`.
unfoldable pub copy_bytes : ℕ → ℕ → ℕ → ℕ → Cmd Kmem (Bool × ℕ)
copy_bytes zero p dst taken k = ok ((false, taken), k)
copy_bytes (suc n) p dst taken k = elim (k.mem p == 0) [
  | true ↦ ok ((true, taken), record k { mem = put k.mem dst 0 })
  | false ↦ copy_bytes n (p + 1) (dst + 1) (taken + 1) (record k { mem = put k.mem dst (k.mem p) })
]

unfoldable pub copyinstr_from : ℕ → ℕ → ℕ → ℕ → ℕ → Cmd Kmem ℤ
unfolding copy_bytes
copyinstr_from rounds pt dst srcva zero = pure failure
copyinstr_from zero pt dst srcva (suc max) = λ _. fault
copyinstr_from (suc rounds) pt dst srcva (suc max) = do
  let va0 = pg_round_down srcva
  pa0 ← walkaddr pt va0
  elim (pa0 == 0) [
    | true ↦ pure failure
    | false ↦ do
      (got_null, n) ← copy_bytes (chunk srcva (suc max)) (pa0 + (srcva - va0)) dst 0
      elim got_null [
        | true ↦ pure success
        | false ↦ copyinstr_from rounds pt (dst + n) (va0 + pgsize) (suc max - n)
      ]
  ]

unfoldable pub copyinstr : ℕ → ℕ → ℕ → ℕ → Cmd Kmem ℤ
unfolding copyinstr_from
copyinstr pt dst srcva max = copyinstr_from max pt dst srcva max
