-- ===== src/Paging.antt =====
-- What kernel/ringbuf.c calls of kernel/kalloc.c, kernel/vm.c and kernel/string.c, over a state `S`
-- of the memory: the interface between the ring buffers and the memory management.
pub mod Laws
use zerocopy_ringbuf.Common.{ℕ, Bool, ℤ, Cmd}

pub record Paging (S : Type 0) : Type 0 where
  pub kalloc : Cmd S ℕ
  pub kfree : ℕ → Cmd S (Unit {0})
  pub memset : ℕ → ℕ → ℕ → Cmd S (Unit {0})
  pub walkaddr : ℕ → ℕ → Cmd S ℕ
  pub mappages : ℕ → ℕ → ℕ → ℕ → ℕ → Cmd S ℤ
  pub uvmunmap : ℕ → ℕ → ℕ → Bool → Cmd S (Unit {0})
  pub uvmdealloc : ℕ → ℕ → ℕ → Cmd S ℕ
  -- `copyout` of a `uint64` of the kernel's stack
  pub copyout : ℕ → ℕ → ℕ → Cmd S ℤ
  -- `*(uint64 *)pa`
  pub load : ℕ → Cmd S ℕ
