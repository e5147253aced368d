-- ===== src/Vm/Interface.antt =====
-- kernel/vm.c and kernel/kalloc.c as the memory management that kernel/ringbuf.c calls.
use zerocopy_ringbuf.Common.{ℕ, ok, ℤ, Cmd, ◌>>◌, arith}
use zerocopy_ringbuf.Paging.{Paging}
use zerocopy_ringbuf.Paging.Laws.{IsPaging}
use zerocopy_ringbuf.Kstring.{memset}
use zerocopy_ringbuf.Kstring.Memory.{memset-at}
use zerocopy_ringbuf.Kalloc.{Kmem, kalloc, kfree}
use zerocopy_ringbuf.Vm.{load, store, walkaddr, mappages, uvmunmap}
use zerocopy_ringbuf.Vm.Space.{uvmdealloc}
use zerocopy_ringbuf.Vm.Copy.{copyout}
use zerocopy_ringbuf.Vm.Walk.{walkaddr_lem}
use zerocopy_ringbuf.Vm.Valid.{tr, IsValid, IsData, kalloc-Allocated}
use zerocopy_ringbuf.Vm.Grow.{page_write-Kept}
use zerocopy_ringbuf.Vm.Mappages.{mappages-Mapped}

-- `memset(dst, c, n)`
unfoldable pub set_bytes : ℕ → ℕ → ℕ → Cmd Kmem (Unit {0})
set_bytes dst c n k = ok (tt, record k { mem = memset k.mem dst c n })

-- `copyout(pt, user_addr, (char *)&v, sizeof(v))` of a word `v` that stands at `slot` on the stack.
unfoldable pub copyout_word : ℕ → ℕ → ℕ → ℕ → Cmd Kmem ℤ
copyout_word slot pt user_addr v = do store slot v; copyout pt user_addr slot 8

abbrev pub paging : ℕ → ℕ → Paging Kmem
paging kernel_end slot = record {
  kalloc = kalloc;
  kfree = kfree kernel_end;
  memset = set_bytes;
  walkaddr = walkaddr;
  mappages = mappages;
  uvmunmap = uvmunmap kernel_end;
  uvmdealloc = uvmdealloc kernel_end;
  copyout = copyout_word slot;
  load = load;
}

-- The kernel's kalloc, memset, walkaddr and mappages meet the laws that the ring buffers rely on.
-- In a memory whose free list and page table are well-formed and share no page: walkaddr reads the
-- translation; kalloc keeps all translations and gives a page that was free, or 0; zeroing an
-- allocated page outside the page table keeps all; and where mappages of one such page returns 0,
-- that page is mapped, all others are as before and the memory is well-formed still.
pub paging-IsPaging :
    (kernel_end slot pt : ℕ)
    → IsPaging
        (tr kernel_end pt)
        (IsValid kernel_end pt)
        (IsData kernel_end pt)
        (paging kernel_end slot)
        pt
unfolding set_bytes
paging-IsPaging kernel_end slot pt = record {
  walkaddr_reads = λ va k v. walkaddr_lem pt va k;
  kalloc_allocates =
      λ k v. let (p, k', run, a, sp) = kalloc-Allocated kernel_end pt k v in rw run a;
  memset_keeps = λ p k v d.
      (page_write-Kept kernel_end pt k (memset k.mem p 0 4096) p v d
        (λ a w. ground (arith, memset-at k.mem p 0 4096 a))).0;
  mappages_maps = λ va pa k v d al low. mappages-Mapped kernel_end pt va pa low k al v d;
}
