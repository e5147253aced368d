-- ===== src/Ringbufs/Calls.antt =====
-- kernel/ringbuf.c: creating, joining and leaving a ring buffer, and the system call.
use zerocopy_ringbuf.Common.{
  ℕ, zero, suc, ◌+◌, ◌-◌, ◌*◌, ◌%◌, true, false, none, some, ℤ, pos, is_zero, success, failure,
  incr, decr, add64, sub64, ltb, leb, if◌then◌else◌, ok, fault, Cmd, pure, ◌>>=◌, ◌>>◌,
}
use zerocopy_ringbuf.Kstring.{Chars, strncpy, strlen}
use zerocopy_ringbuf.Paging.{Paging}
use zerocopy_ringbuf.Ringbufs.{
  Ringbuf, Kernel, max_ringbufs, ringbuf_size, ringbuf_name_len, pgsize, empty, get_ringbuf_index,
  find, lift, ringbuf_at, put_ringbuf, acquire, release,
}
use zerocopy_ringbuf.Ringbufs.Pages.{
  num_pages, find_contiguous_pages, mappages_to_proc, mappage_to_book, validate_pages,
  copyout_user_addr,
}

-- A string of the kernel's stack that does not end within the stack's page runs into the guard page.
abbrev pub stack_bytes : ℕ
stack_bytes = 4096

-- `base_va - (2 * RINGBUF_SIZE * PGSIZE)`
abbrev pub book_va : ℕ → ℕ
book_va base = sub64 base (2 * ringbuf_size * pgsize)

-- `junk` is what the stack holds where `create_ringbuf` declares its `struct ringbuf`.
module _ {S : Type 0} (vm : Paging S) (junk : Ringbuf) where
  open vm use {kfree, walkaddr, uvmunmap, load}

  -- An early return of -1, unless the result is 0.
  abbrev pub check : ℤ → Ringbuf → Cmd S (ℤ × Ringbuf) → Cmd S (ℤ × Ringbuf)
  check rc rb rest = elim (is_zero rc) [ true ↦ rest | false ↦ pure (failure, rb) ]

  -- `create_ringbuf` as far as it works on `new_ringbuf` and on the memory.
  unfoldable pub create_pages : ℕ → Chars → ℕ → Cmd S (ℤ × Ringbuf)
  create_pages pt name addr = do
    let rb = record junk { refcount = pos 0; name = strncpy junk.name name ringbuf_name_len }
    (rc, guard) ← find_contiguous_pages vm pt num_pages
    check rc rb (do
      let base = sub64 guard pgsize
      (rc, rb) ← mappages_to_proc vm pt rb base (2 * ringbuf_size)
      check rc rb (do
        rc ← validate_pages vm pt base
        check rc rb (do
          (rc, rb) ← mappage_to_book vm pt rb (book_va base)
          check rc rb (do
            rc ← validate_pages vm pt (book_va base)
            check rc rb
                (do rc ← copyout_user_addr vm pt base addr; check rc rb (pure (success, rb)))))))

  -- `new_ringbuf.refcount += 1; ringbufs[ringbuf_index] = new_ringbuf`
  unfoldable pub enter_ringbuf : Ringbuf → Cmd (Kernel S) ℤ
  enter_ringbuf rb k =
      (do
        put_ringbuf (get_ringbuf_index k.ringbufs) (record rb { refcount = incr rb.refcount })
        pure success)
        k

  unfoldable pub create_ringbuf : Chars → ℕ → Cmd (Kernel S) ℤ
  create_ringbuf name addr k =
      (do
        (rc, rb) ← lift (create_pages k.pagetable name addr)
        elim (is_zero rc) [ true ↦ enter_ringbuf rb | false ↦ pure failure ])
        k

  -- `append_ringbuf` behind its search, on the entry found and on the memory.
  unfoldable pub append_pages : ℕ → Ringbuf → ℕ → Cmd S (ℤ × Ringbuf)
  append_pages pt rb addr = do
    (rc, found) ← find_contiguous_pages vm pt num_pages
    check rc rb (do
      let base = sub64 (sub64 found pgsize) pgsize
      (rc, rb) ← mappages_to_proc vm pt rb base (2 * ringbuf_size)
      check rc rb (do
        (rc, rb) ← mappage_to_book vm pt rb (book_va base)
        check rc rb (do
          rc ← copyout_user_addr vm pt base addr
          check rc rb (pure (success, record rb { refcount = incr rb.refcount })))))

  -- The entry is a pointer into the table: what was written to it stays, also on failure.
  unfoldable pub join_ringbuf : ℕ → ℕ → Cmd (Kernel S) ℤ
  join_ringbuf i addr k =
      (do
        rb ← ringbuf_at i
        (rc, rb) ← lift (append_pages k.pagetable rb addr)
        put_ringbuf i rb
        pure rc)
        k

  unfoldable pub append_ringbuf : Chars → ℕ → Cmd (Kernel S) ℤ
  append_ringbuf name addr k = elim (find k.ringbufs name) [
    | none ↦ ok (failure, k)
    | some i ↦ join_ringbuf i addr k
  ]

  -- The loop over `buf` of `unmap_ringbuf_pmem`, from index `i` on with `n` left.
  unfoldable pub free_bufs : ℕ → ℕ → Ringbuf → Cmd S (Unit {0})
  free_bufs zero i rb = pure tt
  free_bufs (suc n) i rb = do kfree (rb.buf i); free_bufs n (i + 1) rb

  -- The memory of `unmap_ringbuf_pmem`; its reset of the name is in `leave_ringbuf`.
  unfoldable pub unmap_ringbuf_pmem : Ringbuf → Cmd S (Unit {0})
  unfolding free_bufs
  unmap_ringbuf_pmem rb = do kfree rb.book; free_bufs ringbuf_size 0 rb

  -- `unmap_ringbuf` behind its search and `refcount--`, as far as it works on the memory.
  unfoldable pub unmap_pages : ℕ → ℕ → Cmd S ℤ
  unmap_pages pt addr = do
    pa ← walkaddr pt addr
    va ← load (add64 pa (addr % 4096))
    rc ← validate_pages vm pt va
    elim (is_zero rc) [
      | false ↦ pure failure
      | true ↦ do
        let bottom = sub64 va ((2 * ringbuf_size - 1) * pgsize)
        uvmunmap pt bottom (2 * ringbuf_size) false
        uvmunmap pt (sub64 bottom pgsize) 1 false
        pure success
    ]

  -- The end of `unmap_ringbuf` for entry `i`: the last process to leave frees the ring.
  unfoldable pub free_ringbuf : ℕ → Ringbuf → Cmd (Kernel S) ℤ
  free_ringbuf i rb =
      if is_zero rb.refcount
      then (do
        put_ringbuf i (record rb { name = strncpy rb.name empty ringbuf_name_len })
        lift (unmap_ringbuf_pmem rb)
        pure success)
      else pure success

  unfoldable pub leave_ringbuf : ℕ → ℕ → Cmd (Kernel S) ℤ
  leave_ringbuf i addr k =
      (do
        old ← ringbuf_at i
        let rb = record old { refcount = decr old.refcount }
        put_ringbuf i rb
        rc ← lift (unmap_pages k.pagetable addr)
        elim (is_zero rc) [ true ↦ free_ringbuf i rb | false ↦ pure failure ])
        k

  unfoldable pub unmap_ringbuf : Chars → ℕ → Cmd (Kernel S) ℤ
  unmap_ringbuf name addr k = elim (find k.ringbufs name) [
    | none ↦ ok (failure, k)
    | some i ↦ leave_ringbuf i addr k
  ]

  -- The end of `ringbuf`, where no step has failed.
  unfoldable pub finish : Cmd (Kernel S) ℤ
  finish = do release; pure success

  -- Step 3 of `ringbuf`: each of the three calls has its own way out for a failure.
  unfoldable pub dispatch : Chars → ℤ → ℕ → Cmd (Kernel S) ℤ
  dispatch name open_flag addr k =
      if is_zero open_flag
      then (do
        rc ← unmap_ringbuf name addr
        elim (is_zero rc) [ true ↦ finish | false ↦ do release; pure failure ])
          k
      else elim (find k.ringbufs name) [
        | none ↦
            (do
              rc ← create_ringbuf name addr
              elim (is_zero rc) [ true ↦ finish | false ↦ do release; pure failure ])
              k
        | some _ ↦
            (do
              rc ← append_ringbuf name addr
              elim (is_zero rc) [ true ↦ finish | false ↦ do release; pure failure ])
              k
      ]

  -- `ringbuf` behind its `acquire`, with steps 1 and 2.
  unfoldable pub guarded : Chars → ℤ → ℕ → Cmd (Kernel S) ℤ
  guarded name open_flag addr k =
      if leb max_ringbufs (get_ringbuf_index k.ringbufs)
      then (do release; pure failure) k
      else elim (strlen stack_bytes name) [
        | none ↦ fault
        | some n ↦
            if ltb ringbuf_name_len n
            then (do release; pure failure) k
            else dispatch name open_flag addr k
      ]

  unfoldable pub ringbuf : Chars → ℤ → ℕ → Cmd (Kernel S) ℤ
  ringbuf name open_flag addr = do acquire; guarded name open_flag addr
