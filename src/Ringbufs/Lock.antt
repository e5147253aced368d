-- ===== src/Ringbufs/Lock.antt =====
-- The lock and the length of the table over all calls of kernel/ringbuf.c, whatever the memory does.
use zerocopy_ringbuf.Common.{
  suc, ◌≢◌, ◌∙◌, List, [], ◌∷◌, get_elem?, Option-cases, Ensures-mono, Cmd, ◌>>◌, ℕ, ◌≡◌, refl,
  Bool, true, false, some, ℤ, is_zero, success, failure, decr, leb, ltb, arith, ok, pure, ◌>>=◌,
  Ensures, Ensures-bind, length, Bool-cases, ap, sym, inl, inr,
}
use zerocopy_ringbuf.Kstring.{Chars, strlen, strncmp}
use zerocopy_ringbuf.Paging.{Paging}
use zerocopy_ringbuf.Ringbufs.{
  Ringbuf, Kernel, in_use, release, get_ringbuf_index, find, lift, put_ringbuf, ringbuf_at,
  max_ringbufs, ringbuf_name_len,
}
use zerocopy_ringbuf.Ringbufs.Calls.{
  ringbuf, guarded, finish, dispatch, create_ringbuf, append_ringbuf, unmap_ringbuf, enter_ringbuf,
  create_pages, append_pages, join_ringbuf, leave_ringbuf, free_ringbuf, unmap_pages,
  unmap_ringbuf_pmem, stack_bytes,
}
use zerocopy_ringbuf.Ringbufs.Keeps.{
  Keeps, Stays, put_ringbuf-Keeps, acquire-free, acquire-held, release-held, Stays-pure, Stays-bind,
  Stays-elim, Stays-if, Stays-option, Stays-lift, Stays-at,
}

-- A string that is not empty differs from the empty one.
named-in_use : (rb : Ringbuf) → rb.name 0 ≢ 0 → in_use rb ≡ true
unfolding strncmp
named-in_use rb ne = ground (arith, ne)

all_named :
    (rbs : List Ringbuf)
    → ((i : ℕ) (rb : Ringbuf) → get_elem? rbs i ≡ some rb → rb.name 0 ≢ 0)
    → get_ringbuf_index rbs ≡ length rbs
unfolding get_ringbuf_index
all_named [] h = refl
all_named (rb ∷ rbs) h =
    rw (named-in_use rb (h 0 rb refl)) (ground (arith, all_named rbs (λ i r e. h (suc i) r e)))

module _ {S : Type 0} (vm : Paging S) (junk : Ringbuf) where
  enter_ringbuf-Stays : (rb : Ringbuf) → Stays (enter_ringbuf vm junk rb)
  unfolding enter_ringbuf
  enter_ringbuf-Stays rb k =
      Stays-bind (put_ringbuf _ _) (λ _. pure success) (put_ringbuf-Keeps _ _)
        (λ _. Stays-pure success) k

  create_ringbuf-Stays : (name : Chars) (addr : ℕ) → Stays (create_ringbuf vm junk name addr)
  unfolding create_ringbuf
  create_ringbuf-Stays name addr k =
      Stays-bind (lift (create_pages vm junk k.pagetable name addr)) _ (Stays-lift _)
        (λ (rc, rb).
          Stays-elim (is_zero rc) (enter_ringbuf vm junk rb) (pure failure) (enter_ringbuf-Stays rb)
            (Stays-pure failure))
        k

  join_ringbuf-Stays : (i addr : ℕ) → Stays (join_ringbuf vm junk i addr)
  unfolding join_ringbuf
  join_ringbuf-Stays i addr k =
      Stays-bind (ringbuf_at i) _ (Stays-at i)
        (λ rb.
          Stays-bind (lift (append_pages vm junk k.pagetable rb addr)) _ (Stays-lift _)
            (λ (rc, rb').
              Stays-bind (put_ringbuf i rb') _ (put_ringbuf-Keeps i rb') (λ _. Stays-pure rc)))
        k

  append_ringbuf-Stays : (name : Chars) (addr : ℕ) → Stays (append_ringbuf vm junk name addr)
  unfolding append_ringbuf
  append_ringbuf-Stays name addr k =
      Stays-option (find k.ringbufs name) (pure failure) (λ i. join_ringbuf vm junk i addr)
        (Stays-pure failure) (λ i. join_ringbuf-Stays i addr) k

  free_ringbuf-Stays : (i : ℕ) (rb : Ringbuf) → Stays (free_ringbuf vm junk i rb)
  unfolding free_ringbuf
  free_ringbuf-Stays i rb =
      Stays-if (is_zero rb.refcount) _ _
        (Stays-bind (put_ringbuf i _) _ (put_ringbuf-Keeps i _) (λ _.
          Stays-bind (lift (unmap_ringbuf_pmem vm junk rb)) _ (Stays-lift _)
            (λ _. Stays-pure success)))
        (Stays-pure success)

  leave_ringbuf-Stays : (i addr : ℕ) → Stays (leave_ringbuf vm junk i addr)
  unfolding leave_ringbuf
  leave_ringbuf-Stays i addr k =
      Stays-bind (ringbuf_at i) _ (Stays-at i)
        (λ old.
          let rb : Ringbuf = record old { refcount = decr old.refcount } in
          Stays-bind (put_ringbuf i rb) _ (put_ringbuf-Keeps i rb) (λ _.
            Stays-bind (lift (unmap_pages vm junk k.pagetable addr)) _ (Stays-lift _) (λ rc.
              Stays-elim (is_zero rc) (free_ringbuf vm junk i rb) (pure failure)
                (free_ringbuf-Stays i rb) (Stays-pure failure))))
        k

  unmap_ringbuf-Stays : (name : Chars) (addr : ℕ) → Stays (unmap_ringbuf vm junk name addr)
  unfolding unmap_ringbuf
  unmap_ringbuf-Stays name addr k =
      Stays-option (find k.ringbufs name) (pure failure) (λ i. leave_ringbuf vm junk i addr)
        (Stays-pure failure) (λ i. leave_ringbuf-Stays i addr) k

  -- What every run of `c` that returns, begun with the lock held, leaves.
  abbrev Unlocks : Cmd (Kernel S) ℤ → Type 0
  Unlocks c =
      (k : Kernel S)
      → k.ringbuf_lock ≡ true
      → Ensures (λ _ k'. (k'.ringbuf_lock ≡ false) × (length k'.ringbufs ≡ length k.ringbufs)) (c k)

  release-Unlocks : (rc : ℤ) → Unlocks (release >> pure rc)
  release-Unlocks rc k held = rw (release-held k held, ◌>>=◌) (refl, refl)

  -- A call that keeps the lock, and the way out for each result.
  call-Unlocks :
      (c : Cmd (Kernel S) ℤ)
      → Stays c
      → Unlocks (
          c >>= λ rc. elim (is_zero rc) [ true ↦ finish vm junk | false ↦ release >> pure failure ])
  unfolding finish
  call-Unlocks c h k held =
      Ensures-bind (λ _ k'. Keeps k k') Result c _ k (h k)
        (λ rc k' e.
          Ensures-mono (λ _ m. (m.ringbuf_lock ≡ false) × (length m.ringbufs ≡ length k'.ringbufs))
            Result _ (way_out (is_zero rc) k' (e.lock ∙ held)) (λ _ m u. (u.0, u.1 ∙ e.size)))
    where
      Result : ℤ → Kernel S → Type 0
      Result _ k' = (k'.ringbuf_lock ≡ false) × (length k'.ringbufs ≡ length k.ringbufs)

      way_out :
          (b : Bool) → Unlocks (elim b [ true ↦ finish vm junk | false ↦ release >> pure failure ])
      way_out true = release-Unlocks success
      way_out false = release-Unlocks failure

  dispatch-Unlocks :
      (name : Chars) (open_flag : ℤ) (addr : ℕ) → Unlocks (dispatch vm junk name open_flag addr)
  unfolding dispatch
  dispatch-Unlocks name open_flag addr k held = elim (Bool-cases (is_zero open_flag)) [
    | inl close ↦
        rw close
          (call-Unlocks (unmap_ringbuf vm junk name addr) (unmap_ringbuf-Stays name addr) k held)
    | inr joining ↦ elim (Option-cases (find k.ringbufs name)) [
      | inl new ↦
          rw (joining, new)
            (call-Unlocks (create_ringbuf vm junk name addr) (create_ringbuf-Stays name addr) k
              held)
      | inr (i, old) ↦
          rw (joining, old)
            (call-Unlocks (append_ringbuf vm junk name addr) (append_ringbuf-Stays name addr) k
              held)
    ]
  ]

  guarded-Unlocks :
      (name : Chars) (open_flag : ℤ) (addr : ℕ) → Unlocks (guarded vm junk name open_flag addr)
  unfolding guarded
  guarded-Unlocks name open_flag addr k held =
      elim (Bool-cases (leb max_ringbufs (get_ringbuf_index k.ringbufs))) [
        | inl full ↦ rw full (release-Unlocks failure k held)
        | inr room ↦ elim (Option-cases (strlen stack_bytes name)) [
          | inl endless ↦ rw (room, endless) tt
          | inr (n, ends) ↦ elim (Bool-cases (ltb ringbuf_name_len n)) [
            | inl long ↦ rw (room, ends, long) (release-Unlocks failure k held)
            | inr short ↦ rw (room, ends, short) (dispatch-Unlocks name open_flag addr k held)
          ]
        ]
      ]

  -- Every run of the system call that returns, by any of its ways out, leaves ringbuf_lock free
  -- and the table as long as it was.
  pub ringbuf-unlocks :
      (name : Chars) (open_flag : ℤ) (addr : ℕ) (k : Kernel S)
      → Ensures
          (λ rc k'. (k'.ringbuf_lock ≡ false) × (length k'.ringbufs ≡ length k.ringbufs))
          (ringbuf vm junk name open_flag addr k)
  unfolding ringbuf
  ringbuf-unlocks name open_flag addr k = elim (Bool-cases k.ringbuf_lock) [
    | inl held ↦ rw (acquire-held k held, ◌>>=◌) tt
    | inr free ↦
        rw (acquire-free k free, ◌>>=◌)
          (guarded-Unlocks name open_flag addr (record k { ringbuf_lock = true }) refl)
  ]

  -- With the lock free and a table of ten rings whose names are not empty every system call, one
  -- that leaves a ring too, returns -1 and changes nothing.
  pub ringbuf-full :
      (name : Chars) (open_flag : ℤ) (addr : ℕ) (k : Kernel S)
      → k.ringbuf_lock ≡ false
      → length k.ringbufs ≡ 10
      → ((i : ℕ) (rb : Ringbuf) → get_elem? k.ringbufs i ≡ some rb → rb.name 0 ≢ 0)
      → ringbuf vm junk name open_flag addr k ≡ ok (failure, k)
  unfolding ringbuf guarded
  ringbuf-full name open_flag addr k free ten named =
      let held : Kernel S = record k { ringbuf_lock = true } in
      let count : leb max_ringbufs (get_ringbuf_index k.ringbufs) ≡ true =
        ground (arith, all_named k.ringbufs named, ten) in
      rw (acquire-free k free, ◌>>=◌)
        (rw count (
          rw (release-held held refl, ◌>>=◌)
            (ap (λ b. ok (failure, record k { ringbuf_lock = b })) (sym free))))
