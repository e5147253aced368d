-- ===== src/Ringbufs/Entries.antt =====
-- What creating and leaving a ring buffer do to the entries of the kernel's table.
use zerocopy_ringbuf.Common.{
  ℕ, ◌≡◌, refl, sym, ap, Bool, true, false, ◌&&◌, some, ℤ, pos, is_zero, success, failure, incr,
  decr, arith, if◌then◌else◌, pure, ◌>>=◌, ◌>>◌, Ensures, Ensures-bind, Ensures-mono, get_elem?,
}
use mathlib.Core.Path.{subst}
use zerocopy_ringbuf.Kstring.{Chars, strncpy}
use zerocopy_ringbuf.Paging.{Paging}
use zerocopy_ringbuf.Ringbufs.{Ringbuf, Kernel, get_ringbuf_index, put_ringbuf, lift, empty}
use zerocopy_ringbuf.Ringbufs.Calls.{
  create_pages, enter_ringbuf, create_ringbuf, leave_ringbuf, free_ringbuf, unmap_pages,
  unmap_ringbuf_pmem,
}
use zerocopy_ringbuf.Ringbufs.Rules.{Ensures-elim, Ensures-true}
use zerocopy_ringbuf.Ringbufs.Keeping.{create_pages-SameRing}
use zerocopy_ringbuf.Ringbufs.SameRing.{SameRing}
use zerocopy_ringbuf.Ringbufs.Entry.{
  Entry, lift-Ensures, put_ringbuf-Entry, ringbuf_at-some, Entry-at, Entry-after, Entry-trans,
}

module _ {S : Type 0} (vm : Paging S) (junk : Ringbuf) where
  enter_ringbuf-Entry :
      (rb : Ringbuf) (k : Kernel S)
      → Ensures
          (λ rc k'.
            Entry (get_ringbuf_index k.ringbufs) k (record rb { refcount = incr rb.refcount }) k'
            × (rc ≡ success))
          (enter_ringbuf vm junk rb k)
  unfolding enter_ringbuf
  enter_ringbuf-Entry rb k =
      let new : Ringbuf = record rb { refcount = incr rb.refcount } in
      Ensures-bind (λ _ k'. Entry (get_ringbuf_index k.ringbufs) k new k')
        (λ rc k'. Entry (get_ringbuf_index k.ringbufs) k new k' × (rc ≡ success))
        (put_ringbuf (get_ringbuf_index k.ringbufs) new) (λ _. pure success) k
        (put_ringbuf-Entry (get_ringbuf_index k.ringbufs) new k) (λ _ k' h. (h, refl))

  free_ringbuf-Entry :
      (i : ℕ) (rb : Ringbuf) (k k1 : Kernel S)
      → Entry i k rb k1
      → Ensures
          (λ rc k'.
            (rc ≡ success)
            × Entry i k
                (if is_zero rb.refcount then record rb { name = strncpy rb.name empty 16 } else rb)
                k')
          (free_ringbuf vm junk i rb k1)
  unfolding free_ringbuf
  free_ringbuf-Entry i rb k k1 e = go (is_zero rb.refcount)
    where
      gone : Ringbuf
      gone = record rb { name = strncpy rb.name empty 16 }

      go :
          (b : Bool)
          → Ensures
              (λ rc k'. (rc ≡ success) × Entry i k (if b then gone else rb) k')
              ((if b
                  then (do put_ringbuf i gone; lift (unmap_ringbuf_pmem vm junk rb); pure success)
                  else pure success)
                k1)
      go false = (refl, e)
      go true =
          Ensures-bind (λ _ k2. Entry i k1 gone k2) (λ rc k'. (rc ≡ success) × Entry i k gone k')
            (put_ringbuf i gone) _ k1 (put_ringbuf-Entry i gone k1)
            (λ _ k2 e2.
              Ensures-bind (λ _ k3. Unit {0} × (k3.ringbufs ≡ k2.ringbufs))
                (λ rc k'. (rc ≡ success) × Entry i k gone k') (lift (unmap_ringbuf_pmem vm junk rb))
                _ k2
                (lift-Ensures (λ _ _. Unit {0}) (unmap_ringbuf_pmem vm junk rb) k2
                  (Ensures-true _ (unmap_ringbuf_pmem vm junk rb k2.machine) (λ _ _. tt)))
                (λ _ k3 h. (refl, Entry-after h.1 (Entry-trans e e2))))

  -- A new ring is counted once, under its name, in the entry whose number is the number of named
  -- entries, whatever stands there; a call that fails leaves the table as it is.
  pub record Created (name : Chars) (k : Kernel S) (rc : ℤ) (k' : Kernel S) : Type 0 where
    pub made :
        is_zero rc ≡ true
        → (rb : Ringbuf) × Entry (get_ringbuf_index k.ringbufs) k rb k'
          × (rb.refcount ≡ pos 1)
          × (rb.name ≡ strncpy junk.name name 16)
    pub failed : is_zero rc ≡ false → k'.ringbufs ≡ k.ringbufs

  -- A run of create_ringbuf that returns 0 writes a ring with count 1 and the copied name to the
  -- entry whose number is the number of named rings, whatever stands there, and no other entry
  -- changes; a run that returns another value leaves the table.
  pub create_ringbuf-Created :
      (name : Chars) (addr : ℕ) (k : Kernel S)
      → Ensures (λ rc k'. Created name k rc k') (create_ringbuf vm junk name addr k)
  unfolding create_ringbuf
  create_ringbuf-Created name addr k =
      Ensures-bind (λ r k1. SameRing new r.1 × (k1.ringbufs ≡ k.ringbufs)) Q
        (lift (create_pages vm junk k.pagetable name addr)) _ k
        (lift-Ensures (λ r _. SameRing new r.1) (create_pages vm junk k.pagetable name addr) k
          (create_pages-SameRing vm junk k.pagetable name addr k.machine))
        (λ (rc, rb) k1 h.
          Ensures-elim Q (is_zero rc) (enter_ringbuf vm junk rb) (pure failure) k1
            (λ _. entered rb k1 h.0 h.1)
            (λ _. record { made = λ z. absurd (cc); failed = λ _. h.1 }))
    where
      new : Ringbuf
      new = record junk { refcount = pos 0; name = strncpy junk.name name 16 }

      Q : ℤ → Kernel S → Type 0
      Q rc k' = Created name k rc k'

      entered :
          (rb : Ringbuf) (k1 : Kernel S)
          → SameRing new rb
          → k1.ringbufs ≡ k.ringbufs
          → Ensures Q (enter_ringbuf vm junk rb k1)
      entered rb k1 same e =
          Ensures-mono
            (λ rc k'.
              Entry (get_ringbuf_index k1.ringbufs) k1 (record rb { refcount = incr rb.refcount })
                k'
              × (rc ≡ success))
            Q (enter_ringbuf vm junk rb k1) (enter_ringbuf-Entry rb k1)
            (λ rc k' h. record {
              made = λ _. (
                record rb { refcount = incr rb.refcount },
                Entry-at e h.0,
                ap incr same.refs,
                same.named,
              );
              failed = λ z. absurd (subst (λ r. is_zero r ≡ false → ⊥) (sym h.1) (λ q. cc) z);
            })

  -- What a call to leave does to the entry on every run that returns, also on one that fails: one
  -- process less, and the name goes with the last of a call that succeeds.
  pub record Left (i : ℕ) (old : Ringbuf) (k : Kernel S) (rc : ℤ) (k' : Kernel S) : Type 0 where
    pub now : Ringbuf
    pub entry : Entry i k now k'
    pub refs : now.refcount ≡ decr old.refcount
    pub named : now.name ≡ (
        if is_zero rc && is_zero (decr old.refcount) then strncpy old.name empty 16 else old.name)

  -- Every run of leave_ringbuf that returns, also with a failure, takes one from the entry's
  -- count; the name is cleared in a successful run that brings the count to 0 and kept in every
  -- other; no other entry changes.
  pub leave_ringbuf-Left :
      (i addr : ℕ) (old : Ringbuf) (k : Kernel S)
      → get_elem? k.ringbufs i ≡ some old
      → Ensures (λ rc k'. Left i old k rc k') (leave_ringbuf vm junk i addr k)
  unfolding leave_ringbuf
  leave_ringbuf-Left i addr old k here =
      rw (ringbuf_at-some i old k here, ◌>>=◌)
        (Ensures-bind (λ _ k1. Entry i k rb k1) Q (put_ringbuf i rb) _ k (put_ringbuf-Entry i rb k)
          (λ _ k1 e.
            Ensures-bind (λ _ k2. Entry i k rb k2) Q (lift (unmap_pages vm junk k.pagetable addr)) _
              k1
              (Ensures-mono _ (λ _ k2. Entry i k rb k2)
                (lift (unmap_pages vm junk k.pagetable addr) k1)
                (lift-Ensures (λ _ _. Unit {0}) (unmap_pages vm junk k.pagetable addr) k1
                  (Ensures-true _ (unmap_pages vm junk k.pagetable addr k1.machine) (λ _ _. tt)))
                (λ _ k2 h. Entry-after h.1 e))
              (λ rc k2 e2.
                Ensures-elim Q (is_zero rc) (free_ringbuf vm junk i rb) (pure failure) k2
                  (λ _.
                    Ensures-mono _ Q (free_ringbuf vm junk i rb k2)
                      (free_ringbuf-Entry i rb k k2 e2)
                      (λ rc' k' h. record {
                        now = _;
                        entry = h.1;
                        refs = now_refs;
                        named = rw h.0 now_named;
                      }))
                  (λ _. record { now = rb; entry = e2; refs = refl; named = refl }))))
    where
      rb : Ringbuf
      rb = record old { refcount = decr old.refcount }

      Q : ℤ → Kernel S → Type 0
      Q rc k' = Left i old k rc k'

      now : Ringbuf
      now = if is_zero rb.refcount then record rb { name = strncpy rb.name empty 16 } else rb

      now_refs : now.refcount ≡ decr old.refcount
      now_refs = ground arith

      now_named :
          now.name ≡ (if is_zero (decr old.refcount) then strncpy old.name empty 16 else old.name)
      now_named = ground arith
