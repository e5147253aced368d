-- ===== src/Ringbufs/Keeps.antt =====
-- What the calls of kernel/ringbuf.c keep of the kernel's state, and rules for their parts.
use zerocopy_ringbuf.Common.{
  ℕ, ◌≡◌, refl, Bool, true, false, Option, none, some, arith, if◌then◌else◌, ok, panic, exit, fault,
  Cmd, pure, ◌>>=◌, Ensures, Ensures-bind, Ensures-mono, get_elem?, set, length, ◌∙◌, length-set,
}
use zerocopy_ringbuf.Ringbufs.{Ringbuf, Kernel, lift, acquire, release, put_ringbuf, ringbuf_at}

-- No call but `ringbuf` touches the lock, and none the page table's root or the table's length.
pub record Keeps {S : Type 0} (k k' : Kernel S) : Type 0 where
  pub lock : k'.ringbuf_lock ≡ k.ringbuf_lock
  pub root : k'.pagetable ≡ k.pagetable
  pub size : length k'.ringbufs ≡ length k.ringbufs

module _ {S : Type 0} where
  pub Keeps-trans : {k l m : Kernel S} → Keeps k l → Keeps l m → Keeps k m
  Keeps-trans p q = record {
    lock = q.lock ∙ p.lock;
    root = q.root ∙ p.root;
    size = q.size ∙ p.size;
  }

  pub lift-Keeps :
      {A : Type 0} (c : Cmd S A) (k : Kernel S)
      → Ensures (λ _ k'. Keeps k k' × (k'.ringbufs ≡ k.ringbufs)) (lift c k)
  unfolding lift
  lift-Keeps c k =
      elim (c k.machine)
        as (λ o.
          Ensures (λ _ k'. Keeps k k' × (k'.ringbufs ≡ k.ringbufs))
            (elim o [
              | ok (a, s) ↦ ok (a, record k { machine = s })
              | panic ↦ panic
              | exit n ↦ exit n
              | fault ↦ fault
            ])) [
              | ok r ↦ (record { lock = refl; root = refl; size = refl }, refl)
              | panic ↦ tt
              | exit n ↦ tt
              | fault ↦ tt
            ]

  pub put_ringbuf-Keeps :
      (i : ℕ) (rb : Ringbuf) (k : Kernel S) → Ensures (λ _ k'. Keeps k k') (put_ringbuf i rb k)
  unfolding put_ringbuf
  put_ringbuf-Keeps i rb k =
      elim (get_elem? k.ringbufs i)
        as (λ o.
          Ensures (λ _ k'. Keeps k k')
            (elim o [
              | none ↦ fault
              | some _ ↦ ok (tt {0}, record k { ringbufs = set k.ringbufs i rb })
            ])) [
              | none ↦ tt
              | some x ↦ record { lock = refl; root = refl; size = length-set k.ringbufs i rb }
            ]

  pub acquire-free :
      (k : Kernel S)
      → k.ringbuf_lock ≡ false
      → acquire k ≡ ok (tt, record k { ringbuf_lock = true })
  unfolding acquire
  acquire-free k h = ground arith

  pub acquire-held : (k : Kernel S) → k.ringbuf_lock ≡ true → acquire k ≡ panic
  unfolding acquire
  acquire-held k h = ground arith

  pub release-held :
      (k : Kernel S)
      → k.ringbuf_lock ≡ true
      → release k ≡ ok (tt, record k { ringbuf_lock = false })
  unfolding release
  release-held k h = ground arith

  -- Every run of `c` that returns keeps these.
  abbrev pub Stays : {A : Type 0} → Cmd (Kernel S) A → Type 0
  Stays c = (k : Kernel S) → Ensures (λ _ k'. Keeps k k') (c k)

  pub Stays-pure : {A : Type 0} (a : A) → Stays (pure a)
  Stays-pure a k = record { lock = refl; root = refl; size = refl }

  pub Stays-bind :
      {A B : Type 0} (m : Cmd (Kernel S) A) (f : A → Cmd (Kernel S) B)
      → Stays m
      → ((a : A) → Stays (f a))
      → Stays (m >>= f)
  Stays-bind m f h g k =
      Ensures-bind (λ _ k'. Keeps k k') (λ _ k'. Keeps k k') m f k (h k)
        (λ a k' p.
          Ensures-mono (λ _ k''. Keeps k' k'') (λ _ k''. Keeps k k'') (f a k') (g a k')
            (λ _ k'' q. Keeps-trans p q))

  pub Stays-elim :
      {A : Type 0} (b : Bool) (x y : Cmd (Kernel S) A)
      → Stays x
      → Stays y
      → Stays (elim b [ true ↦ x | false ↦ y ])
  Stays-elim true x y h g = h
  Stays-elim false x y h g = g

  pub Stays-if :
      {A : Type 0} (b : Bool) (x y : Cmd (Kernel S) A)
      → Stays x
      → Stays y
      → Stays (if b then x else y)
  Stays-if true x y h g = h
  Stays-if false x y h g = g

  pub Stays-option :
      {A : Type 0} (o : Option ℕ) (x : Cmd (Kernel S) A) (y : ℕ → Cmd (Kernel S) A)
      → Stays x
      → ((i : ℕ) → Stays (y i))
      → (k : Kernel S) → Ensures (λ _ k'. Keeps k k') (elim o [ none ↦ x k | some i ↦ y i k ])
  Stays-option none x y h g k = h k
  Stays-option (some i) x y h g k = g i k

  pub Stays-lift : {A : Type 0} (c : Cmd S A) → Stays (lift c)
  Stays-lift c k = Ensures-mono _ (λ _ k'. Keeps k k') (lift c k) (lift-Keeps c k) (λ _ k' h. h.0)

  pub Stays-at : (i : ℕ) → Stays (ringbuf_at i)
  unfolding ringbuf_at
  Stays-at i k =
      elim (get_elem? k.ringbufs i)
        as (λ o. Ensures (λ _ k'. Keeps k k') (elim o [ none ↦ fault | some rb ↦ ok (rb, k) ])) [
          | none ↦ tt
          | some x ↦ record { lock = refl; root = refl; size = refl }
        ]
