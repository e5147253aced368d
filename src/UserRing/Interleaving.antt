-- ===== src/UserRing/Interleaving.antt =====
-- One producer and one consumer in two processes that share a book page: the atomic loads and
-- stores of the finish functions of user/ringbuf.c, in any order.
use zerocopy_ringbuf.Common.{
  ℕ, ◌*◌, ◌^◌, ◌≤◌, ◌<◌, ◌≡◌, ℤ, pos, to_u64, add64, sub64, Bool, true, false, ltb, leb, arith,
  refl, inl, inr, ok, exit, Bool-cases,
}
use mathlib.Core.Path.{subst}
use zerocopy_ringbuf.UserRing.{
  usr_ringbuf_size, pgsize, UserRingBuf, Process, finish_write, finish_read, store,
}
use zerocopy_ringbuf.UserRing.Counters.{
  capacity, reads, writes, IsOpen, finish_write-eq, finish_read-eq,
}

-- How far a process is: between two calls, or behind the first or the second load of one, with the
-- values that it loaded. `gone` is a producer that left by `exit(1)`.
pub data Side : Type 0 where
  idle : Side
  has_read : ℕ → Side
  has_both : ℕ → ℕ → Side
  gone : Side

pub record Shared : Type 0 where
  pub read_done : ℕ
  pub write_done : ℕ
  pub producer : Side
  pub consumer : Side

-- The tests of `ringbuf_finish_write` and `ringbuf_finish_read` on the loaded values.
abbrev pub refuses_write : ℕ → ℕ → ℤ → Bool
refuses_write r w bytes = ltb (sub64 (usr_ringbuf_size * pgsize) (sub64 w r)) (to_u64 bytes)

abbrev pub refuses_read : ℕ → ℕ → ℤ → Bool
refuses_read r w bytes = ltb (sub64 w r) (to_u64 bytes)

pub data Step (s : Shared) : Shared → Type 0 where
  producer_read : s.producer ≡ idle → Step s (record s { producer = has_read s.read_done })
  producer_write :
      (r : ℕ) → s.producer ≡ has_read r → Step s (record s { producer = has_both r s.write_done })
  producer_exit :
      (r w : ℕ) (bytes : ℤ)
      → s.producer ≡ has_both r w
      → refuses_write r w bytes ≡ true
      → Step s (record s { producer = gone })
  producer_store :
      (r w : ℕ) (bytes : ℤ)
      → s.producer ≡ has_both r w
      → refuses_write r w bytes ≡ false
      → Step s (record s { producer = idle; write_done = add64 w (to_u64 bytes) })
  consumer_read : s.consumer ≡ idle → Step s (record s { consumer = has_read s.read_done })
  consumer_write :
      (r : ℕ) → s.consumer ≡ has_read r → Step s (record s { consumer = has_both r s.write_done })
  consumer_return :
      (r w : ℕ) (bytes : ℤ)
      → s.consumer ≡ has_both r w
      → refuses_read r w bytes ≡ true
      → Step s (record s { consumer = idle })
  consumer_keep :
      (r w : ℕ) (bytes : ℤ)
      → s.consumer ≡ has_both r w
      → refuses_read r w bytes ≡ false
      → leb (to_u64 bytes) w ≡ false
      → Step s (record s { consumer = idle })
  consumer_store :
      (r w : ℕ) (bytes : ℤ)
      → s.consumer ≡ has_both r w
      → refuses_read r w bytes ≡ false
      → leb (to_u64 bytes) w ≡ true
      → Step s (record s { consumer = idle; read_done = add64 r (to_u64 bytes) })

pub data Reach (s : Shared) : Shared → Type 0 where
  here : Reach s s
  next : {t u : Shared} → Reach s t → Step t u → Reach s u

-- What a producer has loaded: an old `read_done`, and the `write_done` that only it changes.
abbrev pub ProducerOk : Shared → Side → Type 0
ProducerOk s idle = Unit
ProducerOk s (has_read r) =
    (r < 2 ^ 64)
    × (sub64 s.write_done s.read_done ≤ sub64 s.write_done r)
    × (sub64 s.write_done r ≤ capacity)
ProducerOk s (has_both r w) =
    (r < 2 ^ 64)
    × (w ≡ s.write_done)
    × (sub64 s.write_done s.read_done ≤ sub64 s.write_done r)
    × (sub64 s.write_done r ≤ capacity)
ProducerOk s gone = Unit

-- What a consumer has loaded: its own `read_done`, and an old `write_done`.
abbrev pub ConsumerOk : Shared → Side → Type 0
ConsumerOk s idle = Unit
ConsumerOk s (has_read r) = r ≡ s.read_done
ConsumerOk s (has_both r w) =
    (r ≡ s.read_done) × (w < 2 ^ 64) × (sub64 w s.read_done ≤ sub64 s.write_done s.read_done)
ConsumerOk s gone = Unit

pub record IsSafe (s : Shared) : Type 0 where
  pub read_word : s.read_done < 2 ^ 64
  pub write_word : s.write_done < 2 ^ 64
  pub fits : sub64 s.write_done s.read_done ≤ capacity
  pub producer_ok : ProducerOk s s.producer
  pub consumer_ok : ConsumerOk s s.consumer

pub Step-IsSafe : {s t : Shared} → Step s t → IsSafe s → IsSafe t
Step-IsSafe {s} (producer_read e) v = ground arith
Step-IsSafe {s} (producer_write r e) v = ground arith
Step-IsSafe {s} (producer_exit r w n e q) v = ground arith
Step-IsSafe {s} (producer_store r w n e q) v = ground arith
Step-IsSafe {s} (consumer_read e) v = ground arith
Step-IsSafe {s} (consumer_write r e) v = ground arith
Step-IsSafe {s} (consumer_return r w n e q) v = ground arith
Step-IsSafe {s} (consumer_keep r w n e q l) v = ground arith
Step-IsSafe {s} (consumer_store r w n e q l) v = ground arith

-- From a safe state every interleaving of the atomic loads and stores of one producer's and one
-- consumer's finish calls leads to a safe state: the ring holds no more than its capacity, and
-- what either side has loaded is still consistent with the shared counters.
pub Reach-IsSafe : {s t : Shared} → IsSafe s → Reach s t → IsSafe t
Reach-IsSafe v here = v
Reach-IsSafe v (next r st) = Step-IsSafe st (Reach-IsSafe v r)

-- The shared words as process `s` has them mapped, between two calls of its own.
abbrev pub view : Process → UserRingBuf → Side → Side → Shared
view s rb p c = record {
  read_done = reads s rb;
  write_done = writes s rb;
  producer = p;
  consumer = c;
}

module _ {s s' : Process} {rd : ℕ} {rb : UserRingBuf} (o : IsOpen s rd rb) where
  -- A call of finish_write on an open ring that returns is a run of the producer's atomic steps,
  -- whatever the consumer is doing.
  pub finish_write-Reach :
      (bytes : ℤ) (c : Side)
      → finish_write (pos rd) bytes s ≡ ok (tt, s')
      → Reach (view s rb idle c) (view s' rb idle c)
  unfolding store
  finish_write-Reach bytes c e =
      elim (Bool-cases (refuses_write (reads s rb) (writes s rb) bytes)) [
        | inl refused ↦ absurd (ground (arith, finish_write-eq o bytes))
        | inr fits ↦ subst (Reach (view s rb idle c)) (ground (arith, finish_write-eq o bytes)) (
            next (next (next here (producer_read refl)) (producer_write (reads s rb) refl))
              (producer_store (reads s rb) (writes s rb) bytes refl fits))
      ]

  -- A call of finish_read on an open ring that returns is a run of the consumer's atomic steps,
  -- whatever the producer is doing.
  finish_read-Reach :
      (bytes : ℤ) (p : Side)
      → finish_read (pos rd) bytes s ≡ ok (tt, s')
      → Reach (view s rb p idle) (view s' rb p idle)
  unfolding store
  finish_read-Reach bytes p e = elim (Bool-cases (refuses_read r w bytes)) [
    | inl refused ↦
        subst (Reach (view s rb p idle)) (ground (arith, finish_read-eq o bytes))
          (next loaded (consumer_return r w bytes refl refused))
    | inr fits ↦ elim (Bool-cases (leb (to_u64 bytes) w)) [
      | inl stores ↦
          subst (Reach (view s rb p idle)) (ground (arith, finish_read-eq o bytes))
            (next loaded (consumer_store r w bytes refl fits stores))
      | inr keeps ↦
          subst (Reach (view s rb p idle)) (ground (arith, finish_read-eq o bytes))
            (next loaded (consumer_keep r w bytes refl fits keeps))
    ]
  ]
    where
      r : ℕ
      r = reads s rb

      w : ℕ
      w = writes s rb

      loaded : Reach (view s rb p idle) (view s rb p (has_both r w))
      loaded = next (next here (consumer_read refl)) (consumer_write r refl)

-- A call of `ringbuf_finish_write` that leaves the process is a run to `gone`.
module _ {s : Process} {rd : ℕ} {rb : UserRingBuf} (o : IsOpen s rd rb) where
  pub finish_write-gone :
      (bytes : ℤ) (c : Side)
      → finish_write (pos rd) bytes s ≡ exit 1
      → Reach (view s rb idle c) (view s rb gone c)
  unfolding store
  finish_write-gone bytes c e = elim (Bool-cases (refuses_write (reads s rb) (writes s rb) bytes)) [
    | inl refused ↦
        next (next (next here (producer_read refl)) (producer_write (reads s rb) refl))
          (producer_exit (reads s rb) (writes s rb) bytes refl refused)
    | inr fits ↦ absurd (ground (arith, finish_write-eq o bytes))
  ]
