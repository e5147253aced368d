-- ===== src/UserRing/Contents.antt =====
-- The bytes of a ring. The buffer is mapped twice in a row, so offset `x` of the mapping is byte
-- `x % capacity` of the buffer, and a run of bytes need not be split at the buffer's end.
use zerocopy_ringbuf.Common.{
  ℕ, zero, suc, ◌+◌, ◌%◌, ◌≤◌, ◌<◌, ◌≡◌, ◌≢◌, refl, ap, ◌∙◌, List, [], ◌∷◌, ◌++◌, length, ◌==◌,
  if◌then◌else◌, arith,
}
use zerocopy_ringbuf.UserRing.Counters.{capacity}
use mathlib.Core.Path.{ap₂}

-- The physical bytes of the buffer, by their place in it.
abbrev pub Buffer : Type 0
Buffer = ℕ → ℕ

-- Writing `xs` from an offset on, as a user does at the address that `start_write` gives.
unfoldable pub write_at : Buffer → ℕ → List ℕ → Buffer
write_at m off [] = m
write_at m off (x ∷ xs) = write_at (λ a. if a == off % capacity then x else m a) (off + 1) xs

-- The `n` bytes from an offset on.
unfoldable pub read_at : Buffer → ℕ → ℕ → List ℕ
read_at m off zero = []
read_at m off (suc n) = m (off % capacity) ∷ read_at m (off + 1) n

-- Offsets are read modulo the capacity.
pub read_at-mod :
    (m : Buffer) (a b n : ℕ) → a % capacity ≡ b % capacity → read_at m a n ≡ read_at m b n
unfolding read_at
read_at-mod m a b zero h = refl
read_at-mod m a b (suc n) h = ap₂ ◌∷◌ (ap m h) (read_at-mod m (a + 1) (b + 1) n (omega arith))

pub write_at-mod :
    (m : Buffer) (a b : ℕ) (xs : List ℕ)
    → a % capacity ≡ b % capacity
    → write_at m a xs ≡ write_at m b xs
unfolding write_at
write_at-mod m a b [] h = refl
write_at-mod m a b (x ∷ xs) h =
    rw h (write_at-mod (λ c. if c == b % capacity then x else m c) (a + 1) (b + 1) xs (omega arith))

pub read_at-add :
    (m : Buffer) (off n k : ℕ) → read_at m off (n + k) ≡ read_at m off n ++ read_at m (off + n) k
unfolding read_at
read_at-add m off zero k =
    let e : off + 0 ≡ off = omega arith in let e' : 0 + k ≡ k = omega arith in rw (e, e')
read_at-add m off (suc n) k =
    let e : suc n + k ≡ suc (n + k) = omega arith in
    let e' : off + suc n ≡ off + 1 + n = omega arith in
    rw (e, e') (ap (◌∷◌ (m (off % capacity))) (read_at-add m (off + 1) n k))

-- A byte that no write hits is kept.
write_at-other :
    (m : Buffer) (off : ℕ) (xs : List ℕ) (p : ℕ)
    → ((i : ℕ) → i < length xs → (off + i) % capacity ≢ p)
    → write_at m off xs p ≡ m p
unfolding write_at
write_at-other m off [] p h = refl
write_at-other m off (x ∷ xs) p h =
    write_at-other (λ a. if a == off % capacity then x else m a) (off + 1) xs p
      (λ i lt e. h (i + 1) (omega arith) (omega arith))
    ∙ ground (arith, h 0 (omega arith))

pub read_at-write_at_self :
    (m : Buffer) (off : ℕ) (xs : List ℕ)
    → length xs ≤ capacity
    → read_at (write_at m off xs) off (length xs) ≡ xs
unfolding read_at write_at
read_at-write_at_self m off [] h = refl
read_at-write_at_self m off (x ∷ xs) h =
    ap₂ ◌∷◌ (write_at-other _ (off + 1) xs (off % capacity) (λ i lt e. omega arith) ∙ ground arith)
      (read_at-write_at_self (λ a. if a == off % capacity then x else m a) (off + 1) xs
        (omega arith))

-- What is written behind a window leaves the window's bytes.
pub read_at-write_at_before :
    (m : Buffer) (a off k : ℕ) (xs : List ℕ)
    → a + k ≤ off
    → off + length xs ≤ a + capacity
    → read_at (write_at m off xs) a k ≡ read_at m a k
unfolding read_at
read_at-write_at_before m a off zero xs hk h = refl
read_at-write_at_before m a off (suc k) xs hk h =
    ap₂ ◌∷◌ (write_at-other m off xs (a % capacity) (λ i lt e. omega arith))
      (read_at-write_at_before m (a + 1) off k xs (omega arith) (omega arith))

-- Writing just behind a window of `n` bytes extends it by what is written.
pub read_at-write_at :
    (m : Buffer) (r n : ℕ) (xs : List ℕ)
    → n + length xs ≤ capacity
    → read_at (write_at m (r + n) xs) r (n + length xs) ≡ read_at m r n ++ xs
read_at-write_at m r n xs h =
    read_at-add (write_at m (r + n) xs) r n (length xs)
    ∙ ap₂ ◌++◌ (read_at-write_at_before m r (r + n) n xs (omega arith) (omega arith))
        (read_at-write_at_self m (r + n) xs (omega arith))
