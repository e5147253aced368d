-- ===== src/Words.antt =====
-- The 64-bit words of the kernel's byte memory: what a load and a store through a `uint64 *` or a
-- pointer to pointers do on this little-endian machine.
use zerocopy_ringbuf.Common.{
  ℕ, zero, suc, ◌+◌, ◌*◌, ◌%◌, ◌/◌, ◌^◌, ◌<◌, ◌≤◌, ◌≡◌, refl, true, false, ◌⊎◌, arith,
}
use zerocopy_ringbuf.Kstring.{Mem, put}
use zerocopy_ringbuf.Kstring.Memory.{within}

-- `n` bytes from `a` on, the lowest first.
unfoldable pub load_bytes : ℕ → Mem → ℕ → ℕ
load_bytes zero m a = 0
load_bytes (suc n) m a = m a + 256 * load_bytes n m (a + 1)

unfoldable pub store_bytes : ℕ → Mem → ℕ → ℕ → Mem
store_bytes zero m a v = m
store_bytes (suc n) m a v = store_bytes n (put m a (v % 256)) (a + 1) (v / 256)

unfoldable pub load_word : Mem → ℕ → ℕ
unfolding load_bytes
load_word m a = load_bytes 8 m a

unfoldable pub store_word : Mem → ℕ → ℕ → Mem
unfolding store_bytes
store_word m a v = store_bytes 8 m a v

-- The first number that `n` bytes do not hold.
abbrev bound : ℕ → ℕ
bound zero = 1
bound (suc n) = 256 * bound n

store_bytes-outside :
    (n : ℕ) (m : Mem) (a v b : ℕ) → within a n b ≡ false → store_bytes n m a v b ≡ m b
unfolding store_bytes
store_bytes-outside zero m a v b h = refl
store_bytes-outside (suc n) m a v b h =
    ground (arith, store_bytes-outside n (put m a (v % 256)) (a + 1) (v / 256) b)

load_bytes-store_bytes :
    (n : ℕ) (m : Mem) (a v : ℕ) → v < bound n → load_bytes n (store_bytes n m a v) a ≡ v
unfolding load_bytes store_bytes
load_bytes-store_bytes zero m a v h = omega arith
load_bytes-store_bytes (suc n) m a v h = ground (
  arith,
  store_bytes-outside n (put m a (v % 256)) (a + 1) (v / 256) a,
  load_bytes-store_bytes n (put m a (v % 256)) (a + 1) (v / 256) (omega arith),
)

load_bytes-same :
    (n : ℕ) (m m' : Mem) (a : ℕ)
    → ((b : ℕ) → within a n b ≡ true → m b ≡ m' b)
    → load_bytes n m a ≡ load_bytes n m' a
unfolding load_bytes
load_bytes-same zero m m' a h = refl
load_bytes-same (suc n) m m' a h =
    ground (arith, h a, load_bytes-same n m m' (a + 1) (λ b w. h b (ground arith)))

load_bytes-zero :
    (n : ℕ) (m : Mem) (a : ℕ) → ((b : ℕ) → within a n b ≡ true → m b ≡ 0) → load_bytes n m a ≡ 0
unfolding load_bytes
load_bytes-zero zero m a h = refl
load_bytes-zero (suc n) m a h =
    ground (arith, h a, load_bytes-zero n m (a + 1) (λ b w. h b (ground arith)))

pub store_word-outside : (m : Mem) (a v b : ℕ) → within a 8 b ≡ false → store_word m a v b ≡ m b
unfolding store_word
store_word-outside m a v b h = store_bytes-outside 8 m a v b h

pub load_word-store_word_self :
    (m : Mem) (a v : ℕ) → v < 2 ^ 64 → load_word (store_word m a v) a ≡ v
unfolding load_word store_word
load_word-store_word_self m a v h = load_bytes-store_bytes 8 m a v h

pub load_word-same :
    (m m' : Mem) (a : ℕ)
    → ((b : ℕ) → within a 8 b ≡ true → m b ≡ m' b)
    → load_word m a ≡ load_word m' a
unfolding load_word
load_word-same m m' a h = load_bytes-same 8 m m' a h

pub load_word-store_word_ne :
    (m : Mem) (a b v : ℕ)
    → (a + 8 ≤ b) ⊎ (b + 8 ≤ a)
    → load_word (store_word m a v) b ≡ load_word m b
load_word-store_word_ne m a b v h =
    load_word-same (store_word m a v) m b (λ c w. store_word-outside m a v c (ground arith))

pub load_word-zero :
    (m : Mem) (a : ℕ) → ((b : ℕ) → within a 8 b ≡ true → m b ≡ 0) → load_word m a ≡ 0
unfolding load_word
load_word-zero m a h = load_bytes-zero 8 m a h
