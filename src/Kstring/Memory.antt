-- ===== src/Kstring/Memory.antt =====
-- `memset` and `memmove` of kernel/string.c, byte by byte of the memory that they leave.
use zerocopy_ringbuf.Common.{
  ℕ, zero, suc, ◌+◌, ◌-◌, ◌%◌, ◌^◌, ◌≤◌, ◌≡◌, ◌⊎◌, Bool, ◌&&◌, arith, ltb, leb, if◌then◌else◌,
}
use zerocopy_ringbuf.Kstring.{Mem, put, memset, memset_from, memmove, move_down, move_up}

-- Whether `a` is one of the `n` addresses from `start` on.
abbrev pub within : ℕ → ℕ → ℕ → Bool
within start n a = leb start a && ltb a (start + n)

memset_from-at :
    (n : ℕ) (m : Mem) (dst c i a : ℕ)
    → memset_from n m dst c i a ≡ (if within (dst + i) n a then c % 2 ^ 8 else m a)
unfolding memset_from
memset_from-at zero m dst c i a = ground arith
memset_from-at (suc n) m dst c i a =
    ground (arith, memset_from-at n (put m (dst + i) (c % 2 ^ 8)) dst c (i + 1) a)

-- After memset the n bytes of the target are the low byte of the value, and every other byte is
-- unchanged.
pub memset-at :
    (m : Mem) (dst c n a : ℕ) → memset m dst c n a ≡ (if within dst n a then c % 2 ^ 8 else m a)
unfolding memset
memset-at m dst c n a = ground (arith, memset_from-at n m dst c 0 a)

-- From the top down, the bytes that are still to be copied lie below all that was written.
move_down-at :
    (n : ℕ) (m : Mem) (dst src a : ℕ)
    → src ≤ dst
    → move_down n m dst src a ≡ (if within dst n a then m (src + (a - dst)) else m a)
unfolding move_down
move_down-at zero m dst src a h = ground arith
move_down-at (suc n) m dst src a h =
    ground (arith, move_down-at n (put m (dst + n) (m (src + n))) dst src a)

move_up-at :
    (n : ℕ) (m : Mem) (dst src a : ℕ)
    → (dst ≤ src) ⊎ (src + n ≤ dst)
    → move_up n m dst src a ≡ (if within dst n a then m (src + (a - dst)) else m a)
unfolding move_up
move_up-at zero m dst src a h = ground arith
move_up-at (suc n) m dst src a h =
    ground (arith, move_up-at n (put m dst (m src)) (dst + 1) (src + 1) a)

-- After memmove the n bytes of the target are what the n bytes of the source were before, also
-- where the two ranges overlap, and every other byte is unchanged.
pub memmove-at :
    (m : Mem) (dst src n a : ℕ)
    → memmove m dst src n a ≡ (if within dst n a then m (src + (a - dst)) else m a)
unfolding memmove
memmove-at m dst src n a = ground (arith, move_down-at n m dst src a, move_up-at n m dst src a)
