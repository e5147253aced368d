-- ===== src/Kstring.antt =====
-- kernel/string.c. A `char` pointer that is only read, or that points at an array of its own, is the
-- view `offset ↦ byte` of what it points at; `memset` and `memmove` work on the memory by address.
-- A `char` of this machine is unsigned.
pub mod Compare
pub mod Memory
mod Tests
use zerocopy_ringbuf.Common.{
  ℕ, zero, suc, ◌+◌, ◌%◌, ◌^◌, ◌&&◌, Option, none, some, ℤ, sub_ℕ, success, ltb, ◌==◌, ◌!=◌,
  if◌then◌else◌,
}

abbrev pub Chars : Type 0
Chars = ℕ → ℕ

abbrev pub put : Chars → ℕ → ℕ → Chars
put s i c j = if j == i then c else s j

-- The rounds of `strncmp` from offset `i` on, with `n` left.
unfoldable pub strncmp_from : ℕ → Chars → Chars → ℕ → ℤ
strncmp_from zero p q i = success
strncmp_from (suc n) p q i =
    let rest = strncmp_from n p q (i + 1) in
    if (p i != 0) && (p i == q i) then rest else sub_ℕ (p i) (q i)

unfoldable pub strncmp : Chars → Chars → ℕ → ℤ
unfolding strncmp_from
strncmp p q n = strncmp_from n p q 0

-- The second loop of `strncpy`, and its first, from offset `i` on with `n` left.
unfoldable pub pad_from : ℕ → Chars → ℕ → Chars
pad_from zero s i = s
pad_from (suc n) s i = pad_from n (put s i 0) (i + 1)

unfoldable pub copy_from : ℕ → Chars → Chars → ℕ → Chars
copy_from zero s t i = s
copy_from (suc n) s t i =
    let rest = copy_from n (put s i (t i)) t (i + 1) in
    if t i != 0 then rest else pad_from n (put s i (t i)) (i + 1)

unfoldable pub strncpy : Chars → Chars → ℕ → Chars
unfolding copy_from pad_from
strncpy s t n = copy_from n s t 0

-- `strlen` reads `bound` bytes at most; `none` is a string that does not end within them.
unfoldable pub strlen_from : ℕ → Chars → ℕ → Option ℕ
strlen_from zero s n = none
strlen_from (suc bound) s n =
    let rest = strlen_from bound s (n + 1) in if s n != 0 then rest else some n

unfoldable pub strlen : ℕ → Chars → Option ℕ
unfolding strlen_from
strlen bound s = strlen_from bound s 0

-- The loop of `safestrcpy`: `--n > 0` is tested with `n` rounds left, and the end is written by 0.
unfoldable pub safe_from : ℕ → Chars → Chars → ℕ → Chars
safe_from zero s t i = put s i 0
safe_from (suc n) s t i =
    let rest = safe_from n (put s i (t i)) t (i + 1) in
    if t i != 0 then rest else put (put s i (t i)) (i + 1) 0

unfoldable pub safestrcpy : Chars → Chars → ℕ → Chars
unfolding safe_from
safestrcpy s t zero = s
safestrcpy s t (suc n) = safe_from n s t 0

unfoldable pub memcmp_from : ℕ → Chars → Chars → ℕ → ℤ
memcmp_from zero p q i = success
memcmp_from (suc n) p q i =
    let rest = memcmp_from n p q (i + 1) in if p i != q i then sub_ℕ (p i) (q i) else rest

unfoldable pub memcmp : Chars → Chars → ℕ → ℤ
unfolding memcmp_from
memcmp p q n = memcmp_from n p q 0

-- The bytes of a memory, by address.
abbrev pub Mem : Type 0
Mem = ℕ → ℕ

-- The `int` that is stored in a byte keeps its low 8 bits.
unfoldable pub memset_from : ℕ → Mem → ℕ → ℕ → ℕ → Mem
memset_from zero m dst c i = m
memset_from (suc n) m dst c i = memset_from n (put m (dst + i) (c % 2 ^ 8)) dst c (i + 1)

unfoldable pub memset : Mem → ℕ → ℕ → ℕ → Mem
unfolding memset_from
memset m dst c n = memset_from n m dst c 0

-- The two loops of `memmove`; `*--d = *--s` copies the byte behind the `n` that are left.
unfoldable pub move_down : ℕ → Mem → ℕ → ℕ → Mem
move_down zero m dst src = m
move_down (suc n) m dst src = move_down n (put m (dst + n) (m (src + n))) dst src

unfoldable pub move_up : ℕ → Mem → ℕ → ℕ → Mem
move_up zero m dst src = m
move_up (suc n) m dst src = move_up n (put m dst (m src)) (dst + 1) (src + 1)

unfoldable pub memmove : Mem → ℕ → ℕ → ℕ → Mem
unfolding move_down move_up
memmove m dst src n =
    if n == 0
    then m
    else if ltb src dst && ltb dst (src + n)
    then move_down n m dst src
    else move_up n m dst src
