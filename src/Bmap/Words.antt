-- ===== src/Bmap/Words.antt =====
-- The uint entries of a block: an entry that is written is read back, the others stay.
use zerocopy_ringbuf.Common.{
  ℕ, ◌+◌, ◌*◌, ◌/◌, ◌%◌, ◌^◌, ◌≡◌, ◌≢◌, ◌<◌, refl, true, false, ◌==◌, arith,
}
use zerocopy_ringbuf.Blocks.{Bytes}
use zerocopy_ringbuf.Bmap.{uint_at, byte_of, put_uint}

in_entry : (a : Bytes) (i v j k : ℕ) → j ≡ 4 * i + k → k < 4 → put_uint a i v j ≡ byte_of k v
unfolding put_uint
in_entry a i v j k e lt =
    let at : (j / 4 == i) ≡ true = let q : j / 4 ≡ i = omega (arith, e, lt) in ground (arith, q) in
    let r : j % 4 ≡ k = omega (arith, e, lt) in rw (at, r) refl

off_entry : (a : Bytes) (i v j m k : ℕ) → j ≡ 4 * m + k → k < 4 → m ≢ i → put_uint a i v j ≡ a j
unfolding put_uint
off_entry a i v j m k e lt ne =
    let q : j / 4 ≡ m = omega (arith, e, lt) in
    let off : (j / 4 == i) ≡ false = rw q (ground (arith, ne)) in rw off refl

pub uint_at-put_uint : (a : Bytes) (i v : ℕ) → v < 2 ^ 32 → uint_at (put_uint a i v) i ≡ v
unfolding uint_at byte_of
uint_at-put_uint a i v lt =
    rw
      (
        in_entry a i v (4 * i) 0 (omega arith) (omega arith),
        in_entry a i v (4 * i + 1) 1 refl (omega arith),
        in_entry a i v (4 * i + 2) 2 refl (omega arith),
        in_entry a i v (4 * i + 3) 3 refl (omega arith),
      )
      (omega (arith, lt))

pub uint_at-put_uint_off :
    (a : Bytes) (i v m : ℕ) → m ≢ i → uint_at (put_uint a i v) m ≡ uint_at a m
unfolding uint_at
uint_at-put_uint_off a i v m ne =
    rw
      (
        off_entry a i v (4 * m) m 0 (omega arith) (omega arith) ne,
        off_entry a i v (4 * m + 1) m 1 refl (omega arith) ne,
        off_entry a i v (4 * m + 2) m 2 refl (omega arith) ne,
        off_entry a i v (4 * m + 3) m 3 refl (omega arith) ne,
      )
      refl

-- The entries of a block of zeros.
pub uint_at-zeros : (a : Bytes) (i : ℕ) → i < 256 → ((j : ℕ) → j < 1024 → a j ≡ 0) → uint_at a i ≡ 0
unfolding uint_at
uint_at-zeros a i lt h =
    rw
      (
        h (4 * i) (omega (arith, lt)),
        h (4 * i + 1) (omega (arith, lt)),
        h (4 * i + 2) (omega (arith, lt)),
        h (4 * i + 3) (omega (arith, lt)),
      )
      refl
