-- ===== src/Blocks/Bits.antt =====
-- Setting and clearing a bit changes that bit.
use zerocopy_ringbuf.Common.{
  ℕ, zero, suc, ◌+◌, ◌*◌, ◌/◌, ◌%◌, ◌≡◌, ap, ◌∙◌, ◌||◌, ◌&&◌, ◌==◌, ◌!=◌, arith,
}
use zerocopy_ringbuf.Blocks.{bit, set_bit, clear_bit}

half : (r w : ℕ) → (r % 2 + 2 * w) / 2 ≡ w
half r w = omega arith

pub bit-set_bit : (j k v : ℕ) → bit j (set_bit k v) ≡ ((j == k) || bit j v)
unfolding bit set_bit
bit-set_bit zero zero v = ground arith
bit-set_bit zero (suc k) v = ground arith
bit-set_bit (suc j) zero v =
    let e : (v / 2 * 2 + 1) / 2 ≡ v / 2 = omega arith in ap (bit j) e ∙ ground arith
bit-set_bit (suc j) (suc k) v =
    ap (bit j) (half v (set_bit k (v / 2))) ∙ bit-set_bit j k (v / 2) ∙ ground arith

pub bit-clear_bit : (j k v : ℕ) → bit j (clear_bit k v) ≡ ((j != k) && bit j v)
unfolding bit clear_bit
bit-clear_bit zero zero v = ground arith
bit-clear_bit zero (suc k) v = ground arith
bit-clear_bit (suc j) zero v =
    let e : v / 2 * 2 / 2 ≡ v / 2 = omega arith in ap (bit j) e ∙ ground arith
bit-clear_bit (suc j) (suc k) v =
    ap (bit j) (half v (clear_bit k (v / 2))) ∙ bit-clear_bit j k (v / 2) ∙ ground arith
