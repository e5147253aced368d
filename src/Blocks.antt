-- ===== src/Blocks.antt =====
-- The allocator of disk blocks of kernel/fs.c: bzero, balloc and bfree, on a map with a bit for each
-- block. What bread shows of the blocks is a function, and log_write's calls are listed.
pub mod Bits
pub mod Used
pub mod Alloc
mod Tests
use zerocopy_ringbuf.Common.{
  ℕ, zero, suc, ◌+◌, ◌-◌, ◌*◌, ◌/◌, ◌%◌, Bool, true, false, Option, none, some, List, [], ◌∷◌, ltb,
  ◌==◌, ◌!=◌, if◌then◌else◌, Outcome, ok, panic,
}

abbrev pub bsize : ℕ
bsize = 1024

-- The bits of the map in a block.
abbrev pub bpb : ℕ
bpb = bsize * 8

abbrev pub Bytes : Type 0
Bytes = ℕ → ℕ

-- The blocks of the disk, the numbers given to log_write, the latest first, and what is used of the
-- superblock.
pub record Data : Type 0 where
  pub block : ℕ → Bytes
  pub logged : List ℕ
  pub size : ℕ
  pub bmapstart : ℕ
  pub inodestart : ℕ

abbrev pub put {ℓ} : {A : Type ℓ} → (ℕ → A) → ℕ → A → ℕ → A
put f i v j = if j == i then v else f j

-- `BBLOCK(b, sb)`
abbrev pub bblock : ℕ → Data → ℕ
bblock b d = b / bpb + d.bmapstart

-- `v & (1 << k)`, `v | (1 << k)` and `v & ~(1 << k)`, bit by bit.
unfoldable pub bit : ℕ → ℕ → Bool
bit zero v = v % 2 != 0
bit (suc k) v = bit k (v / 2)

unfoldable pub set_bit : ℕ → ℕ → ℕ
set_bit zero v = v / 2 * 2 + 1
set_bit (suc k) v = v % 2 + 2 * set_bit k (v / 2)

unfoldable pub clear_bit : ℕ → ℕ → ℕ
clear_bit zero v = v / 2 * 2
clear_bit (suc k) v = v % 2 + 2 * clear_bit k (v / 2)

-- A block is changed and given to log_write.
unfoldable pub write_block : ℕ → Bytes → Data → Data
write_block b bytes d = record d { block = put d.block b bytes; logged = b ∷ d.logged }

unfoldable pub bzero : ℕ → Data → Data
unfolding write_block
bzero bno d = write_block bno (λ i. if ltb i bsize then 0 else d.block bno i) d

-- The inner loop of `balloc` from bit `bi` on, with `n` rounds left.
unfoldable pub find_free : ℕ → ℕ → Bytes → Option ℕ
find_free zero bi bytes = none
find_free (suc n) bi bytes = elim (bit (bi % 8) (bytes (bi / 8))) [
  | false ↦ some bi
  | true ↦ find_free n (bi + 1) bytes
]

-- Bit `bi` of a block of the map goes on, and off.
unfoldable pub mark : ℕ → ℕ → Data → Data
unfolding write_block
mark b bi d =
    let bytes = d.block b in
    write_block b (put bytes (bi / 8) (set_bit (bi % 8) (bytes (bi / 8)))) d

unfoldable pub unmark : ℕ → ℕ → Data → Data
unfolding write_block
unmark b bi d =
    let bytes = d.block b in
    write_block b (put bytes (bi / 8) (clear_bit (bi % 8) (bytes (bi / 8)))) d

abbrev pub min : ℕ → ℕ → ℕ
min a b = if ltb a b then a else b

-- The outer loop of `balloc` from block `b` on, with `n` rounds left.
unfoldable pub balloc_from : ℕ → ℕ → Data → ℕ × Data
balloc_from zero b d = (0, d)
balloc_from (suc n) b d = elim (find_free (min bpb (d.size - b)) 0 (d.block (bblock b d))) [
  | some bi ↦ (b + bi, bzero (b + bi) (mark (bblock b d) bi d))
  | none ↦ balloc_from n (b + bpb) d
]

unfoldable pub balloc : Data → ℕ × Data
unfolding balloc_from
balloc d = balloc_from ((d.size + (bpb - 1)) / bpb) 0 d

unfoldable pub bfree : ℕ → Data → Outcome Data
bfree b d =
    let bi = b % bpb in
    if bit (bi % 8) (d.block (bblock b d) (bi / 8)) then ok (unmark (bblock b d) bi d) else panic
