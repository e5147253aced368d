-- ===== src/Bmap/Tests.antt =====
-- Tests of bmap: the map is block 2, blocks 0 to 3 are in use, and the file has block 3.
use zerocopy_ringbuf.Common.{
  ℕ, ◌≡◌, ◌≢◌, ◌<◌, ◌≤◌, ◌⊎◌, refl, sym, ap, ◌∙◌, true, [], ltb, ◌==◌, if◌then◌else◌, ok, panic,
  arith, Bool-cases, inl, inr,
}
use mathlib.Core.Path.{subst}
use zerocopy_ringbuf.Blocks.{
  Data, bblock, bit, balloc, find_free, write_block, bzero, mark, set_bit,
}
use zerocopy_ringbuf.Blocks.Used.{used}
use zerocopy_ringbuf.Bmap.{Inode, maxfile, uint_at, map_addr, map_entry, map_indirect, bmap}
use zerocopy_ringbuf.Bmap.Slots.{slot, IsInode}
use zerocopy_ringbuf.Bmap.Files.{place, Mapped, bmap_lem}

abbrev pub disk : Data
disk = record {
  block = λ b i. if b == 2 then (if i == 0 then 15 else 0) else 9;
  logged = [];
  size = 30;
  bmapstart = 2;
  inodestart = 1;
}

abbrev pub inode : Inode
inode = record {
  inum = 1;
  kind = 2;
  major = 0;
  minor = 0;
  nlink = 1;
  size = 1000;
  addrs = λ n. if n == 0 then 3 else 0;
}

first_only : (k : ℕ) → slot k inode disk ≢ 0 → k ≡ 0
first_only k nz = elim (Bool-cases (k == 0)) [
  | inl at ↦ ground (arith, at)
  | inr off ↦ elim (Bool-cases (ltb k 13)) [
    | inl low ↦ absurd (nz (rw (low, off) refl))
    | inr high ↦ absurd (nz (rw high refl))
  ]
]

used_three : used disk 3 ≡ true
unfolding bit
used_three = refl

used_zero : used disk 0 ≡ true
unfolding bit
used_zero = refl

used_two : used disk 2 ≡ true
unfolding bit
used_two = refl

pub map_block : (j : ℕ) → j < 30 → bblock j disk ≡ 2
map_block j lt = omega (arith, lt)

at_first : (P : ℕ → ℕ → Type 0) → P 0 3 → (k : ℕ) → slot k inode disk ≢ 0 → P k (slot k inode disk)
at_first P p k nz = subst (λ m. P m (slot m inode disk)) (sym (first_only k nz)) p

pub inode-IsInode : IsInode inode disk
inode-IsInode = record {
  mapped = λ j lj. ap (used disk) (map_block j lj) ∙ used_two;
  map_inside = λ j lj. rw (map_block j lj) (omega arith);
  first_used = used_zero;
  small = omega arith;
  inside = λ k lk nz. at_first (λ _ b. b < 30) (omega arith) k nz;
  marked = λ k lk nz. at_first (λ _ b. used disk b ≡ true) used_three k nz;
  off_map =
      λ k j lk nz lj e. at_first (λ _ b. b ≢ 2) (λ q. omega (arith, q)) k nz (e ∙ map_block j lj);
  apart = λ k m lk lm nz e. first_only k nz ∙ sym (first_only m (λ z. nz (e ∙ z)));
}

bmap_lem_example :
    ((maxfile ≤ 12) × (bmap 12 inode disk ≡ panic))
    ⊎ ((b : ℕ) × (ip' : Inode) × (d' : Data) × (12 < maxfile)
        × (bmap 12 inode disk ≡ ok (b, ip', d'))
        × Mapped (place 12) inode disk b ip' d')
bmap_lem_example = bmap_lem 12 inode disk inode-IsInode

-- A new indirect block and a block in it.
two_blocks : (map_indirect 0 inode disk).0 ≡ 5
unfolding map_indirect map_addr map_entry balloc find_free bit uint_at bzero mark write_block
    set_bit
two_blocks = refl
