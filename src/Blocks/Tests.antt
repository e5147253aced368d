-- ===== src/Blocks/Tests.antt =====
-- Tests of the block allocator of kernel/fs.c: the map is block 2, and blocks 0 to 2 are in use.
use zerocopy_ringbuf.Common.{
  ℕ, ◌≡◌, ◌≢◌, ◌⊎◌, refl, ap, ◌∙◌, true, false, not, ◌&&◌, [], ◌∷◌, ◌==◌, if◌then◌else◌, ok, panic,
  arith,
}
use zerocopy_ringbuf.Blocks.{Data, bblock, bit, balloc, bfree, find_free}
use zerocopy_ringbuf.Blocks.Used.{used}
use zerocopy_ringbuf.Blocks.Alloc.{IsMapped, IsAllocation, balloc_lem, bfree_lem}

abbrev small_disk : Data
small_disk = record {
  block = λ b i. if b == 2 then (if i == 0 then 7 else 0) else 9;
  logged = [];
  size = 30;
  bmapstart = 2;
  inodestart = 1;
}

map_in_use : used small_disk 2 ≡ true
unfolding bit
map_in_use = refl

small_disk-IsMapped : IsMapped small_disk
small_disk-IsMapped j lt =
    let e : bblock j small_disk ≡ 2 = omega (arith, lt) in ap (used small_disk) e ∙ map_in_use

third_block : (balloc small_disk).0 ≡ 3
unfolding balloc find_free bit
third_block = refl

balloc_lem_example : IsAllocation small_disk (balloc small_disk)
balloc_lem_example = balloc_lem small_disk small_disk-IsMapped

bfree_lem_example :
    ((used small_disk 1 ≡ false) × (bfree 1 small_disk ≡ panic))
    ⊎ ((d' : Data) × (used small_disk 1 ≡ true)
        × (bfree 1 small_disk ≡ ok d')
        × ((j : ℕ) → used d' j ≡ (not (j == 1) && used small_disk j))
        × ((c : ℕ) → c ≢ bblock 1 small_disk → d'.block c ≡ small_disk.block c)
        × (d'.logged ≡ bblock 1 small_disk ∷ small_disk.logged))
bfree_lem_example = bfree_lem small_disk 1
