-- ===== src/Itrunc/Tests.antt =====
-- Tests of itrunc: the file of the tests of bmap, with a copy of its inode in block 1.
use zerocopy_ringbuf.Common.{◌≡◌, refl, ◌∙◌, ok, arith}
use zerocopy_ringbuf.Blocks.{Data}
use zerocopy_ringbuf.Bmap.{Inode, byte_of}
use zerocopy_ringbuf.Bmap.Tests.{disk, inode, inode-IsInode, map_block}
use zerocopy_ringbuf.Itrunc.{dinode_byte, itrunc}
use zerocopy_ringbuf.Itrunc.Emptied.{Emptied, itrunc_lem}

itrunc_lem_example :
    (ip' : Inode) × (d' : Data) × (itrunc inode disk ≡ ok (ip', d')) × Emptied inode disk ip' d'
itrunc_lem_example =
    itrunc_lem inode disk inode-IsInode (λ j lj e. omega (arith, e ∙ map_block j lj))

size_byte : dinode_byte inode 9 ≡ 3
unfolding dinode_byte byte_of
size_byte = refl
