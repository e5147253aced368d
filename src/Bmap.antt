-- ===== src/Bmap.antt =====
-- bmap of kernel/fs.c: the blocks of a file by the addresses of its inode, over the allocator of
-- blocks. The buffer of the indirect block is what the block shows.
pub mod Words
pub mod Slots
pub mod Filled
pub mod Entry
pub mod Files
pub mod Tests
use zerocopy_ringbuf.Common.{
  ℕ, zero, suc, ◌+◌, ◌-◌, ◌*◌, ◌/◌, ◌%◌, ltb, ◌==◌, if◌then◌else◌, Outcome, ok, panic,
}
use zerocopy_ringbuf.Blocks.{Bytes, Data, bsize, put, balloc, write_block}

abbrev pub ndirect : ℕ
ndirect = 12

abbrev pub nindirect : ℕ
nindirect = bsize / 4

abbrev pub maxfile : ℕ
maxfile = ndirect + nindirect

-- What is copied of an inode on the disk, and its number; `kind` is the field type.
pub record Inode : Type 0 where
  pub inum : ℕ
  pub kind : ℕ
  pub major : ℕ
  pub minor : ℕ
  pub nlink : ℕ
  pub size : ℕ
  pub addrs : ℕ → ℕ

-- Entry `i` of a block that is read as an array of uint.
unfoldable pub uint_at : Bytes → ℕ → ℕ
uint_at a i = a (4 * i) + 256 * (a (4 * i + 1) + 256 * (a (4 * i + 2) + 256 * a (4 * i + 3)))

-- Byte `k` of a uint.
unfoldable pub byte_of : ℕ → ℕ → ℕ
byte_of zero v = v % 256
byte_of (suc k) v = byte_of k (v / 256)

unfoldable pub put_uint : Bytes → ℕ → ℕ → Bytes
put_uint a i v j = if j / 4 == i then byte_of (j % 4) v else a j

-- An address of the inode, with a new block where it has none.
unfoldable pub map_addr : ℕ → Inode → Data → ℕ × Inode × Data
map_addr n ip d =
    let (addr, d') = balloc d in
    if ip.addrs n == 0
    then (addr, (if addr == 0 then ip else record ip { addrs = put ip.addrs n addr }), d')
    else (ip.addrs n, ip, d)

-- Entry `i` of the indirect block `ind`, with a new block where it has none.
unfoldable pub map_entry : ℕ → ℕ → Data → ℕ × Data
map_entry ind i d =
    let (addr, d') = balloc d in
    if uint_at (d.block ind) i == 0
    then (addr, (if addr == 0 then d' else write_block ind (put_uint (d'.block ind) i addr) d'))
    else (uint_at (d.block ind) i, d)

unfoldable pub map_indirect : ℕ → Inode → Data → ℕ × Inode × Data
map_indirect i ip d =
    let (ind, ip', d') = map_addr ndirect ip d in
    if ind == 0 then (0, ip', d') else (let (addr, d'') = map_entry ind i d' in (addr, ip', d''))

unfoldable pub bmap : ℕ → Inode → Data → Outcome (ℕ × Inode × Data)
bmap bn ip d =
    if ltb bn ndirect
    then ok (map_addr bn ip d)
    else if ltb (bn - ndirect) nindirect
    then ok (map_indirect (bn - ndirect) ip d)
    else panic
