-- ===== src/Itrunc.antt =====
-- iupdate and itrunc of kernel/fs.c, over the allocator of blocks.
pub mod Freed
pub mod Loops
pub mod Dropped
pub mod Emptied
mod Tests
use zerocopy_ringbuf.Common.{
  ℕ, zero, suc, ◌+◌, ◌-◌, ◌*◌, ◌/◌, ◌%◌, true, false, ltb, ◌==◌, if◌then◌else◌, Outcome, ok, panic,
  exit, fault,
}
use zerocopy_ringbuf.Blocks.{Bytes, Data, bsize, put, write_block, bfree}
use zerocopy_ringbuf.Bmap.{Inode, ndirect, nindirect, uint_at, byte_of}

-- The size of a struct dinode.
abbrev pub dinode_size : ℕ
dinode_size = 64

abbrev pub ipb : ℕ
ipb = bsize / dinode_size

-- `IBLOCK(ip->inum, sb)`
abbrev pub iblock : Inode → Data → ℕ
iblock ip d = ip.inum / ipb + d.inodestart

-- Byte `k` of the struct dinode.
unfoldable pub dinode_byte : Inode → ℕ → ℕ
dinode_byte ip k =
    if ltb k 2
    then byte_of k ip.kind
    else if ltb k 4
    then byte_of (k - 2) ip.major
    else if ltb k 6
    then byte_of (k - 4) ip.minor
    else if ltb k 8
    then byte_of (k - 6) ip.nlink
    else if ltb k 12
    then byte_of (k - 8) ip.size
    else byte_of ((k - 12) % 4) (ip.addrs ((k - 12) / 4))

unfoldable pub iupdate : Inode → Data → Data
iupdate ip d =
    write_block (iblock ip d)
      (λ j.
        if j / dinode_size == ip.inum % ipb
        then dinode_byte ip (j % dinode_size)
        else d.block (iblock ip d) j)
      d

-- What follows a call that returns.
abbrev pub after : {A B : Type 0} → Outcome A → (A → Outcome B) → Outcome B
after o f = elim o [ ok a ↦ f a | panic ↦ panic | exit n ↦ exit n | fault ↦ fault ]

-- The loop over the addresses from `i` on, with `n` rounds left.
unfoldable pub free_addrs : ℕ → ℕ → Inode → Data → Outcome (Inode × Data)
free_addrs zero i ip d = ok (ip, d)
free_addrs (suc n) i ip d = elim (ip.addrs i == 0) [
  | true ↦ free_addrs n (i + 1) ip d
  | false ↦
      after (bfree (ip.addrs i) d)
        (λ d'. free_addrs n (i + 1) (record ip { addrs = put ip.addrs i 0 }) d')
]

-- The loop over the entries of the indirect block from `j` on, with `n` rounds left.
unfoldable pub free_entries : ℕ → ℕ → ℕ → Data → Outcome Data
free_entries zero j ind d = ok d
free_entries (suc n) j ind d = elim (uint_at (d.block ind) j == 0) [
  | true ↦ free_entries n (j + 1) ind d
  | false ↦ after (bfree (uint_at (d.block ind) j) d) (λ d'. free_entries n (j + 1) ind d')
]

-- The indirect block, with the blocks of its entries.
unfoldable pub free_indirect : Inode → Data → Outcome (Inode × Data)
free_indirect ip d =
    if ip.addrs ndirect == 0
    then ok (ip, d)
    else after (free_entries nindirect 0 (ip.addrs ndirect) d) (λ d1.
      after (bfree (ip.addrs ndirect) d1)
        (λ d2. ok (record ip { addrs = put ip.addrs ndirect 0 }, d2)))

unfoldable pub itrunc : Inode → Data → Outcome (Inode × Data)
itrunc ip d = after (free_addrs ndirect 0 ip d) (λ p.
    after (free_indirect p.0 p.1)
      (λ q. let ip' : Inode = record q.0 { size = 0 } in ok (ip', iupdate ip' q.1)))
