-- ===== src/Itrunc/Emptied.antt =====
-- itrunc of kernel/fs.c as a whole.
use zerocopy_ringbuf.Common.{
  ℕ, ◌+◌, ◌-◌, ◌%◌, ◌/◌, ◌≡◌, ◌≢◌, ◌<◌, refl, sym, ap, ◌∙◌, true, false, ltb, ◌==◌, if◌then◌else◌,
  ok, arith, Bool-cases, inl, inr,
}
use zerocopy_ringbuf.Blocks.{Bytes, Data, bpb, put, bblock, bit, bfree, write_block}
use zerocopy_ringbuf.Blocks.Used.{used, put-at, put-off}
use zerocopy_ringbuf.Bmap.{Inode, ndirect, nindirect, uint_at}
use zerocopy_ringbuf.Bmap.Slots.{nslots, slot, IsInode}
use zerocopy_ringbuf.Bmap.Filled.{table-empty}
use zerocopy_ringbuf.Itrunc.{
  iblock, dinode_size, ipb, dinode_byte, iupdate, free_entries, free_indirect, itrunc,
}
use zerocopy_ringbuf.Itrunc.Freed.{IsRow, IsOff, Same-IsOff, Freed, without, bfree-without}
use zerocopy_ringbuf.Itrunc.Dropped.{slots-IsRow, Dropped, direct-Dropped, indirect-Dropped}
use zerocopy_ringbuf.Itrunc.Loops.{Cleared, free_addrs-Freed, free_entries-Freed}

-- The inode is written to a block that is not of the map.
iupdate-used :
    (ip : Inode) (d : Data) (j : ℕ) → iblock ip d ≢ bblock j d → used (iupdate ip d) j ≡ used d j
unfolding iupdate write_block
iupdate-used ip d j ne =
    ap (λ (w : Bytes). bit (j % bpb % 8) (w (j % bpb / 8)))
      (put-off d.block (iblock ip d) (bblock j d)
        (λ k.
          if k / dinode_size == ip.inum % ipb
          then dinode_byte ip (k % dinode_size)
          else d.block (iblock ip d) k)
        (λ e. ne (sym e)))

iupdate-block :
    (ip : Inode) (d : Data) (c : ℕ) → c ≢ iblock ip d → (iupdate ip d).block c ≡ d.block c
unfolding iupdate write_block
iupdate-block ip d c ne =
    put-off d.block (iblock ip d) c
      (λ k.
        if k / dinode_size == ip.inum % ipb
        then dinode_byte ip (k % dinode_size)
        else d.block (iblock ip d) k)
      ne

-- The file was emptied.
pub record Emptied (ip : Inode) (d : Data) (ip' : Inode) (d' : Data) : Type 0 where
  pub no_blocks : (k : ℕ) → k < nslots → slot k ip' d' ≡ 0
  pub no_size : ip'.size ≡ 0
  pub free : (k : ℕ) → k < nslots → slot k ip d ≢ 0 → used d' (slot k ip d) ≡ false
  pub stays :
      (j : ℕ)
      → j < d.size
      → ((k : ℕ) → k < nslots → slot k ip d ≢ 0 → slot k ip d ≢ j)
      → used d' j ≡ used d j
  pub blocks : (c : ℕ) → c ≢ iblock ip d → IsOff c d → d'.block c ≡ d.block c

all_empty :
    (ip : Inode) (d : Data) → ((k : ℕ) → k < 13 → ip.addrs k ≡ 0) → (k : ℕ) → slot k ip d ≡ 0
all_empty ip d h k = elim (Bool-cases (ltb k 13)) [
  | inl low ↦ rw low (h k (ground (arith, low)))
  | inr high ↦ table-empty ip d k high (h 12 (omega arith))
]

-- The last steps: the size and the inode on the disk.
finish :
    (ip : Inode) (d : Data) (q : Inode) (d' : Data)
    → IsInode ip d
    → IsOff (iblock ip d) d
    → q.inum ≡ ip.inum
    → ((k : ℕ) → k < 13 → q.addrs k ≡ 0)
    → Dropped ip d d'
    → Emptied ip d (record q { size = 0 }) (iupdate (record q { size = 0 }) d')
finish ip d q d' v off same zeros x =
    let ip' : Inode = record q { size = 0 } in
    let at : iblock ip' d' ≡ iblock ip d = rw (same, x.same.same_inodes) refl in
    let still : (j : ℕ) → j < d.size → used (iupdate ip' d') j ≡ used d' j = λ j lj.
      iupdate-used ip' d' j (λ e. off j lj (sym at ∙ e ∙ ap (λ m. j / bpb + m) x.same.same_map)) in
    record {
      no_blocks = λ k _. all_empty ip' (iupdate ip' d') zeros k;
      no_size = refl;
      free = λ k lk nz. still (slot k ip d) (v.inside k lk nz) ∙ x.free k lk nz;
      stays = λ j lj h. still j lj ∙ x.stays j h;
      blocks = λ c ne nm. iupdate-block ip' d' c (λ e. ne (e ∙ at)) ∙ x.same.blocks c nm;
    }

-- The loop over the entries of the indirect block, which is in use still behind it.
entries-Freed :
    (ip : Inode) (d d1 : Data)
    → IsInode ip d
    → ip.addrs ndirect ≢ 0
    → Freed (λ k. slot k ip d) 0 12 d d1
    → (d2 : Data) × (free_entries nindirect 0 (ip.addrs ndirect) d1 ≡ ok d2)
      × Freed (λ k. slot (13 + k) ip d) 0 256 d1 d2
      × (used d2 (ip.addrs ndirect) ≡ true)
entries-Freed ip d d1 v there f =
    let ind : ℕ = ip.addrs ndirect in
    let nz : (ind == 0) ≡ false = ground (arith, there) in
    let off : IsOff ind d = λ j lj. v.off_map 12 j (omega arith) there lj in
    let row : IsRow (λ k. slot (13 + k) ip d) 0 256 d1 =
      slots-IsRow 13 256 (λ k. 13 + k) ip d d1 v (λ _. refl) (omega arith) f.same.same_size
        (λ k lt kz.
          f.stays (slot (13 + k) ip d) (λ m _ lm mz e.
            omega (arith, lm, v.apart m (13 + k) (omega (arith, lm)) (omega (arith, lt)) mz e))
          ∙ v.marked (13 + k) (omega (arith, lt)) kz) in
    let (d2, run, g) =
      free_entries-Freed (λ k. slot (13 + k) ip d) 256 0 ind d1 row (Same-IsOff ind d d1 f.same off)
        (λ k _ lt.
          let b : ltb (13 + k) 13 ≡ false = ground arith in
          let back : 13 + k - 13 ≡ k = omega arith in
          ap (λ (w : Bytes). uint_at w k) (f.same.blocks ind off) ∙ rw (b, nz, back) refl) in
    let still : used d2 ind ≡ true =
      g.stays ind
        (λ m _ lm mz e. omega (arith, v.apart (13 + m) 12 (omega (arith, lm)) (omega arith) mz e))
      ∙ f.stays ind
          (λ m _ lm mz e. omega (arith, lm, v.apart m 12 (omega (arith, lm)) (omega arith) mz e))
      ∙ v.marked 12 (omega arith) there in
    (d2, run, g, still)

free_indirect_run :
    (ip : Inode) (ind : ℕ) (d1 d2 d3 : Data)
    → ip.addrs ndirect ≡ ind
    → (ind == 0) ≡ false
    → free_entries nindirect 0 ind d1 ≡ ok d2
    → bfree ind d2 ≡ ok d3
    → free_indirect ip d1 ≡ ok (record ip { addrs = put ip.addrs ndirect 0 }, d3)
unfolding free_indirect
free_indirect_run ip ind d1 d2 d3 e nz run freed = rw (e, nz, run, freed) refl

free_indirect-Dropped :
    (ip ip1 : Inode) (d d1 : Data)
    → IsInode ip d
    → Freed (λ k. slot k ip d) 0 12 d d1
    → Cleared 0 12 ip ip1
    → (q : Inode) × (d' : Data) × (free_indirect ip1 d1 ≡ ok (q, d'))
      × (q.inum ≡ ip.inum)
      × ((k : ℕ) → k < 13 → q.addrs k ≡ 0)
      × Dropped ip d d'
unfolding free_indirect
free_indirect-Dropped ip ip1 d d1 v f c =
    let ind : ℕ = ip.addrs ndirect in
    let same : ip1.addrs ndirect ≡ ind = c.behind 12 (omega arith) in
    elim (Bool-cases (ind == 0)) [
      | inl z ↦
          let empty : ind ≡ 0 = ground (arith, z) in
          (
            ip1,
            d1,
            rw (same, z) refl,
            c.same_inum,
            λ k lk. elim (Bool-cases (ltb k 12)) [
              | inl low ↦ c.gone k (omega arith) (ground (arith, low))
              | inr high ↦
                  let e : k ≡ 12 = ground (arith, high, lk) in ap ip1.addrs e ∙ same ∙ empty
            ],
            direct-Dropped ip d d1 empty f,
          )
      | inr nz ↦
          let there : ind ≢ 0 = λ e. ground (arith, nz, e) in
          let (d2, run, g, still) = entries-Freed ip d d1 v there f in
          (
            record ip1 { addrs = put ip1.addrs ndirect 0 },
            without ind d2,
            free_indirect_run ip1 ind d1 d2 (without ind d2) same nz run
                (bfree-without ind d2 still),
            c.same_inum,
            λ k lk. elim (Bool-cases (ltb k 12)) [
              | inl low ↦
                  let lt : k < 12 = ground (arith, low) in
                  put-off ip1.addrs ndirect k 0 (omega (arith, lt)) ∙ c.gone k (omega arith) lt
              | inr high ↦ put-at ip1.addrs ndirect k 0 (ground (arith, high, lk))
            ],
            indirect-Dropped ip d d1 d2 v there f g,
          )
    ]

-- For an inode whose slots - its addresses, and the entries of its indirect block - name different
-- blocks in use, on a disk with at most 2^32 blocks whose map and first block are in use, where no
-- block of a slot and not the block of the inode itself is of the map: itrunc returns, all slots
-- of the inode and its size are 0 then, the blocks that the slots named are not in use, every
-- other block of the disk is in use or not as before, and no block changes but those of the map
-- and the block of the inode.
pub itrunc_lem :
    (ip : Inode) (d : Data)
    → IsInode ip d
    → IsOff (iblock ip d) d
    → (ip' : Inode) × (d' : Data) × (itrunc ip d ≡ ok (ip', d')) × Emptied ip d ip' d'
unfolding itrunc
itrunc_lem ip d v off =
    let row : IsRow (λ k. slot k ip d) 0 12 d =
      slots-IsRow 0 12 (λ k. k) ip d d v (λ _. omega arith) (omega arith) refl
        (λ k lt nz. v.marked k (omega (arith, lt)) nz) in
    let (ip1, d1, run, f, c) =
      free_addrs-Freed (λ k. slot k ip d) 12 0 ip d row
        (λ k _ lt. let low : ltb k 13 ≡ true = ground (arith, lt) in rw low refl) in
    let (q, d2, run', same, zeros, x) = free_indirect-Dropped ip ip1 d d1 v f c in
    (
      record q { size = 0 },
      iupdate (record q { size = 0 }) d2,
      rw (run, run') refl,
      finish ip d q d2 v off same zeros x,
    )
