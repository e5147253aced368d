-- ===== src/Bmap/Files.antt =====
-- bmap of kernel/fs.c on the slots of an inode.
use zerocopy_ringbuf.Common.{
  ℕ, ◌+◌, ◌-◌, ◌≡◌, ◌≢◌, ◌<◌, ◌≤◌, ◌⊎◌, refl, sym, ◌∙◌, true, false, ltb, ◌==◌, if◌then◌else◌, ok,
  panic, arith, Bool-cases, inl, inr,
}
use mathlib.Core.Path.{subst}
use zerocopy_ringbuf.Blocks.{Data, bsize}
use zerocopy_ringbuf.Blocks.Used.{used}
use zerocopy_ringbuf.Bmap.{Inode, ndirect, maxfile, map_addr, map_entry, map_indirect, bmap}
use zerocopy_ringbuf.Bmap.Slots.{nslots, slot, IsInode}
use zerocopy_ringbuf.Bmap.Filled.{Filled, table-empty, map_addr-Filled}
use zerocopy_ringbuf.Bmap.Entry.{map_entry-Filled}

-- The slot of block `bn` of a file.
abbrev pub place : ℕ → ℕ
place bn = if ltb bn ndirect then bn else bn + 1

-- What a call for the block of a file in slot `n` returned and left.
pub record Mapped (n : ℕ) (ip : Inode) (d : Data) (b : ℕ) (ip' : Inode) (d' : Data) : Type 0 where
  pub inode : IsInode ip' d'
  pub found : slot n ip' d' ≡ b
  pub others : (k : ℕ) → k < nslots → k ≢ ndirect → k ≢ n → slot k ip' d' ≡ slot k ip d
  pub kept :
      (k : ℕ)
      → k < nslots
      → k ≢ ndirect
      → slot k ip d ≢ 0
      → d'.block (slot k ip d) ≡ d.block (slot k ip d)
  pub present : slot n ip d ≢ 0 → (b ≡ slot n ip d) × (ip' ≡ ip) × (d' ≡ d)
  pub fresh :
      slot n ip d ≡ 0 → b ≢ 0 → (used d b ≡ false) × ((i : ℕ) → i < bsize → d'.block b i ≡ 0)
  pub full : b ≡ 0 → (j : ℕ) → j < d.size → used d' j ≡ true

kept-slot :
    (n : ℕ) (ip : Inode) (d : Data) (b : ℕ) (ip' : Inode) (d' : Data) (k : ℕ)
    → IsInode ip d
    → Filled n ip d b ip' d'
    → k < nslots
    → k ≢ ndirect
    → slot k ip d ≢ 0
    → d'.block (slot k ip d) ≡ d.block (slot k ip d)
kept-slot n ip d b ip' d' k v f lk ne nz =
    f.kept (slot k ip d) (v.marked k lk nz) (λ e. ne (v.apart k ndirect lk (omega arith) nz e))
      (λ j lj. v.off_map k j lk nz lj)

direct :
    (n : ℕ) (ip : Inode) (d : Data) (b : ℕ) (ip' : Inode) (d' : Data)
    → IsInode ip d
    → Filled n ip d b ip' d'
    → Mapped n ip d b ip' d'
direct n ip d b ip' d' v f = record {
  inode = f.inode;
  found = f.found;
  others = λ k lk _ ne. f.others k lk ne;
  kept = λ k lk ne nz. kept-slot n ip d b ip' d' k v f lk ne nz;
  present = f.present;
  fresh = f.fresh;
  full = f.full;
}

-- No indirect block was to be had.
no_indirect :
    (n : ℕ) (ip : Inode) (d : Data) (ip' : Inode) (d' : Data)
    → IsInode ip d
    → 12 < n
    → n < nslots
    → Filled ndirect ip d 0 ip' d'
    → Mapped n ip d 0 ip' d'
no_indirect n ip d ip' d' v high low f =
    let gone : slot n ip' d' ≡ 0 = table-empty ip' d' n (ground (arith, high)) f.found in
    let same : slot n ip' d' ≡ slot n ip d = f.others n low (omega (arith, high)) in
    record {
      inode = f.inode;
      found = gone;
      others = λ k lk ne _. f.others k lk ne;
      kept = λ k lk ne nz. kept-slot ndirect ip d 0 ip' d' k v f lk ne nz;
      present = λ nz. absurd (nz (sym same ∙ gone));
      fresh = λ _ nz. absurd (nz refl);
      full = f.full;
    }

-- The indirect block and then its entry.
indirect :
    (n : ℕ) (ip : Inode) (d : Data) (ind : ℕ) (ip1 : Inode) (d1 : Data) (b : ℕ) (d2 : Data)
    → IsInode ip d
    → 12 < n
    → n < nslots
    → Filled ndirect ip d ind ip1 d1
    → Filled n ip1 d1 b ip1 d2
    → Mapped n ip d b ip1 d2
indirect n ip d ind ip1 d1 b d2 v high low f g =
    let same : slot n ip1 d1 ≡ slot n ip d = f.others n low (omega (arith, high)) in
    record {
      inode = g.inode;
      found = g.found;
      others = λ k lk ne ne'. g.others k lk ne' ∙ f.others k lk ne;
      kept = λ k lk ne nz.
          let e : slot k ip1 d1 ≡ slot k ip d = f.others k lk ne in
          subst (λ c. d2.block c ≡ d1.block c) e
            (kept-slot n ip1 d1 b ip1 d2 k f.inode g lk ne (λ z. nz (sym e ∙ z)))
          ∙ kept-slot ndirect ip d ind ip1 d1 k v f lk ne nz;
      present = λ nz.
          let (_, eip, ed) = f.present (λ z. nz (table-empty ip d n (ground (arith, high)) z)) in
          let (eb, _, ed') = g.present (λ z. nz (sym same ∙ z)) in (eb ∙ same, eip, ed' ∙ ed);
      fresh = λ z nz.
          let (free, zeros) = g.fresh (same ∙ z) nz in
          let lt : b < d.size =
            subst (λ s. b < s) (g.same_size ∙ f.same_size)
              (subst (λ c. c < d2.size) g.found
                (g.inode.inside n low (λ q. nz (sym g.found ∙ q)))) in
          (
            elim (Bool-cases (used d b)) [
              | inr unused ↦ unused
              | inl taken ↦ absurd (cc (f.grows b lt taken, free))
            ],
            zeros,
          );
      full = λ z j lj. g.full z j (subst (λ s. j < s) (sym f.same_size) lj);
    }

map_indirect-Mapped :
    (i : ℕ) (ip : Inode) (d : Data)
    → IsInode ip d
    → i < 256
    → Mapped (13 + i) ip d (map_indirect i ip d).0 (map_indirect i ip d).1 (map_indirect i ip d).2
unfolding map_indirect
map_indirect-Mapped i ip d v low =
    let p : ℕ × Inode × Data = map_addr ndirect ip d in
    let f : Filled ndirect ip d p.0 p.1 p.2 = map_addr-Filled ndirect ip d v (omega arith) in
    elim (Bool-cases (p.0 == 0)) [
      | inl z ↦ rw z (
          no_indirect (13 + i) ip d p.1 p.2 v (omega arith) (omega (arith, low))
            (subst (λ b. Filled ndirect ip d b p.1 p.2) (ground (arith, z)) f))
      | inr nz ↦
          let there : p.1.addrs ndirect ≢ 0 = λ e. ground (arith, nz, sym f.found ∙ e) in
          rw nz (
            indirect (13 + i) ip d p.0 p.1 p.2 (map_entry p.0 i p.2).0 (map_entry p.0 i p.2).1 v
              (omega arith) (omega (arith, low)) f
              (subst (λ a. Filled (13 + i) p.1 p.2 (map_entry a i p.2).0 p.1 (map_entry a i p.2).1)
                f.found (map_entry-Filled i p.1 p.2 f.inode low there)))
    ]

-- For an inode whose slots - its addresses, and the entries of its indirect block - name different
-- blocks in use, none of them of the map, on a disk with at most 2^32 blocks, whose map and first
-- block are in use: bmap panics from block 268 of the file on, and otherwise returns what the slot
-- of the block holds then, on an inode of that kind. A slot that was filled is returned and
-- nothing changes; an empty one gets a block that was not in use and is all zeros, or the result
-- is 0 and every block is in use. The other blocks of the file stay in their slots and keep their
-- bytes.
pub bmap_lem :
    (bn : ℕ) (ip : Inode) (d : Data)
    → IsInode ip d
    → ((maxfile ≤ bn) × (bmap bn ip d ≡ panic))
      ⊎ ((b : ℕ) × (ip' : Inode) × (d' : Data) × (bn < maxfile)
          × (bmap bn ip d ≡ ok (b, ip', d'))
          × Mapped (place bn) ip d b ip' d')
unfolding bmap
bmap_lem bn ip d v = elim (Bool-cases (ltb bn ndirect)) [
  | inl low ↦
      let lt : bn < 12 = ground (arith, low) in
      let p : ℕ × Inode × Data = map_addr bn ip d in
      inr (
        p.0,
        p.1,
        p.2,
        omega (arith, lt),
        rw low refl,
        rw low (direct bn ip d p.0 p.1 p.2 v (map_addr-Filled bn ip d v (omega (arith, lt)))),
      )
  | inr high ↦ elim (Bool-cases (ltb (bn - ndirect) 256)) [
    | inr out ↦ inl (ground (arith, high, out), rw (high, out) refl)
    | inl low ↦
        let p : ℕ × Inode × Data = map_indirect (bn - ndirect) ip d in
        let e : 13 + (bn - ndirect) ≡ bn + 1 = ground (arith, high) in
        inr (
          p.0,
          p.1,
          p.2,
          ground (arith, high, low),
          rw (high, low) refl,
          rw high (
              subst (λ n. Mapped n ip d p.0 p.1 p.2) e
                (map_indirect-Mapped (bn - ndirect) ip d v (ground (arith, low)))),
        )
  ]
]
