-- ===== src/Bmap/Filled.antt =====
-- The two steps of bmap fill a slot: what that means, and map_addr for the addresses of the inode.
use zerocopy_ringbuf.Common.{
  ℕ, ◌-◌, ◌≡◌, ◌≢◌, ◌<◌, ◌≤◌, refl, sym, ap, ◌∙◌, true, false, ltb, ◌==◌, arith, Bool-cases, inl,
  inr,
}
use mathlib.Core.Path.{subst}
use zerocopy_ringbuf.Blocks.{Bytes, Data, bsize, put, bblock, balloc}
use zerocopy_ringbuf.Blocks.Used.{used, put-at, put-off}
use zerocopy_ringbuf.Blocks.Alloc.{Allocated, balloc_lem}
use zerocopy_ringbuf.Bmap.{Inode, ndirect, uint_at, map_addr}
use zerocopy_ringbuf.Bmap.Words.{uint_at-zeros}
use zerocopy_ringbuf.Bmap.Slots.{nslots, slot, IsInode, Added, Added-IsInode, fresh-slot}

-- Slot `n` names block `b` afterwards, which is that of before, a fresh block of zeros, or 0 on a
-- full disk. No other slot changes, nor a block in use, but those of the map and the indirect block.
pub record Filled (n : ℕ) (ip : Inode) (d : Data) (b : ℕ) (ip' : Inode) (d' : Data) : Type 0 where
  pub inode : IsInode ip' d'
  pub found : slot n ip' d' ≡ b
  pub others : (k : ℕ) → k < nslots → k ≢ n → slot k ip' d' ≡ slot k ip d
  pub kept :
      (c : ℕ)
      → used d c ≡ true
      → c ≢ slot ndirect ip d
      → ((j : ℕ) → j < d.size → c ≢ bblock j d)
      → d'.block c ≡ d.block c
  pub present : slot n ip d ≢ 0 → (b ≡ slot n ip d) × (ip' ≡ ip) × (d' ≡ d)
  pub fresh :
      slot n ip d ≡ 0 → b ≢ 0 → (used d b ≡ false) × ((i : ℕ) → i < bsize → d'.block b i ≡ 0)
  pub full : b ≡ 0 → (j : ℕ) → j < d.size → used d' j ≡ true
  pub grows : (j : ℕ) → j < d.size → used d j ≡ true → used d' j ≡ true
  pub same_size : d'.size ≡ d.size
  pub same_map : d'.bmapstart ≡ d.bmapstart

abbrev pub IsFilled : ℕ → Inode → Data → ℕ × Inode × Data → Type 0
IsFilled n ip d p = Filled n ip d p.0 p.1 p.2

pub unchanged :
    (n : ℕ) (ip : Inode) (d : Data)
    → IsInode ip d
    → (slot n ip d ≡ 0 → (j : ℕ) → j < d.size → used d j ≡ true)
    → Filled n ip d (slot n ip d) ip d
unchanged n ip d v full = record {
  inode = v;
  found = refl;
  others = λ k lk ne. refl;
  kept = λ c u ne nm. refl;
  present = λ nz. (refl, refl, refl);
  fresh = λ z nz. absurd (nz z);
  full = full;
  grows = λ j lj u. u;
  same_size = refl;
  same_map = refl;
}

pub slot-used :
    (ip : Inode) (d : Data) (k : ℕ) → IsInode ip d → k < nslots → used d (slot k ip d) ≡ true
slot-used ip d k v lk = elim (Bool-cases (slot k ip d == 0)) [
  | inl z ↦ let e : slot k ip d ≡ 0 = ground (arith, z) in ap (λ b. used d b) e ∙ v.first_used
  | inr nz ↦ v.marked k lk (λ e. ground (arith, nz, e))
]

-- A slot that is filled with the block that balloc returned.
pub added :
    (n r : ℕ) (ip : Inode) (d d1 : Data) (ip' : Inode) (d' : Data)
    → IsInode ip d
    → slot n ip d ≡ 0
    → Allocated d r d1
    → Added n r ip d ip' d'
    → ((c : ℕ) → c ≢ slot ndirect ip d → d'.block c ≡ d1.block c)
    → Filled n ip d r ip' d'
added n r ip d d1 ip' d' v empty al ad same = record {
  inode = Added-IsInode n r ip d ip' d' v al.free al.below ad;
  found = ad.at;
  others = ad.off;
  kept = λ c u ne nm.
      same c ne ∙ al.others c (λ e. cc (u, ap (λ b. used d b) e, al.free)) (nm r al.below);
  present = λ nz. absurd (nz empty);
  fresh = λ z nz.
      let ne : r ≢ slot ndirect ip d =
        λ e. cc (ap (λ b. used d b) e, slot-used ip d ndirect v (omega arith), al.free) in
      (al.free, λ i li. ap (λ (w : Bytes). w i) (same r ne) ∙ al.zeroed i li);
  full = λ z. absurd (cc (ap (λ b. used d b) z, v.first_used, al.free));
  grows = λ j lj u. ground (arith, ad.uses j lj, u);
  same_size = ad.same_size;
  same_map = ad.same_map;
}

-- The slots of the indirect block, where it is the same and shows the same.
table-same :
    (ip ip' : Inode) (d d' : Data) (k : ℕ)
    → ltb k 13 ≡ false
    → ip'.addrs ndirect ≡ ip.addrs ndirect
    → (ip.addrs ndirect ≢ 0 → d'.block (ip.addrs ndirect) ≡ d.block (ip.addrs ndirect))
    → slot k ip' d' ≡ slot k ip d
table-same ip ip' d d' k high e same = elim (Bool-cases (ip.addrs ndirect == 0)) [
  | inl z ↦ rw (high, e, z) refl
  | inr nz ↦
      rw (high, e, nz) (ap (λ (w : Bytes). uint_at w (k - 13)) (same (λ q. ground (arith, nz, q))))
]

-- The entries of a fresh indirect block are 0.
table-fresh :
    (ip : Inode) (d : Data) (k : ℕ)
    → ltb k 13 ≡ false
    → k < nslots
    → ((i : ℕ) → i < bsize → d.block (ip.addrs ndirect) i ≡ 0)
    → slot k ip d ≡ 0
table-fresh ip d k high lk zeros = elim (Bool-cases (ip.addrs ndirect == 0)) [
  | inl z ↦ rw (high, z) refl
  | inr nz ↦
      let ge : 13 ≤ k = ground (arith, high) in
      rw (high, nz)
        (uint_at-zeros (d.block (ip.addrs ndirect)) (k - 13) (omega (arith, lk, ge)) zeros)
]

pub table-empty :
    (ip : Inode) (d : Data) (k : ℕ) → ltb k 13 ≡ false → ip.addrs ndirect ≡ 0 → slot k ip d ≡ 0
table-empty ip d k high e = rw (high, e) refl

-- The inode with a fresh block for one of its addresses.
addr-Added :
    (n r : ℕ) (ip : Inode) (d d1 : Data)
    → IsInode ip d
    → n < 13
    → ip.addrs n ≡ 0
    → Allocated d r d1
    → Added n r ip d (record ip { addrs = put ip.addrs n r }) d1
addr-Added n r ip d d1 v low empty al =
    let ip' : Inode = record ip { addrs = put ip.addrs n r } in
    record {
      at = let b : ltb n 13 ≡ true = ground (arith, low) in rw b (put-at ip.addrs n n r refl);
      off = λ k lk ne. elim (Bool-cases (ltb k 13)) [
        | inl b ↦ rw b (put-off ip.addrs n k r ne)
        | inr b ↦ elim (Bool-cases (n == ndirect)) [
          | inr other ↦
              let ne' : ndirect ≢ n = λ e. ground (arith, other, e) in
              table-same ip ip' d d1 k b (put-off ip.addrs n ndirect r ne') (λ nz.
                al.others (ip.addrs ndirect) (fresh-slot ip d r ndirect v al.free (omega arith) nz)
                  (v.off_map ndirect r (omega arith) nz al.below))
          | inl this ↦
              let e : ndirect ≡ n = ground (arith, this) in
              table-fresh ip' d1 k b lk
                (λ i li. ap (λ a. d1.block a i) (put-at ip.addrs n ndirect r e) ∙ al.zeroed i li)
              ∙ sym (table-empty ip d k b (ap ip.addrs e ∙ empty))
        ]
      ];
      uses = al.marked;
      same_size = al.same_size;
      same_map = al.same_map;
    }

-- A free block is not block 0.
pub some_block :
    (ip : Inode) (d : Data) (r : ℕ) → IsInode ip d → used d r ≡ false → (r == 0) ≡ false
some_block ip d r v free = elim (Bool-cases (r == 0)) [
  | inr miss ↦ miss
  | inl hit ↦
      let q : r ≡ 0 = ground (arith, hit) in absurd (cc (ap (λ c. used d c) q, v.first_used, free))
]

pub map_addr-Filled :
    (n : ℕ) (ip : Inode) (d : Data) → IsInode ip d → n < 13 → IsFilled n ip d (map_addr n ip d)
unfolding map_addr
map_addr-Filled n ip d v low =
    let b : ltb n 13 ≡ true = ground (arith, low) in
    let here : slot n ip d ≡ ip.addrs n = rw b refl in
    elim (Bool-cases (ip.addrs n == 0)) [
      | inr nz ↦ rw nz (
          subst (λ a. Filled n ip d a ip d) here
            (unchanged n ip d v (λ z. absurd (ground (arith, nz, here, z)))))
      | inl z ↦
          let empty : ip.addrs n ≡ 0 = ground (arith, z) in
          elim (balloc_lem d v.mapped) [
            | inr (all, none_left) ↦
                rw (z, none_left)
                  (subst (λ a. Filled n ip d a ip d) (here ∙ empty) (unchanged n ip d v (λ _. all)))
            | inl al ↦
                let nz : ((balloc d).0 == 0) ≡ false = some_block ip d (balloc d).0 v al.free in
                rw (z, nz)
                  (added n (balloc d).0 ip d (balloc d).1
                    (record ip { addrs = put ip.addrs n (balloc d).0 }) (balloc d).1 v
                    (here ∙ empty) al (addr-Added n (balloc d).0 ip d (balloc d).1 v low empty al)
                    (λ c ne. refl))
          ]
    ]
