-- ===== src/Itrunc/Dropped.antt =====
-- The blocks of a file as rows, and what is left when all of them are freed.
use zerocopy_ringbuf.Common.{
  ℕ, ◌+◌, ◌-◌, ◌≡◌, ◌≢◌, ◌<◌, ◌≤◌, sym, ap, ◌∙◌, true, false, ltb, arith, Bool-cases, inl, inr,
}
use mathlib.Core.Path.{subst}
use zerocopy_ringbuf.Blocks.{Data}
use zerocopy_ringbuf.Blocks.Used.{used}
use zerocopy_ringbuf.Bmap.{Inode, ndirect}
use zerocopy_ringbuf.Bmap.Slots.{nslots, slot, IsInode}
use zerocopy_ringbuf.Bmap.Filled.{table-empty}
use zerocopy_ringbuf.Itrunc.Freed.{
  IsRow, Same, Same-trans, Freed, without, without_same, without-off, without-Same,
}

-- The slots below 12 and then the others, as rows.
pub slots-IsRow :
    (a n : ℕ) (p : ℕ → ℕ) (ip : Inode) (d d' : Data)
    → IsInode ip d
    → ((k : ℕ) → p k ≡ a + k)
    → a + n ≤ nslots
    → d'.size ≡ d.size
    → ((k : ℕ) → k < n → slot (p k) ip d ≢ 0 → used d' (slot (p k) ip d) ≡ true)
    → IsRow (λ k. slot (p k) ip d) 0 n d'
slots-IsRow a n p ip d d' v at low same h =
    let in_row : (k : ℕ) → k < 0 + n → p k < nslots = λ k lt. omega (arith, at k, lt, low) in
    record {
      in_use = λ k _ lt nz. h k (omega (arith, lt)) nz;
      inside = λ k _ lt nz.
          subst (λ s. slot (p k) ip d < s) (sym same) (v.inside (p k) (in_row k lt) nz);
      apart = λ k m _ lt _ lt' nz e.
          omega (arith, at k, at m, v.apart (p k) (p m) (in_row k lt) (in_row m lt') nz e);
    }

-- All slots are free, and no other block is.
pub record Dropped (ip : Inode) (d d' : Data) : Type 0 where
  pub free : (k : ℕ) → k < nslots → slot k ip d ≢ 0 → used d' (slot k ip d) ≡ false
  pub stays :
      (j : ℕ) → ((k : ℕ) → k < nslots → slot k ip d ≢ 0 → slot k ip d ≢ j) → used d' j ≡ used d j
  pub same : Same d d'

-- No indirect block.
pub direct-Dropped :
    (ip : Inode) (d d1 : Data)
    → ip.addrs ndirect ≡ 0
    → Freed (λ k. slot k ip d) 0 12 d d1
    → Dropped ip d d1
direct-Dropped ip d d1 empty f = record {
  free = λ k lk nz. elim (Bool-cases (ltb k 12)) [
    | inl low ↦ f.free k (omega arith) (ground (arith, low)) nz
    | inr high ↦ elim (Bool-cases (ltb k 13)) [
      | inr table ↦ absurd (nz (table-empty ip d k table empty))
      | inl last ↦
          let e : k ≡ 12 = ground (arith, high, last) in
          absurd (nz (ap (λ m. slot m ip d) e ∙ empty))
    ]
  ];
  stays = λ j h. f.stays j (λ k _ lt. h k (omega (arith, lt)));
  same = f.same;
}

-- The entries of the indirect block are freed, and then it.
pub indirect-Dropped :
    (ip : Inode) (d d1 d2 : Data)
    → IsInode ip d
    → ip.addrs ndirect ≢ 0
    → Freed (λ k. slot k ip d) 0 12 d d1
    → Freed (λ k. slot (13 + k) ip d) 0 256 d1 d2
    → Dropped ip d (without (ip.addrs ndirect) d2)
indirect-Dropped ip d d1 d2 v there f g =
    let ind : ℕ = ip.addrs ndirect in
    let d3 : Data = without ind d2 in
    let s : Same d d2 = Same-trans d d1 d2 f.same g.same in
    record {
      free = λ k lk nz. elim (Bool-cases (ltb k 12)) [
        | inl low ↦
            let lt : k < 12 = ground (arith, low) in
            without-off ind (slot k ip d) d2
              (λ e. omega (arith, lt, v.apart k 12 lk (omega arith) nz e))
            ∙ g.stays (slot k ip d)
                (λ m _ lm mz e. omega (arith, lt, v.apart (13 + m) k (omega (arith, lm)) lk mz e))
            ∙ f.free k (omega arith) lt nz
        | inr high ↦ elim (Bool-cases (ltb k 13)) [
          | inl last ↦
              let e : k ≡ 12 = ground (arith, high, last) in
              ap (λ m. used d3 (slot m ip d)) e ∙ without_same ind d2
          | inr table ↦
              let ge : 13 ≤ k = ground (arith, table) in
              without-off ind (slot k ip d) d2
                (λ e. omega (arith, ge, v.apart k 12 lk (omega arith) nz e))
              ∙ subst (λ m. slot m ip d ≢ 0 → used d2 (slot m ip d) ≡ false) (omega (arith, ge))
                  (g.free (k - 13) (omega arith) (omega (arith, lk, ge))) nz
        ]
      ];
      stays = λ j h.
          without-off ind j d2 (λ e. h 12 (omega arith) there (sym e))
          ∙ g.stays j (λ k _ lt. h (13 + k) (omega (arith, lt)))
          ∙ f.stays j (λ k _ lt. h k (omega (arith, lt)));
      same = Same-trans d d2 d3 s (
          without-Same ind d2
            (subst (λ z. ind < z) (sym s.same_size) (v.inside 12 (omega arith) there)));
    }
