-- ===== src/Itrunc/Freed.antt =====
-- What bfree does to a row of blocks, one at a time.
use zerocopy_ringbuf.Common.{
  ℕ, suc, ◌+◌, ◌/◌, ◌%◌, ◌≡◌, ◌≢◌, ◌<◌, ◌≤◌, refl, sym, ap, ◌∙◌, true, false, ◌==◌, ok, arith,
  Bool-cases, inl, inr,
}
use mathlib.Core.Path.{subst}
use zerocopy_ringbuf.Blocks.{Data, bpb, put, bblock, clear_bit, unmark, bfree, write_block}
use zerocopy_ringbuf.Blocks.Used.{used, unmark-used, put-off}

-- The blocks `f i` to `f (i + n - 1)` but those that are 0 are different blocks in use.
pub record IsRow (f : ℕ → ℕ) (i n : ℕ) (d : Data) : Type 0 where
  pub in_use : (k : ℕ) → i ≤ k → k < i + n → f k ≢ 0 → used d (f k) ≡ true
  pub inside : (k : ℕ) → i ≤ k → k < i + n → f k ≢ 0 → f k < d.size
  pub apart : (k m : ℕ) → i ≤ k → k < i + n → i ≤ m → m < i + n → f k ≢ 0 → f k ≡ f m → k ≡ m

-- A block that is not of the map.
abbrev pub IsOff : ℕ → Data → Type 0
IsOff c d = (j : ℕ) → j < d.size → c ≢ bblock j d

pub record Same (d d' : Data) : Type 0 where
  pub blocks : (c : ℕ) → IsOff c d → d'.block c ≡ d.block c
  pub same_size : d'.size ≡ d.size
  pub same_map : d'.bmapstart ≡ d.bmapstart
  pub same_inodes : d'.inodestart ≡ d.inodestart

-- They are not in use any more, and nothing else has changed.
pub record Freed (f : ℕ → ℕ) (i n : ℕ) (d d' : Data) : Type 0 where
  pub free : (k : ℕ) → i ≤ k → k < i + n → f k ≢ 0 → used d' (f k) ≡ false
  pub stays : (j : ℕ) → ((k : ℕ) → i ≤ k → k < i + n → f k ≢ 0 → f k ≢ j) → used d' j ≡ used d j
  pub same : Same d d'

abbrev pub without : ℕ → Data → Data
without b d = unmark (bblock b d) (b % bpb) d

pub bfree-without : (b : ℕ) (d : Data) → used d b ≡ true → bfree b d ≡ ok (without b d)
unfolding bfree
bfree-without b d u = rw u refl

pub without_same : (b : ℕ) (d : Data) → used (without b d) b ≡ false
without_same b d = unmark-used d b b ∙ ground arith

pub without-off : (b j : ℕ) (d : Data) → j ≢ b → used (without b d) j ≡ used d j
without-off b j d ne = unmark-used d b j ∙ ground (arith, ne)

pub without-Same : (b : ℕ) (d : Data) → b < d.size → Same d (without b d)
unfolding unmark write_block
without-Same b d lt = record {
  blocks = λ c ne.
      put-off d.block (bblock b d) c
        (put (d.block (bblock b d)) (b % bpb / 8)
          (clear_bit (b % bpb % 8) (d.block (bblock b d) (b % bpb / 8))))
        (ne b lt);
  same_size = refl;
  same_map = refl;
  same_inodes = refl;
}

pub Same-IsOff : (c : ℕ) (a b : Data) → Same a b → IsOff c a → IsOff c b
Same-IsOff c a b f ne j lj e =
    ne j (subst (λ s. j < s) f.same_size lj) (e ∙ ap (λ m. j / bpb + m) f.same_map)

pub Same-trans : (a b c : Data) → Same a b → Same b c → Same a c
Same-trans a b c f g = record {
  blocks = λ x ne. g.blocks x (Same-IsOff x a b f ne) ∙ f.blocks x ne;
  same_size = g.same_size ∙ f.same_size;
  same_map = g.same_map ∙ f.same_map;
  same_inodes = g.same_inodes ∙ f.same_inodes;
}

pub none-Freed : (f : ℕ → ℕ) (i : ℕ) (d : Data) → Freed f i 0 d d
none-Freed f i d = record {
  free = λ k le lt. absurd (omega (arith, le, lt));
  stays = λ j h. refl;
  same = record { blocks = λ c h. refl; same_size = refl; same_map = refl; same_inodes = refl };
}

-- The rest of a row behind a block that is 0.
pub IsRow-tail : (f : ℕ → ℕ) (i n : ℕ) (d : Data) → IsRow f i (suc n) d → IsRow f (i + 1) n d
IsRow-tail f i n d r = record {
  in_use = λ k le lt. r.in_use k (omega (arith, le)) (omega (arith, lt));
  inside = λ k le lt. r.inside k (omega (arith, le)) (omega (arith, lt));
  apart = λ k m le lt le' lt'.
      r.apart k m (omega (arith, le)) (omega (arith, lt)) (omega (arith, le')) (omega (arith, lt'));
}

-- The rest of a row, with its first block freed.
pub IsRow-without :
    (f : ℕ → ℕ) (i n : ℕ) (d : Data)
    → IsRow f i (suc n) d
    → f i ≢ 0
    → IsRow f (i + 1) n (without (f i) d)
IsRow-without f i n d r nz =
    let s : Same d (without (f i) d) =
      without-Same (f i) d (r.inside i (omega arith) (omega arith) nz) in
    record {
      in_use = λ k le lt nk.
          without-off (f i) (f k) d (λ e. omega (
            arith,
            le,
            r.apart k i (omega (arith, le)) (omega (arith, lt)) (omega arith) (omega arith) nk e,
          ))
          ∙ r.in_use k (omega (arith, le)) (omega (arith, lt)) nk;
      inside = λ k le lt nk.
          subst (λ z. f k < z) (sym s.same_size)
            (r.inside k (omega (arith, le)) (omega (arith, lt)) nk);
      apart = λ k m le lt le' lt'.
          r.apart k m (omega (arith, le)) (omega (arith, lt)) (omega (arith, le'))
            (omega (arith, lt'));
    }

pub Freed-skip :
    (f : ℕ → ℕ) (i n : ℕ) (d d' : Data) → f i ≡ 0 → Freed f (i + 1) n d d' → Freed f i (suc n) d d'
Freed-skip f i n d d' z g = record {
  free = λ k le lt nk. elim (Bool-cases (k == i)) [
    | inl at ↦ let e : k ≡ i = ground (arith, at) in absurd (nk (ap f e ∙ z))
    | inr off ↦ g.free k (ground (arith, le, off)) (omega (arith, lt)) nk
  ];
  stays = λ j h. g.stays j (λ k le lt. h k (omega (arith, le)) (omega (arith, lt)));
  same = g.same;
}

pub Freed-next :
    (f : ℕ → ℕ) (i n : ℕ) (d d' : Data)
    → IsRow f i (suc n) d
    → f i ≢ 0
    → Freed f (i + 1) n (without (f i) d) d'
    → Freed f i (suc n) d d'
Freed-next f i n d d' r nz g = record {
  free = λ k le lt nk. elim (Bool-cases (k == i)) [
    | inl at ↦
        let e : k ≡ i = ground (arith, at) in
        ap (λ m. used d' (f m)) e
        ∙ g.stays (f i) (λ m lm lm' nm q. omega (
          arith,
          lm,
          r.apart m i (omega (arith, lm)) (omega (arith, lm')) (omega arith) (omega arith) nm q,
        ))
        ∙ without_same (f i) d
    | inr off ↦ g.free k (ground (arith, le, off)) (omega (arith, lt)) nk
  ];
  stays = λ j h.
      g.stays j (λ k le lt. h k (omega (arith, le)) (omega (arith, lt)))
      ∙ without-off (f i) j d (λ e. h i (omega arith) (omega arith) nz (sym e));
  same =
      Same-trans d (without (f i) d) d'
        (without-Same (f i) d (r.inside i (omega arith) (omega arith) nz)) g.same;
}
