-- ===== src/Itrunc/Loops.antt =====
-- The two loops of itrunc: each frees its row of blocks.
use zerocopy_ringbuf.Common.{
  ℕ, zero, suc, ◌+◌, ◌≡◌, ◌≢◌, ◌<◌, ◌≤◌, refl, sym, ap, ◌∙◌, ◌==◌, ok, arith, Bool-cases, inl, inr,
}
use zerocopy_ringbuf.Blocks.{Bytes, Data, put, bfree}
use zerocopy_ringbuf.Blocks.Used.{put-at, put-off}
use zerocopy_ringbuf.Bmap.{Inode, uint_at}
use zerocopy_ringbuf.Itrunc.{free_addrs, free_entries}
use zerocopy_ringbuf.Itrunc.Freed.{
  IsRow, Same, IsOff, Same-IsOff, Freed, without, bfree-without, without-Same, none-Freed,
  IsRow-tail, IsRow-without, Freed-skip, Freed-next,
}

-- The addresses `i` to `i + n - 1` are 0.
pub record Cleared (i n : ℕ) (ip ip' : Inode) : Type 0 where
  pub gone : (k : ℕ) → i ≤ k → k < i + n → ip'.addrs k ≡ 0
  pub before : (k : ℕ) → k < i → ip'.addrs k ≡ ip.addrs k
  pub behind : (k : ℕ) → i + n ≤ k → ip'.addrs k ≡ ip.addrs k
  pub same_inum : ip'.inum ≡ ip.inum

Cleared-skip :
    (i n : ℕ) (ip ip' : Inode)
    → ip.addrs i ≡ 0
    → Cleared (i + 1) n ip ip'
    → Cleared i (suc n) ip ip'
Cleared-skip i n ip ip' z c = record {
  gone = λ k le lt. elim (Bool-cases (k == i)) [
    | inl at ↦ let e : k ≡ i = ground (arith, at) in ap ip'.addrs e ∙ c.before i (omega arith) ∙ z
    | inr off ↦ c.gone k (ground (arith, le, off)) (omega (arith, lt))
  ];
  before = λ k lt. c.before k (omega (arith, lt));
  behind = λ k le. c.behind k (omega (arith, le));
  same_inum = c.same_inum;
}

Cleared-next :
    (i n : ℕ) (ip ip' : Inode)
    → Cleared (i + 1) n (record ip { addrs = put ip.addrs i 0 }) ip'
    → Cleared i (suc n) ip ip'
Cleared-next i n ip ip' c = record {
  gone = λ k le lt. elim (Bool-cases (k == i)) [
    | inl at ↦
        let e : k ≡ i = ground (arith, at) in
        ap ip'.addrs e ∙ c.before i (omega arith) ∙ put-at ip.addrs i i 0 refl
    | inr off ↦ c.gone k (ground (arith, le, off)) (omega (arith, lt))
  ];
  before = λ k lt. c.before k (omega (arith, lt)) ∙ put-off ip.addrs i k 0 (omega (arith, lt));
  behind = λ k le. c.behind k (omega (arith, le)) ∙ put-off ip.addrs i k 0 (omega (arith, le));
  same_inum = c.same_inum;
}

pub free_addrs-Freed :
    (f : ℕ → ℕ) (n i : ℕ) (ip : Inode) (d : Data)
    → IsRow f i n d
    → ((k : ℕ) → i ≤ k → k < i + n → ip.addrs k ≡ f k)
    → (ip' : Inode) × (d' : Data) × (free_addrs n i ip d ≡ ok (ip', d'))
      × Freed f i n d d'
      × Cleared i n ip ip'
unfolding free_addrs
free_addrs-Freed f zero i ip d r h = (
  ip,
  d,
  refl,
  none-Freed f i d,
  record {
    gone = λ k le lt. absurd (omega (arith, le, lt));
    before = λ k lt. refl;
    behind = λ k le. refl;
    same_inum = refl;
  },
)
free_addrs-Freed f (suc n) i ip d r h = elim (Bool-cases (ip.addrs i == 0)) [
  | inl z ↦
      let empty : ip.addrs i ≡ 0 = ground (arith, z) in
      let (ip', d', e, g, c) =
        free_addrs-Freed f n (i + 1) ip d (IsRow-tail f i n d r)
          (λ k le lt. h k (omega (arith, le)) (omega (arith, lt))) in
      (
        ip',
        d',
        rw (z, free_addrs) e,
        Freed-skip f i n d d' (sym (h i (omega arith) (omega arith)) ∙ empty) g,
        Cleared-skip i n ip ip' empty c,
      )
  | inr nz ↦
      let at : ip.addrs i ≡ f i = h i (omega arith) (omega arith) in
      let some_block : f i ≢ 0 = λ e. ground (arith, nz, at ∙ e) in
      let freed : bfree (ip.addrs i) d ≡ ok (without (f i) d) =
        ap (λ b. bfree b d) at
        ∙ bfree-without (f i) d (r.in_use i (omega arith) (omega arith) some_block) in
      let (ip', d', e, g, c) =
        free_addrs-Freed f n (i + 1) (record ip { addrs = put ip.addrs i 0 }) (without (f i) d)
          (IsRow-without f i n d r some_block)
          (λ k le lt.
            put-off ip.addrs i k 0 (omega (arith, le))
            ∙ h k (omega (arith, le)) (omega (arith, lt))) in
      (
        ip',
        d',
        rw (nz, freed, free_addrs) e,
        Freed-next f i n d d' r some_block g,
        Cleared-next i n ip ip' c,
      )
]

pub free_entries-Freed :
    (f : ℕ → ℕ) (n j ind : ℕ) (d : Data)
    → IsRow f j n d
    → IsOff ind d
    → ((k : ℕ) → j ≤ k → k < j + n → uint_at (d.block ind) k ≡ f k)
    → (d' : Data) × (free_entries n j ind d ≡ ok d') × Freed f j n d d'
unfolding free_entries
free_entries-Freed f zero j ind d r off h = (d, refl, none-Freed f j d)
free_entries-Freed f (suc n) j ind d r off h = elim (Bool-cases (uint_at (d.block ind) j == 0)) [
  | inl z ↦
      let empty : uint_at (d.block ind) j ≡ 0 = ground (arith, z) in
      let (d', e, g) =
        free_entries-Freed f n (j + 1) ind d (IsRow-tail f j n d r) off
          (λ k le lt. h k (omega (arith, le)) (omega (arith, lt))) in
      (
        d',
        rw (z, free_entries) e,
        Freed-skip f j n d d' (sym (h j (omega arith) (omega arith)) ∙ empty) g,
      )
  | inr nz ↦
      let at : uint_at (d.block ind) j ≡ f j = h j (omega arith) (omega arith) in
      let some_block : f j ≢ 0 = λ e. ground (arith, nz, at ∙ e) in
      let freed : bfree (uint_at (d.block ind) j) d ≡ ok (without (f j) d) =
        ap (λ b. bfree b d) at
        ∙ bfree-without (f j) d (r.in_use j (omega arith) (omega arith) some_block) in
      let s : Same d (without (f j) d) =
        without-Same (f j) d (r.inside j (omega arith) (omega arith) some_block) in
      let (d', e, g) =
        free_entries-Freed f n (j + 1) ind (without (f j) d) (IsRow-without f j n d r some_block)
          (Same-IsOff ind d (without (f j) d) s off)
          (λ k le lt.
            ap (λ (w : Bytes). uint_at w k) (s.blocks ind off)
            ∙ h k (omega (arith, le)) (omega (arith, lt))) in
      (d', rw (nz, freed, free_entries) e, Freed-next f j n d d' r some_block g)
]
