-- ===== src/Blocks/Used.antt =====
-- The map of kernel/fs.c as a test for each block, and how marking, clearing and zeroing change it.
use zerocopy_ringbuf.Common.{
  ℕ, ◌+◌, ◌/◌, ◌%◌, ◌≡◌, ◌≢◌, refl, sym, ap, ◌∙◌, Bool, true, false, not, ltb, ◌||◌, ◌&&◌, ◌==◌,
  if◌then◌else◌, arith, Bool-cases, inl, inr,
}
use zerocopy_ringbuf.Blocks.{
  Bytes, Data, bpb, bsize, put, bblock, bit, set_bit, clear_bit, write_block, bzero, mark, unmark,
}
use zerocopy_ringbuf.Blocks.Bits.{bit-set_bit, bit-clear_bit}

abbrev pub used : Data → ℕ → Bool
used d b = bit (b % bpb % 8) (d.block (bblock b d) (b % bpb / 8))

pub put-at {ℓ} : {A : Type ℓ} (f : ℕ → A) (i j : ℕ) (v : A) → j ≡ i → put f i v j ≡ v
put-at f i j v e = let at : (j == i) ≡ true = ground (arith, e) in rw at refl

pub put-off {ℓ} : {A : Type ℓ} (f : ℕ → A) (i j : ℕ) (v : A) → j ≢ i → put f i v j ≡ f j
put-off f i j v ne = let off : (j == i) ≡ false = ground (arith, ne) in rw off refl

-- Two blocks whose bits stand in the same place are the same.
same_place :
    (j r m : ℕ)
    → j / bpb + m ≡ r / bpb + m
    → j % bpb / 8 ≡ r % bpb / 8
    → j % bpb % 8 ≡ r % bpb % 8
    → j ≡ r
same_place j r m a b c = omega arith

same_bit :
    (j r m : ℕ)
    → j / bpb + m ≡ r / bpb + m
    → j % bpb / 8 ≡ r % bpb / 8
    → (j % bpb % 8 == r % bpb % 8) ≡ (j == r)
same_bit j r m a b = elim (Bool-cases (j == r)) [
  | inl at ↦ let e : j ≡ r = ground (arith, at) in rw e (ground arith)
  | inr off ↦ elim (Bool-cases (j % bpb % 8 == r % bpb % 8)) [
    | inl hit ↦ absurd (ground (arith, off, same_place j r m a b (ground (arith, hit))))
    | inr miss ↦ rw (off, miss) refl
  ]
]

-- A change of the byte of block `r` by a function of its bit.
changed_bit :
    (d : Data) (r j : ℕ) (f : ℕ → ℕ → ℕ) (g : Bool → Bool → Bool)
    → ((i k v : ℕ) → bit i (f k v) ≡ g (i == k) (bit i v))
    → ((b : Bool) → g false b ≡ b)
    → let bytes : Bytes = d.block (bblock r d) in
      let at : ℕ = r % bpb / 8 in
      bit (j % bpb % 8) (
        put d.block
          (bblock r d)
          (put bytes at (f (r % bpb % 8) (bytes at)))
          (bblock j d)
          (j % bpb / 8))
      ≡ g (j == r) (used d j)
changed_bit d r j f g spec same =
    let bytes : Bytes = d.block (bblock r d) in
    let at : ℕ = r % bpb / 8 in
    let v : ℕ = f (r % bpb % 8) (bytes at) in
    let bytes' : Bytes = put bytes at v in
    let J : ℕ = j % bpb % 8 in
    let to_used : j ≢ r → g (j == r) (used d j) ≡ used d j =
      λ ne. let off : (j == r) ≡ false = ground (arith, ne) in rw off (same (used d j)) in
    elim (Bool-cases (bblock j d == bblock r d)) [
      | inr other ↦
          let ne : bblock j d ≢ bblock r d = λ e. ground (arith, other, e) in
          ap (λ (w : Bytes). bit J (w (j % bpb / 8)))
            (put-off d.block (bblock r d) (bblock j d) bytes' ne)
          ∙ sym (to_used (λ e. ne (ap (λ k. bblock k d) e)))
      | inl here ↦
          let same_block : bblock j d ≡ bblock r d = ground (arith, here) in
          ap (λ (w : Bytes). bit J (w (j % bpb / 8)))
            (put-at d.block (bblock r d) (bblock j d) bytes' same_block)
          ∙ elim (Bool-cases (j % bpb / 8 == at)) [
            | inr other ↦
                let ne : j % bpb / 8 ≢ at = λ e. ground (arith, other, e) in
                ap (bit J) (put-off bytes at (j % bpb / 8) v ne)
                ∙ ap (λ k. bit J (d.block k (j % bpb / 8))) (sym same_block)
                ∙ sym (to_used (λ e. ne (ap (λ k. k % bpb / 8) e)))
            | inl there ↦
                let same_byte : j % bpb / 8 ≡ at = ground (arith, there) in
                let old : bytes at ≡ d.block (bblock j d) (j % bpb / 8) =
                  ap (λ k. d.block k at) (sym same_block)
                  ∙ ap (d.block (bblock j d)) (sym same_byte) in
                let which : (J == r % bpb % 8) ≡ (j == r) =
                  same_bit j r d.bmapstart same_block same_byte in
                ap (bit J) (put-at bytes at (j % bpb / 8) v same_byte)
                ∙ spec J (r % bpb % 8) (bytes at)
                ∙ ap (λ b. g b (bit J (bytes at))) which
                ∙ ap (λ w. g (j == r) (bit J w)) old
          ]
    ]

pub mark-used :
    (d : Data) (r j : ℕ) → used (mark (bblock r d) (r % bpb) d) j ≡ ((j == r) || used d j)
unfolding mark write_block
mark-used d r j = changed_bit d r j set_bit (λ a b. a || b) (λ i k v. bit-set_bit i k v) (λ b. refl)

pub unmark-used :
    (d : Data) (r j : ℕ) → used (unmark (bblock r d) (r % bpb) d) j ≡ (not (j == r) && used d j)
unfolding unmark write_block
unmark-used d r j =
    changed_bit d r j clear_bit (λ a b. not a && b) (λ i k v. bit-clear_bit i k v ∙ ground arith)
      (λ b. refl)

-- Zeroing a block that is not of the map.
pub bzero-used : (d : Data) (r j : ℕ) → bblock j d ≢ r → used (bzero r d) j ≡ used d j
unfolding bzero
bzero-used d r j ne =
    ap (λ (w : Bytes). bit (j % bpb % 8) (w (j % bpb / 8)))
      (put-off d.block r (bblock j d) (λ i. if ltb i bsize then 0 else d.block r i) ne)
