-- ===== src/Blocks/Alloc.antt =====
-- balloc and bfree of kernel/fs.c on the set of used blocks.
use zerocopy_ringbuf.Common.{
  ℕ, zero, suc, ◌+◌, ◌-◌, ◌*◌, ◌/◌, ◌%◌, ◌≡◌, ◌≢◌, ◌<◌, ◌≤◌, ◌⊎◌, refl, ap, ◌∙◌, true, false, not,
  ◌||◌, ◌&&◌, none, some, ◌∷◌, ltb, ◌==◌, if◌then◌else◌, ok, panic, arith, Bool-cases, Option-cases,
  inl, inr,
}
use mathlib.Core.Path.{subst}
use zerocopy_ringbuf.Blocks.{
  Bytes, Data, bpb, bsize, min, put, bblock, bit, set_bit, clear_bit, bzero, mark, unmark,
  find_free, balloc_from, balloc, bfree,
}
use zerocopy_ringbuf.Blocks.Used.{used, mark-used, unmark-used, bzero-used, put-off, put-at}

find_free-some :
    (n bi : ℕ) (bytes : Bytes) (i : ℕ)
    → find_free n bi bytes ≡ some i
    → (bi ≤ i)
      × (i < bi + n)
      × (bit (i % 8) (bytes (i / 8)) ≡ false)
      × ((j : ℕ) → bi ≤ j → j < i → bit (j % 8) (bytes (j / 8)) ≡ true)
unfolding find_free
find_free-some zero bi bytes i e = absurd (cc)
find_free-some (suc n) bi bytes i e = elim (Bool-cases (bit (bi % 8) (bytes (bi / 8)))) [
  | inr free ↦
      let q : bi ≡ i = ap (λ o. elim o [ some x ↦ x | none ↦ bi ]) (rw (free, find_free) at e) in
      rw⁻¹ q (omega arith, omega arith, free, λ j a b. absurd (omega (arith, a, b)))
  | inl full ↦
      let (a, b, c, f) = find_free-some n (bi + 1) bytes i (rw (full, find_free) at e) in
      (
        omega (arith, a),
        omega (arith, b),
        c,
        λ j le lt. elim (Bool-cases (j == bi)) [
          | inl at ↦ let q : j ≡ bi = ground (arith, at) in rw q full
          | inr off ↦ f j (ground (arith, le, off)) lt
        ],
      )
]

find_free-none :
    (n bi : ℕ) (bytes : Bytes)
    → find_free n bi bytes ≡ none
    → (j : ℕ) → bi ≤ j
    → j < bi + n
    → bit (j % 8) (bytes (j / 8)) ≡ true
unfolding find_free
find_free-none zero bi bytes e j le lt = absurd (omega (arith, le, lt))
find_free-none (suc n) bi bytes e j le lt = elim (Bool-cases (bit (bi % 8) (bytes (bi / 8)))) [
  | inr free ↦ absurd (cc (rw (free, find_free) at e))
  | inl full ↦ elim (Bool-cases (j == bi)) [
    | inl at ↦ let q : j ≡ bi = ground (arith, at) in rw q full
    | inr off ↦
        find_free-none n (bi + 1) bytes (rw (full, find_free) at e) j (ground (arith, le, off))
          (omega (arith, lt))
  ]
]

-- The blocks of the map are in use themselves.
abbrev pub IsMapped : Data → Type 0
IsMapped d = (j : ℕ) → j < d.size → used d (bblock j d) ≡ true

-- The first free block was allocated.
pub record Allocated (d : Data) (r : ℕ) (d' : Data) : Type 0 where
  pub below : r < d.size
  pub free : used d r ≡ false
  pub first : (j : ℕ) → j < r → used d j ≡ true
  pub marked : (j : ℕ) → j < d.size → used d' j ≡ ((j == r) || used d j)
  pub zeroed : (i : ℕ) → i < bsize → d'.block r i ≡ 0
  pub others : (b : ℕ) → b ≢ r → b ≢ bblock r d → d'.block b ≡ d.block b
  pub logs : d'.logged ≡ r ∷ bblock r d ∷ d.logged
  pub same_size : d'.size ≡ d.size
  pub same_map : d'.bmapstart ≡ d.bmapstart

-- The block is marked and zeroed.
allocate :
    (d : Data) (r : ℕ)
    → IsMapped d
    → r < d.size
    → used d r ≡ false
    → ((j : ℕ) → j < r → used d j ≡ true)
    → Allocated d r (bzero r (mark (bblock r d) (r % bpb) d))
unfolding bzero mark
allocate d r v lt free first =
    let d1 : Data = mark (bblock r d) (r % bpb) d in
    let zeros : Bytes = λ i. if ltb i bsize then 0 else d1.block r i in
    let bytes : Bytes =
      put (d.block (bblock r d)) (r % bpb / 8)
        (set_bit (r % bpb % 8) (d.block (bblock r d) (r % bpb / 8))) in
    let apart : (j : ℕ) → j < d.size → bblock j d ≢ r =
      λ j lj e. cc (ap (λ k. used d k) e, v j lj, free) in
    record {
      below = lt;
      free = free;
      first = first;
      marked = λ j lj. bzero-used d1 r j (apart j lj) ∙ mark-used d r j;
      zeroed = λ i li.
          let low : ltb i bsize ≡ true = ground (arith, li) in
          ap (λ (w : Bytes). w i) (put-at d1.block r r zeros refl) ∙ rw low refl;
      others = λ b ne ne'. put-off d1.block r b zeros ne ∙ put-off d.block (bblock r d) b bytes ne';
      logs = refl;
      same_size = refl;
      same_map = refl;
    }

min-le : (a b x : ℕ) → x < min a b → (x < a) × (x < b)
min-le a b x h = elim (Bool-cases (ltb a b)) [
  | inl lt ↦ ground (arith, lt, rw lt at h)
  | inr ge ↦ ground (arith, ge, rw ge at h)
]

lt-min : (a b x : ℕ) → x < a → x < b → x < min a b
lt-min a b x h k = elim (Bool-cases (ltb a b)) [ inl lt ↦ rw lt h | inr ge ↦ rw ge k ]

-- The bit of a block of the map, as a test for the block that it is for.
bit-used :
    (d : Data) (b i : ℕ)
    → b % bpb ≡ 0
    → i < bpb
    → used d (b + i) ≡ bit (i % 8) (d.block (bblock b d) (i / 8))
bit-used d b i al lt =
    let e : (b + i) % bpb ≡ i = omega (arith, al, lt) in
    let f : bblock (b + i) d ≡ bblock b d = omega (arith, al, lt) in rw (e, f) refl

-- The results of balloc: the first free block, or 0 where there is none.
abbrev pub IsAllocation : Data → ℕ × Data → Type 0
IsAllocation d p = Allocated d p.0 p.1 ⊎ (((j : ℕ) → j < d.size → used d j ≡ true) × (p ≡ (0, d)))

-- The rounds of balloc behind the blocks of the map that are full.
balloc_from-lem :
    (n b : ℕ) (d : Data)
    → IsMapped d
    → b % bpb ≡ 0
    → d.size ≤ b + n * bpb
    → ((j : ℕ) → j < b → j < d.size → used d j ≡ true)
    → IsAllocation d (balloc_from n b d)
unfolding balloc_from
balloc_from-lem zero b d v al all full = inr (λ j lt. full j (omega (arith, all, lt)) lt, refl)
balloc_from-lem (suc n) b d v al all full =
    let bytes : Bytes = d.block (bblock b d) in
    let rounds : ℕ = min bpb (d.size - b) in
    elim (Option-cases (find_free rounds 0 bytes)) [
      | inr (bi, found) ↦
          let (_, lt, free, first) = find_free-some rounds 0 bytes bi found in
          let (low, inside) = min-le bpb (d.size - b) bi (omega (arith, lt)) in
          let e : (b + bi) % bpb ≡ bi = omega (arith, al, low) in
          let f : bblock (b + bi) d ≡ bblock b d = omega (arith, al, low) in
          let a : Allocated d (b + bi)
              (bzero (b + bi) (mark (bblock (b + bi) d) ((b + bi) % bpb) d)) =
            allocate d (b + bi) v (omega (arith, inside)) (bit-used d b bi al low ∙ free) (λ j lj.
              elim (Bool-cases (ltb j b)) [
                | inl before ↦ full j (ground (arith, before)) (omega (arith, lj, inside))
                | inr behind ↦
                    let ge : b ≤ j = ground (arith, behind) in
                    let at : b + (j - b) ≡ j = omega (arith, ge) in
                    subst (λ k. used d k ≡ true) at
                      (bit-used d b (j - b) al (omega (arith, low, lj, ge))
                        ∙ first (j - b) (omega arith) (omega (arith, lj, ge)))
              ]) in
          rw (found, balloc_from)
            (inl (
              subst (λ k. Allocated d (b + bi) (bzero (b + bi) (mark k bi d))) f
                (subst (λ k. Allocated d (b + bi) (bzero (b + bi) (mark (bblock (b + bi) d) k d))) e
                  a)))
      | inl none_free ↦
          rw (none_free, balloc_from)
            (balloc_from-lem n (b + bpb) d v (omega (arith, al)) (omega (arith, all)) (λ j lj lt.
              elim (Bool-cases (ltb j b)) [
                | inl before ↦ full j (ground (arith, before)) lt
                | inr behind ↦
                    let ge : b ≤ j = ground (arith, behind) in
                    let at : b + (j - b) ≡ j = omega (arith, ge) in
                    let low : j - b < bpb = omega (arith, lj, ge) in
                    subst (λ k. used d k ≡ true) at
                      (bit-used d b (j - b) al low
                        ∙ find_free-none rounds 0 bytes none_free (j - b) (omega arith) (
                            omega
                              (arith, lt-min bpb (d.size - b) (j - b) low (omega (arith, lt, ge)))))
              ]))
    ]

-- Where the map marks the blocks as used that it stands in itself: balloc returns the first unused
-- block, marks it alone, zeroes it, changes no block but it and its block of the map, and gives
-- both to log_write; or, where every block is used, it returns 0 and changes nothing.
pub balloc_lem : (d : Data) → IsMapped d → IsAllocation d (balloc d)
unfolding balloc
balloc_lem d v =
    balloc_from-lem ((d.size + (bpb - 1)) / bpb) 0 d v (omega arith) (omega arith)
      (λ j lt. absurd (omega (arith, lt)))

-- bfree panics for a block that is not used; for a used one it returns, that block alone is unused
-- then, and only its block of the map changes and is given to log_write.
pub bfree_lem :
    (d : Data) (b : ℕ)
    → ((used d b ≡ false) × (bfree b d ≡ panic))
      ⊎ ((d' : Data) × (used d b ≡ true)
          × (bfree b d ≡ ok d')
          × ((j : ℕ) → used d' j ≡ (not (j == b) && used d j))
          × ((c : ℕ) → c ≢ bblock b d → d'.block c ≡ d.block c)
          × (d'.logged ≡ bblock b d ∷ d.logged))
unfolding bfree unmark
bfree_lem d b =
    let bytes : Bytes =
      put (d.block (bblock b d)) (b % bpb / 8)
        (clear_bit (b % bpb % 8) (d.block (bblock b d) (b % bpb / 8))) in
    elim (Bool-cases (used d b)) [
      | inr free ↦ inl (free, rw free refl)
      | inl in_use ↦ inr (
        unmark (bblock b d) (b % bpb) d,
        in_use,
        rw in_use refl,
        λ j. unmark-used d b j,
        λ c ne. put-off d.block (bblock b d) c bytes ne,
        refl,
      )
    ]
