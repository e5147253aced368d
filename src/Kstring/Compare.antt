-- ===== src/Kstring/Compare.antt =====
-- `strncmp`, `strncpy` and `strlen` of kernel/string.c: what they say of the strings.
use zerocopy_ringbuf.Common.{
  ℕ, zero, suc, ◌+◌, ◌≤◌, ◌<◌, ◌≡◌, ◌≢◌, ◌↔◌, refl, ap, ◌∙◌, true, some, success, arith, ◌!=◌,
  Bool-cases, inl, inr,
}
use native.Mathlib.Decide.{dec_lt}
use zerocopy_ringbuf.Kstring.{
  Chars, put, strncmp, strncmp_from, strncpy, copy_from, pad_from, strlen, strlen_from,
}

-- A later round writes nothing below its offset.
pad_from-below : (n : ℕ) (s : Chars) (i j : ℕ) → j < i → pad_from n s i j ≡ s j
unfolding pad_from
pad_from-below zero s i j h = refl
pad_from-below (suc n) s i j h = ground (arith, pad_from-below n (put s i 0) (i + 1) j)

copy_from-below : (n : ℕ) (s t : Chars) (i j : ℕ) → j < i → copy_from n s t i j ≡ s j
unfolding copy_from
copy_from-below zero s t i j h = refl
copy_from-below (suc n) s t i j h = ground (
  arith,
  copy_from-below n (put s i (t i)) t (i + 1) j,
  pad_from-below n (put s i (t i)) (i + 1) j,
)

copy_from-here : (n : ℕ) (s t : Chars) (i : ℕ) → copy_from (suc n) s t i i ≡ t i
unfolding copy_from
copy_from-here n s t i = ground (
  arith,
  copy_from-below n (put s i (t i)) t (i + 1) i,
  pad_from-below n (put s i (t i)) (i + 1) i,
)

copy_from-more :
    (n : ℕ) (s t : Chars) (i : ℕ)
    → (t i != 0) ≡ true
    → copy_from (suc n) s t i ≡ copy_from n (put s i (t i)) t (i + 1)
unfolding copy_from
copy_from-more n s t i h = rw h

strncmp_from-copy_from :
    (n : ℕ) (s t q : Chars) (i : ℕ) → strncmp_from n (copy_from n s t i) q i ≡ strncmp_from n t q i
unfolding strncmp_from
strncmp_from-copy_from zero s t q i = refl
strncmp_from-copy_from (suc n) s t q i = elim (Bool-cases (t i != 0)) [
  | inl more ↦
      let rest : strncmp_from n (copy_from (suc n) s t i) q (i + 1) ≡ strncmp_from n t q (i + 1) =
        ap (λ c. strncmp_from n c q (i + 1)) (copy_from-more n s t i more)
        ∙ strncmp_from-copy_from n (put s i (t i)) t q (i + 1) in
      rw (copy_from-here n s t i, more, rest)
  | inr stop ↦ rw (copy_from-here n s t i, stop)
]

-- With the same bound, a copy made by strncpy compares by strncmp with any string as the original
-- does.
strncmp-strncpy : (s t q : Chars) (n : ℕ) → strncmp (strncpy s t n) q n ≡ strncmp t q n
unfolding strncmp strncpy
strncmp-strncpy s t q n = strncmp_from-copy_from n s t q 0

-- The strings agree up to the end of the first or to `n` bytes.
abbrev pub Agree : Chars → Chars → ℕ → Type 0
Agree p q n = (j : ℕ) → j < n → ((k : ℕ) → k < j → p k ≢ 0) → p j ≡ q j

-- Agreement from offset `i` on.
abbrev AgreeFrom : Chars → Chars → ℕ → ℕ → Type 0
AgreeFrom p q n i = (j : ℕ) → j < n → ((k : ℕ) → k < j → p (i + k) ≢ 0) → p (i + j) ≡ q (i + j)

AgreeFrom-suc :
    (n : ℕ) (p q : Chars) (i : ℕ)
    → p i ≡ q i
    → (p i ≢ 0 → AgreeFrom p q n (i + 1))
    → AgreeFrom p q (suc n) i
AgreeFrom-suc n p q i e h zero lt nz = let z : i + 0 ≡ i = omega arith in rw z e
AgreeFrom-suc n p q i e h (suc j) lt nz =
    let at : i + suc j ≡ i + 1 + j = omega arith in
    let first : i + 0 ≡ i = omega arith in
    rw at (
      h (rw first at (nz 0 (omega arith))) j (omega arith)
        (λ k kj. let z : i + suc k ≡ i + 1 + k = omega arith in rw z at (nz (suc k) (omega arith))))

AgreeFrom-first : (n : ℕ) (p q : Chars) (i : ℕ) → AgreeFrom p q (suc n) i → p i ≡ q i
AgreeFrom-first n p q i h =
    let z : i + 0 ≡ i = omega arith in rw z at (h 0 (omega arith) (λ k lt. absurd (omega arith)))

AgreeFrom-rest :
    (n : ℕ) (p q : Chars) (i : ℕ) → p i ≢ 0 → AgreeFrom p q (suc n) i → AgreeFrom p q n (i + 1)
AgreeFrom-rest n p q i ne h j lt nz =
    let at : i + suc j ≡ i + 1 + j = omega arith in rw at at (h (suc j) (omega arith) nonzero)
  where
    nonzero : (k : ℕ) → k < suc j → p (i + k) ≢ 0
    nonzero zero kj = let z : i + 0 ≡ i = omega arith in rw z ne
    nonzero (suc k) kj = let z : i + suc k ≡ i + 1 + k = omega arith in rw z (nz k (omega arith))

strncmp_from_iff :
    (n : ℕ) (p q : Chars) (i : ℕ) → (strncmp_from n p q i ≡ success) ↔ AgreeFrom p q n i
unfolding strncmp_from
strncmp_from_iff zero p q i = (λ _ j lt. absurd (omega arith), λ _. refl)
strncmp_from_iff (suc n) p q i =
    let ih = strncmp_from_iff n p q (i + 1) in
    (
      λ e. AgreeFrom-suc n p q i (ground arith) (λ ne. ih.0 (ground arith)),
      λ h. elim (dec_lt 0 (p i)) [
        | yes more ↦
            ground (arith, AgreeFrom-first n p q i h, ih.1 (AgreeFrom-rest n p q i (omega arith) h))
        | no stop ↦ ground (arith, AgreeFrom-first n p q i h)
      ],
    )

-- strncmp returns 0 exactly where the strings agree up to the end of the first or for n bytes.
strncmp_iff : (n : ℕ) (p q : Chars) → (strncmp p q n ≡ success) ↔ Agree p q n
unfolding strncmp
strncmp_iff n p q = (
  λ e j lt nz.
      let z : 0 + j ≡ j = omega arith in
      rw z at (
        (strncmp_from_iff n p q 0).0 e j lt
          (λ k kj. let y : 0 + k ≡ k = omega arith in rw y (nz k kj))),
  λ h. (strncmp_from_iff n p q 0).1 (λ j lt nz.
      let z : 0 + j ≡ j = omega arith in
      rw z (h j lt (λ k kj. let y : 0 + k ≡ k = omega arith in rw y at (nz k kj)))),
)

-- The length is the place of the first 0 byte, if there is one within the bound.
strlen_from_iff :
    (b : ℕ) (s : Chars) (i n : ℕ)
    → strlen_from b s i ≡ some n
    → (i ≤ n) × (n < i + b) × (s n ≡ 0) × ((k : ℕ) → i ≤ k → k < n → s k ≢ 0)
unfolding strlen_from
strlen_from_iff zero s i n e = absurd (cc)
strlen_from_iff (suc b) s i n e = elim (Bool-cases (s i != 0)) [
  | inl more ↦
      let (lo, hi, z, nz) = strlen_from_iff b s (i + 1) n (ground arith) in
      (
        omega arith,
        omega arith,
        z,
        λ k le lt. elim (dec_lt i k) [
          | yes above ↦ nz k (omega arith) lt
          | no here ↦ let q : k ≡ i = omega arith in rw q (ground arith)
        ],
      )
  | inr stop ↦
      let q : i ≡ n = ground arith in
      (omega arith, omega arith, rw (← q) (ground arith), λ k le lt. absurd (omega arith))
]

strlen_from-first :
    (b : ℕ) (s : Chars) (i n : ℕ)
    → i ≤ n
    → n < i + b
    → s n ≡ 0
    → ((k : ℕ) → i ≤ k → k < n → s k ≢ 0)
    → strlen_from b s i ≡ some n
unfolding strlen_from
strlen_from-first zero s i n lo hi z nz = absurd (omega arith)
strlen_from-first (suc b) s i n lo hi z nz = elim (dec_lt i n) [
  | yes below ↦ ground (
    arith,
    nz i (omega arith) below,
    strlen_from-first b s (i + 1) n (omega arith) (omega arith) z
        (λ k le lt. nz k (omega arith) lt),
  )
  | no here ↦ let q : i ≡ n = omega arith in rw q (ground arith)
]

-- strlen returns n exactly where n is within the bound and is the place of the first 0 byte.
strlen_lem :
    (bound : ℕ) (s : Chars) (n : ℕ)
    → (strlen bound s ≡ some n) ↔ ((n < bound) × (s n ≡ 0) × ((k : ℕ) → k < n → s k ≢ 0))
unfolding strlen
strlen_lem bound s n = (
  λ e.
      let (lo, hi, z, nz) = strlen_from_iff bound s 0 n e in
      (omega arith, z, λ k lt. nz k (omega arith) lt),
  λ (hi, z, nz). strlen_from-first bound s 0 n (omega arith) (omega arith) z (λ k le lt. nz k lt),
)
