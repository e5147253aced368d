-- ===== src/Bio/Linked.antt =====
-- Doubly linked lists by `next` and `prev`: reading one as a list, taking an element out, and putting
-- one in front.
use zerocopy_ringbuf.Common.{
  ℕ, ◌≡◌, ◌≢◌, refl, sym, ◌∙◌, true, false, ◌||◌, List, [], ◌∷◌, ◌++◌, ◌==◌, arith, Bool-cases, inl,
  inr,
}
use mathlib.Core.Path.{subst}
use mathlib.Core.List.{append-nil}
use zerocopy_ringbuf.Kalloc.FreeList.{has}
use zerocopy_ringbuf.Bio.{put}

abbrev pub Distinct : List ℕ → Type 0
Distinct [] = Unit
Distinct (x ∷ xs) = (has x xs ≡ false) × Distinct xs

-- From `a` by `xs` to `b`, and back.
abbrev pub Linked : (ℕ → ℕ) → (ℕ → ℕ) → ℕ → List ℕ → ℕ → Type 0
Linked next prev a [] b = (next a ≡ b) × (prev b ≡ a)
Linked next prev a (x ∷ xs) b = (next a ≡ x) × (prev x ≡ a) × Linked next prev x xs b

-- The first of a list and the end behind it, and the last and the start before it.
abbrev pub first_of : List ℕ → ℕ → ℕ
first_of [] b = b
first_of (x ∷ xs) b = x

abbrev pub last_of : ℕ → List ℕ → ℕ
last_of a [] = a
last_of a (x ∷ xs) = last_of x xs

-- Writes elsewhere keep the links.
pub Linked-frame :
    (next prev next' prev' : ℕ → ℕ) (a : ℕ) (xs : List ℕ) (b : ℕ)
    → ((j : ℕ) → has j (a ∷ xs) ≡ true → next' j ≡ next j)
    → ((j : ℕ) → (has j xs || (j == b)) ≡ true → prev' j ≡ prev j)
    → Linked next prev a xs b
    → Linked next' prev' a xs b
Linked-frame next prev next' prev' a [] b n p l =
    (n a (ground arith) ∙ l.0, p b (ground arith) ∙ l.1)
Linked-frame next prev next' prev' a (x ∷ xs) b n p l = (
  n a (ground arith) ∙ l.0,
  p x (ground arith) ∙ l.1,
  Linked-frame next prev next' prev' x xs b (λ j h. n j (ground (arith, h)))
      (λ j h. p j (ground (arith, h))) l.2,
)

pub has-append : (j : ℕ) (xs ys : List ℕ) → has j (xs ++ ys) ≡ (has j xs || has j ys)
has-append j [] ys = refl
has-append j (x ∷ xs) ys = ground (arith, has-append j xs ys)

pub Distinct-append :
    (xs ys : List ℕ)
    → Distinct (xs ++ ys)
    → Distinct xs × Distinct ys × ((j : ℕ) → has j xs ≡ true → has j ys ≡ false)
Distinct-append [] ys d = (tt, d, λ j h. absurd (cc))
Distinct-append (x ∷ xs) ys (new, d) =
    let (dx, dy, apart) = Distinct-append xs ys d in
    let none_of : (has x xs || has x ys) ≡ false = sym (has-append x xs ys) ∙ new in
    (
      (ground (arith, none_of), dx),
      dy,
      λ j h. elim (Bool-cases (j == x)) [
        | inl at ↦ let e : j ≡ x = ground (arith, at) in rw e (ground (arith, none_of))
        | inr off ↦ apart j (ground (arith, off, h))
      ],
    )

pub Distinct-join :
    (xs ys : List ℕ)
    → Distinct xs
    → Distinct ys
    → ((j : ℕ) → has j xs ≡ true → has j ys ≡ false)
    → Distinct (xs ++ ys)
Distinct-join [] ys dx dy apart = dy
Distinct-join (x ∷ xs) ys (new, dx) dy apart = (
  has-append x xs ys ∙ ground (arith, new, apart x),
  Distinct-join xs ys dx dy (λ j h. apart j (ground (arith, h))),
)

pub Linked-split :
    (next prev : ℕ → ℕ) (a : ℕ) (ys : List ℕ) (x : ℕ) (zs : List ℕ) (b : ℕ)
    → Linked next prev a (ys ++ x ∷ zs) b
    → Linked next prev a ys x × Linked next prev x zs b
Linked-split next prev a [] x zs b l = ((l.0, l.1), l.2)
Linked-split next prev a (y ∷ ys) x zs b l =
    let (m, r) = Linked-split next prev y ys x zs b l.2 in ((l.0, l.1, m), r)

pub Linked-join :
    (next prev : ℕ → ℕ) (a : ℕ) (ys : List ℕ) (x : ℕ) (zs : List ℕ) (b : ℕ)
    → Linked next prev a ys x
    → Linked next prev x zs b
    → Linked next prev a (ys ++ x ∷ zs) b
Linked-join next prev a [] x zs b m r = (m.0, m.1, r)
Linked-join next prev a (y ∷ ys) x zs b m r = (m.0, m.1, Linked-join next prev y ys x zs b m.2 r)

pub Linked-first :
    (next prev : ℕ → ℕ) (a : ℕ) (xs : List ℕ) (b : ℕ)
    → Linked next prev a xs b
    → next a ≡ first_of xs b
Linked-first next prev a [] b l = l.0
Linked-first next prev a (x ∷ xs) b l = l.0

pub Linked-last :
    (next prev : ℕ → ℕ) (a : ℕ) (xs : List ℕ) (b : ℕ)
    → Linked next prev a xs b
    → prev b ≡ last_of a xs
Linked-last next prev a [] b l = l.1
Linked-last next prev a (x ∷ xs) b l = Linked-last next prev x xs b l.2

pub has-last_of : (a : ℕ) (xs : List ℕ) → has (last_of a xs) (a ∷ xs) ≡ true
has-last_of a [] = ground arith
has-last_of a (x ∷ xs) = ground (arith, has-last_of x xs)

pub put-at : (f : ℕ → ℕ) (i j v : ℕ) → j ≡ i → put f i v j ≡ v
put-at f i j v e = let at : (j == i) ≡ true = ground (arith, e) in rw at refl

pub put-off : (f : ℕ → ℕ) (i j v : ℕ) → j ≢ i → put f i v j ≡ f j
put-off f i j v ne = let off : (j == i) ≡ false = ground (arith, ne) in rw off refl

-- The end of a list is moved to `n`.
Linked-repoint :
    (next prev : ℕ → ℕ) (a : ℕ) (ys : List ℕ) (x n : ℕ)
    → Distinct (a ∷ ys)
    → has n ys ≡ false
    → Linked next prev a ys x
    → Linked (put next (last_of a ys) n) (put prev n (last_of a ys)) a ys n
Linked-repoint next prev a [] x n d h l = (put-at next a a n refl, put-at prev n n a refl)
Linked-repoint next prev a (y ∷ ys) x n d h l =
    let p : ℕ = last_of y ys in
    let ne : a ≢ p = λ e. ground (arith, has-last_of y ys, d.0, e) in
    (
      put-off next p a n ne ∙ l.0,
      put-off prev n y p (λ e. ground (arith, h, e)) ∙ l.1,
      Linked-repoint next prev y ys x n d.1 (ground (arith, h)) l.2,
    )

-- The element between `ys` and `zs` is taken out.
pub Linked-unlink :
    (next prev : ℕ → ℕ) (a : ℕ) (ys : List ℕ) (x : ℕ) (zs : List ℕ)
    → Distinct (a ∷ ys ++ x ∷ zs)
    → Linked next prev a (ys ++ x ∷ zs) a
    → Linked
        (put next (last_of a ys) (first_of zs a))
        (put prev (first_of zs a) (last_of a ys))
        a
        (ys ++ zs)
        a
Linked-unlink next prev a ys x [] d l =
    let (da, _, _) = Distinct-append (a ∷ ys) (x ∷ []) d in
    let (m, _) = Linked-split next prev a ys x [] a l in
    subst (λ q. Linked (put next (last_of a ys) a) (put prev a (last_of a ys)) a q a)
      (sym (append-nil ys)) (Linked-repoint next prev a ys x a da da.0 m)
Linked-unlink next prev a ys x (z ∷ zs) d l =
    let (da, dz, apart) = Distinct-append (a ∷ ys) (x ∷ z ∷ zs) d in
    let (m, r) = Linked-split next prev a ys x (z ∷ zs) a l in
    let p : ℕ = last_of a ys in
    let before : has p (x ∷ z ∷ zs) ≡ false = apart p (has-last_of a ys) in
    let not_z : has z ys ≡ false = elim (Bool-cases (has z ys)) [
      | inl h ↦ absurd (ground (arith, apart z (ground (arith, h))))
      | inr h ↦ h
    ] in
    let start : has a (x ∷ z ∷ zs) ≡ false = apart a (ground arith) in
    Linked-join (put next p z) (put prev z p) a ys z zs a
      (Linked-repoint next prev a ys x z da not_z m)
      (Linked-frame next prev (put next p z) (put prev z p) z zs a
        (λ j h. put-off next p j z (λ e. ground (arith, before, h, e)))
        (λ j h. put-off prev z j p (λ e. ground (arith, dz.1.0, start, h, e))) r.2)

-- An element is put in front.
pub Linked-front :
    (next prev : ℕ → ℕ) (a b : ℕ) (xs : List ℕ)
    → Distinct (a ∷ xs)
    → has b (a ∷ xs) ≡ false
    → Linked next prev a xs a
    → Linked
        (put (put next b (first_of xs a)) a b)
        (put (put prev b a) (first_of xs a) b)
        a
        (b ∷ xs)
        a
Linked-front next prev a b [] d new l =
    let ne : b ≢ a = λ e. ground (arith, new, e) in
    let next' : ℕ → ℕ = put next b a in
    let prev' : ℕ → ℕ = put prev b a in
    (
      put-at next' a a b refl,
      put-off prev' a b b ne ∙ put-at prev b b a refl,
      (put-off next' a b b ne ∙ put-at next b b a refl, put-at prev' a a b refl),
    )
Linked-front next prev a b (x ∷ xs) d new l =
    let ne : b ≢ a = λ e. ground (arith, new, e) in
    let ne_x : b ≢ x = λ e. ground (arith, new, e) in
    let next' : ℕ → ℕ = put next b x in
    let prev' : ℕ → ℕ = put prev b a in
    (
      put-at next' a a b refl,
      put-off prev' x b b ne_x ∙ put-at prev b b a refl,
      (
        put-off next' a b b ne ∙ put-at next b b x refl,
        put-at prev' x x b refl,
        Linked-frame next prev (put next' a b) (put prev' x b) x xs a
            (λ j h.
              put-off next' a j b (λ e. ground (arith, d.0, h, e))
              ∙ put-off next b j x (λ e. ground (arith, new, h, e)))
            (λ j h.
              put-off prev' x j b (λ e. ground (arith, d.0, d.1, h, e))
              ∙ put-off prev b j a (λ e. ground (arith, new, h, e)))
            l.2,
      ),
    )
