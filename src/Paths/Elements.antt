-- ===== src/Paths/Elements.antt =====
-- Reading the elements of a path back, by skipelem of kernel/fs.c.
use zerocopy_ringbuf.Common.{
  ℕ, zero, suc, ◌+◌, ◌-◌, ◌&&◌, ◌≤◌, ◌<◌, ◌≡◌, refl, sym, ap, ◌∙◌, true, false, some, List, [], ◌∷◌,
  ◌++◌, length, get_or, leb, ltb, ◌==◌, if◌then◌else◌, arith, Bool-cases, inl, inr,
}
use mathlib.Core.Path.{subst}
use zerocopy_ringbuf.Kstring.{Chars, put}
use zerocopy_ringbuf.Paths.{
  dirsiz, slash, skip_slashes, span_elem, move_name, set_name, skipelem, names,
}

unfoldable pub slashes : ℕ → List ℕ
slashes zero = []
slashes (suc k) = slash ∷ slashes k

-- The elements of a path, each behind one slash and as many more as are given, and `t` slashes.
unfoldable pub after : List (ℕ × List ℕ) → ℕ → List ℕ
unfolding slashes
after [] t = slashes t
after ((k, e) ∷ es) t = slash ∷ (slashes k ++ (e ++ after es t))

abbrev pub IsPlain : List ℕ → Type 0
IsPlain [] = Unit
IsPlain (c ∷ e) = ((c == slash) ≡ false) × IsPlain e

-- An element of a path: not empty, and without a slash.
abbrev pub IsElem : List ℕ → Type 0
IsElem e = (0 < length e) × IsPlain e

abbrev pub AreElems : List (ℕ × List ℕ) → Type 0
AreElems [] = Unit
AreElems ((k, e) ∷ es) = IsElem e × AreElems es

-- A name of 14 bytes at most holds the element, cut there, and a 0 behind it if there is room.
abbrev pub IsName : Chars → List ℕ → Type 0
IsName name e = (j : ℕ) → j < dirsiz → j ≤ length e → name j ≡ get_or e j 0

abbrev pub AreNames : List Chars → List (ℕ × List ℕ) → Type 0
AreNames [] [] = Unit
AreNames [] (x ∷ es) = ⊥
AreNames (n ∷ ns) [] = ⊥
AreNames (n ∷ ns) ((k, e) ∷ es) = IsName n e × AreNames ns es

skip_slashes-slashes : (k : ℕ) (p : List ℕ) → skip_slashes (slashes k ++ p) ≡ skip_slashes p
unfolding skip_slashes slashes
skip_slashes-slashes zero p = refl
skip_slashes-slashes (suc k) p = skip_slashes-slashes k p

skip_slashes-elem : (e p : List ℕ) → IsElem e → skip_slashes (e ++ p) ≡ e ++ p
unfolding skip_slashes
skip_slashes-elem [] p h = absurd (omega (arith, h.0))
skip_slashes-elem (c ∷ e) p h = rw (h.1.0, skip_slashes) refl

span_elem-plain :
    (e p : List ℕ) (es : List (ℕ × List ℕ)) (t : ℕ)
    → IsPlain e
    → span_elem (e ++ after es t) ≡ (e, after es t)
unfolding span_elem after slashes
span_elem-plain [] p [] zero h = refl
span_elem-plain [] p [] (suc t) h = refl
span_elem-plain [] p (x ∷ es) t h = refl
span_elem-plain (c ∷ e) p es t h =
    rw (h.0, span_elem)
      (ap (λ (r : List ℕ × List ℕ). (c ∷ r.0, r.1)) (span_elem-plain e p es t h.1))

move_name-at :
    (n : ℕ) (name : Chars) (i : ℕ) (e : List ℕ) (x : ℕ)
    → n ≤ length e
    → move_name name i n e x ≡ (if leb i x && ltb x (i + n) then get_or e (x - i) 0 else name x)
unfolding move_name
move_name-at zero name i e x h = ground arith
move_name-at (suc n) name i [] x h = absurd (omega (arith, h))
move_name-at (suc n) name i (c ∷ e) x h =
    let rest = move_name-at n (put name i c) (i + 1) e x (omega (arith, h)) in
    elim (Bool-cases (x == i)) [
      | inl at ↦
          let before : (leb (i + 1) x && ltb x (i + 1 + n)) ≡ false = ground arith in
          let within : (leb i x && ltb x (i + suc n)) ≡ true = ground arith in
          let d : x - i ≡ 0 = ground arith in rest ∙ rw (before, at) (rw (within, d) refl)
      | inr off ↦ elim (Bool-cases (leb i x)) [
        | inl above ↦
            let d : x - i ≡ suc (x - (i + 1)) = ground arith in
            let same : (leb (i + 1) x && ltb x (i + 1 + n)) ≡ ltb x (i + suc n) = ground arith in
            rest ∙ rw (same, off, above, d) refl
        | inr below ↦
            let before : leb (i + 1) x ≡ false = ground arith in rest ∙ rw (before, off, below) refl
      ]
    ]

get_or-end : (e : List ℕ) (j : ℕ) → length e ≤ j → get_or e j 0 ≡ 0
get_or-end [] j h = refl
get_or-end (c ∷ e) zero h = absurd (omega (arith, h))
get_or-end (c ∷ e) (suc j) h = get_or-end e j (omega (arith, h))

set_name-IsName : (name : Chars) (e : List ℕ) → IsName (set_name name e) e
unfolding set_name
set_name-IsName name e j lt le = elim (Bool-cases (ltb (length e) dirsiz)) [
  | inl short ↦ elim (Bool-cases (j == length e)) [
    | inl end ↦ rw (short, set_name) (rw end (sym (get_or-end e j (ground arith))))
    | inr off ↦
        let within : (leb 0 j && ltb j (0 + length e)) ≡ true = ground arith in
        let here : j - 0 ≡ j = omega arith in
        rw (short, set_name)
          (rw off (move_name-at (length e) name 0 e j (omega arith) ∙ rw (within, here) refl))
  ]
  | inr long ↦
      let within : (leb 0 j && ltb j (0 + dirsiz)) ≡ true = ground arith in
      let here : j - 0 ≡ j = omega arith in
      rw (long, set_name) (move_name-at dirsiz name 0 e j (ground arith) ∙ rw (within, here) refl)
]

skipelem-skipped :
    (path p : List ℕ) (c : ℕ) (name : Chars)
    → skip_slashes path ≡ c ∷ p
    → skipelem path name
      ≡ some (skip_slashes (span_elem (c ∷ p)).1, set_name name (span_elem (c ∷ p)).0)
unfolding skipelem
skipelem-skipped path p c name e = rw (e, skipelem) refl

-- skipelem at an element behind any slashes.
skipelem-elem :
    (k : ℕ) (e : List ℕ) (es : List (ℕ × List ℕ)) (t : ℕ) (name : Chars)
    → IsElem e
    → skipelem (slashes k ++ (e ++ after es t)) name
      ≡ some (skip_slashes (after es t), set_name name e)
skipelem-elem k [] es t name h = absurd (omega (arith, h.0))
skipelem-elem k (c ∷ e) es t name h =
    skipelem-skipped (slashes k ++ (c ∷ (e ++ after es t))) (e ++ after es t) c name
      (skip_slashes-slashes k (c ∷ (e ++ after es t)) ∙ skip_slashes-elem (c ∷ e) (after es t) h)
    ∙ ap (λ (r : List ℕ × List ℕ). some (skip_slashes r.1, set_name name r.0))
        (span_elem-plain (c ∷ e) [] es t h.1)

skip_slashes-end : (t : ℕ) → skip_slashes (slashes t) ≡ []
unfolding skip_slashes slashes
skip_slashes-end zero = refl
skip_slashes-end (suc t) = skip_slashes-end t

-- The path that is left behind an element: the next one, or nothing.
skip_slashes-after :
    (k : ℕ) (e : List ℕ) (es : List (ℕ × List ℕ)) (t : ℕ)
    → IsElem e
    → skip_slashes (after ((k, e) ∷ es) t) ≡ slashes 0 ++ (e ++ after es t)
unfolding after skip_slashes slashes
skip_slashes-after k e es t h =
    skip_slashes-slashes k (e ++ after es t) ∙ skip_slashes-elem e (after es t) h

end_skipped : (t : ℕ) → skip_slashes (skip_slashes (after [] t)) ≡ []
unfolding after skip_slashes
end_skipped t = ap skip_slashes (skip_slashes-end t)

names-none :
    (n : ℕ) (path : List ℕ) (name : Chars) → skip_slashes path ≡ [] → names n path name ≡ []
unfolding names skipelem
names-none zero path name e = refl
names-none (suc n) path name e = rw (e, names) refl

-- One round of the loop of namex.
names-some :
    (n : ℕ) (path path' : List ℕ) (name name' : Chars)
    → skipelem path name ≡ some (path', name')
    → names (suc n) path name ≡ name' ∷ names n path' name'
unfolding names
names-some n path path' name name' e = rw (e, names) refl

-- The loop from an element on, behind any slashes.
names-from :
    (n lead k : ℕ) (e : List ℕ) (es : List (ℕ × List ℕ)) (t : ℕ) (name : Chars)
    → IsElem e
    → AreElems es
    → length es < n
    → AreNames (names n (slashes lead ++ (e ++ after es t)) name) ((k, e) ∷ es)
names-from zero lead k e es t name h hs lt = absurd (omega (arith, lt))
names-from (suc n) lead k e [] t name h hs lt =
    let run =
      names-some n (slashes lead ++ (e ++ after [] t)) (skip_slashes (after [] t)) name
        (set_name name e) (skipelem-elem lead e [] t name h) in
    rw run (
      set_name-IsName name e,
      rw (names-none n (skip_slashes (after [] t)) (set_name name e) (end_skipped t)) tt,
    )
names-from (suc n) lead k e ((k', e') ∷ es) t name h hs lt =
    let run =
      names-some n (slashes lead ++ (e ++ after ((k', e') ∷ es) t))
        (skip_slashes (after ((k', e') ∷ es) t)) name (set_name name e)
        (skipelem-elem lead e ((k', e') ∷ es) t name h) in
    rw run (
      set_name-IsName name e,
      subst (λ p. AreNames (names n p (set_name name e)) ((k', e') ∷ es))
          (sym (skip_slashes-after k' e' es t hs.0))
          (names-from n 0 k' e' es t (set_name name e) hs.0 hs.1 (omega (arith, lt))),
    )

-- A path from its elements: `lead` slashes before the first.
abbrev pub path_of : ℕ → List (ℕ × List ℕ) → ℕ → List ℕ
path_of lead [] t = slashes lead
path_of lead ((k, e) ∷ es) t = slashes lead ++ (e ++ after es t)

-- For a path of elements that are not empty and hold no slash, with any slashes before the first,
-- at least one between two and any at the end: with more rounds than elements the calls of
-- skipelem give one name for each element, in order, cut to 14 bytes and ended by a 0 where it is
-- shorter, and then end.
pub names-path_of :
    (n lead t : ℕ) (es : List (ℕ × List ℕ)) (name : Chars)
    → AreElems es
    → length es < n
    → AreNames (names n (path_of lead es t) name) es
names-path_of n lead t [] name hs lt =
    rw (names-none n (slashes lead) name (skip_slashes-end lead)) tt
names-path_of n lead t ((k, e) ∷ es) name hs lt =
    names-from n lead k e es t name hs.0 hs.1 (omega (arith, lt))
