-- ===== src/File/Counted.antt =====
-- The reference counts of kernel/file.c against the descriptors that refer to each file.
use zerocopy_ringbuf.Common.{
  ℕ, zero, suc, ◌+◌, ◌-◌, ◌<◌, ◌≡◌, ◌≢◌, ◌↔◌, ◌⊎◌, ◌≤◌, refl, sym, ap, ◌∙◌, false, Option, none,
  some, [], ◌∷◌, replicate, get_elem?, set, ltb, ◌==◌, if◌then◌else◌, ok, fault, arith, Bool-cases,
  Option-cases, inl, inr,
}
use mathlib.Core.Path.{subst}
use zerocopy_ringbuf.File.{
  File, nfile, fd_none, Ftable, Last, free_file, filealloc, filedup, fileclose, last_of, file_at,
  max_int,
}

-- The table, and the number of references that processes hold to each entry.
pub record System : Type 0 where
  pub files : Ftable
  pub holders : ℕ → ℕ

abbrev pub held : ℕ → ℕ → (ℕ → ℕ) → ℕ → ℕ
held i n holders j = if j == i then n else holders j

-- A process opens a file, or duplicates or closes a reference that it holds.
pub data Step (s : System) : System → Type 0 where
  alloc :
      (i : ℕ) (fs : Ftable)
      → filealloc s.files ≡ (some i, fs)
      → Step s (record { files = fs; holders = held i (s.holders i + 1) s.holders })
  dup :
      (i : ℕ) (fs : Ftable)
      → 0 < s.holders i
      → filedup s.files i ≡ ok fs
      → Step s (record { files = fs; holders = held i (s.holders i + 1) s.holders })
  close :
      (i : ℕ) (fs : Ftable) (last : Option Last)
      → 0 < s.holders i
      → fileclose s.files i ≡ ok (last, fs)
      → Step s (record { files = fs; holders = held i (s.holders i - 1) s.holders })

pub data Reach (s : System) : System → Type 0 where
  here : Reach s s
  next : {t u : System} → Reach s t → Step t u → Reach s u

pub record IsCounted (s : System) : Type 0 where
  pub counted : (i : ℕ) (f : File) → get_elem? s.files i ≡ some f → f.ref ≡ s.holders i
  pub outside : (i : ℕ) → get_elem? s.files i ≡ none → s.holders i ≡ 0

get_elem?-set :
    (fs : Ftable) (i j : ℕ) (f g : File)
    → get_elem? fs i ≡ some f
    → get_elem? (set fs i g) j ≡ (if j == i then some g else get_elem? fs j)
get_elem?-set [] i j f g e = cc
get_elem?-set (x ∷ fs) zero zero f g e = refl
get_elem?-set (x ∷ fs) zero (suc j) f g e = ground arith
get_elem?-set (x ∷ fs) (suc i) zero f g e = ground arith
get_elem?-set (x ∷ fs) (suc i) (suc j) f g e = ground (arith, get_elem?-set fs i j f g e)

-- An entry that changes together with its number of holders.
set-IsCounted :
    (s : System) (i n : ℕ) (f g : File) (fs : Ftable)
    → IsCounted s
    → get_elem? s.files i ≡ some f
    → g.ref ≡ n
    → fs ≡ set s.files i g
    → IsCounted (record { files = fs; holders = held i n s.holders })
set-IsCounted s i n f g fs v e r q = record {
  counted = λ j h at.
      ground (arith, q, get_elem?-set s.files i j f g e, v.counted j h, ap (λ l. get_elem? l j) q);
  outside = λ j at.
      ground (arith, q, get_elem?-set s.files i j f g e, v.outside j, ap (λ l. get_elem? l j) q);
}

free_file-some :
    (fs : Ftable) (k i : ℕ)
    → free_file fs k ≡ some i
    → (j : ℕ) × (f : File) × (i ≡ k + j) × (get_elem? fs j ≡ some f) × (f.ref ≡ 0)
unfolding free_file
free_file-some [] k i h = cc
free_file-some (f ∷ fs) k i h = elim (Bool-cases (f.ref == 0)) [
  | inl free ↦ (0, f, ground (arith, h), refl, ground arith)
  | inr busy ↦
      let (j, g, at, e, r) = free_file-some fs (k + 1) i (rw (busy, free_file) at h) in
      (suc j, g, omega (arith, at), e, r)
]

-- filealloc gives an entry without references one reference.
filealloc-some :
    (fs fs' : Ftable) (i : ℕ)
    → filealloc fs ≡ (some i, fs')
    → (f : File) × (get_elem? fs i ≡ some f) × (f.ref ≡ 0) × (fs' ≡ set fs i (record f { ref = 1 }))
unfolding filealloc
filealloc-some fs fs' i h = elim (Option-cases (free_file fs 0)) [
  | inl full ↦ absurd (ground (arith, h, full))
  | inr (k, found) ↦
      let (j, f, at, e, r) = free_file-some fs 0 k found in
      let same : j ≡ k = omega (arith, at) in
      let e' = subst (λ c. get_elem? fs c ≡ some f) same e in
      let run : filealloc fs ≡ (some k, set fs k (record f { ref = 1 })) =
        rw (found, filealloc) (rw e' refl) in
      let q = sym run ∙ h in
      let ki : k ≡ i = cc (ap (λ (p : Option ℕ × Ftable). p.0) q) in
      (
        f,
        subst (λ c. get_elem? fs c ≡ some f) ki e',
        r,
        sym (ap (λ (p : Option ℕ × Ftable). p.1) q) ∙ ap (λ c. set fs c (record f { ref = 1 })) ki,
      )
]

module _ (s : System) (v : IsCounted s) (i : ℕ) (some_holder : 0 < s.holders i) where
  -- An entry that is referred to is in the table, with its count.
  entry_held : (f : File) × (get_elem? s.files i ≡ some f) × (f.ref ≡ s.holders i)
  entry_held = elim (Option-cases (get_elem? s.files i)) [
    | inl out ↦ absurd (omega (arith, v.outside i out))
    | inr (f, e) ↦ (f, e, v.counted i f e)
  ]

  filedup-held :
      (f : File) × (get_elem? s.files i ≡ some f)
      × (f.ref ≡ s.holders i)
      × (filedup s.files i ≡ (
          if ltb (s.holders i) max_int
          then ok (set s.files i (record f { ref = f.ref + 1 }))
          else fault))
  unfolding filedup
  filedup-held =
      let (f, e, r) = entry_held in
      let pos_ref : ltb f.ref 1 ≡ false = ground arith in
      (f, e, r, rw (e, file_at) (rw (pos_ref, r) refl))

  fileclose-held :
      (f : File) × (get_elem? s.files i ≡ some f)
      × (f.ref ≡ s.holders i)
      × (fileclose s.files i ≡ (
          if ltb 1 (s.holders i)
          then ok (none, set s.files i (record f { ref = f.ref - 1 }))
          else ok (some (last_of f.kind f), set s.files i (record f { ref = 0; kind = fd_none }))))
  unfolding fileclose
  fileclose-held =
      let (f, e, r) = entry_held in
      let pos_ref : ltb f.ref 1 ≡ false = ground arith in
      let more : ltb 0 (f.ref - 1) ≡ ltb 1 (s.holders i) = ground arith in
      (f, e, r, rw (e, file_at) (rw (pos_ref, more) refl))

Step-IsCounted : {s t : System} → IsCounted s → Step s t → IsCounted t
Step-IsCounted {s} v (alloc i fs run) =
    let (f, e, r, q) = filealloc-some s.files fs i run in
    set-IsCounted s i (s.holders i + 1) f (record f { ref = 1 }) fs v e
      (omega (arith, v.counted i f e, r)) q
Step-IsCounted {s} v (dup i fs some_holder run) =
    let (f, e, r, q) = filedup-held s v i some_holder in
    elim (Bool-cases (ltb (s.holders i) max_int)) [
      | inl fits ↦
          set-IsCounted s i (s.holders i + 1) f (record f { ref = f.ref + 1 }) fs v e
            (omega (arith, r)) (cc (run, rw fits at q))
      | inr most ↦ absurd (cc (run, rw most at q))
    ]
Step-IsCounted {s} v (close i fs last some_holder run) =
    let (f, e, r, q) = fileclose-held s v i some_holder in
    elim (Bool-cases (ltb 1 (s.holders i))) [
      | inl more ↦
          set-IsCounted s i (s.holders i - 1) f (record f { ref = f.ref - 1 }) fs v e
            (omega (arith, r)) (cc (run, rw more at q))
      | inr one ↦
          set-IsCounted s i (s.holders i - 1) f (record f { ref = 0; kind = fd_none }) fs v e
            (ground arith) (cc (run, rw one at q))
    ]

-- The table at the start: all zeros.
abbrev closed_file : File
closed_file = record {
  kind = fd_none;
  ref = 0;
  readable = false;
  writable = false;
  pipe = 0;
  ip = 0;
  off = 0;
  major = 0;
}

abbrev pub start : System
start = record { files = replicate nfile closed_file; holders = λ _. 0 }

get_elem?-replicate :
    (n i : ℕ) (f : File) → get_elem? (replicate n closed_file) i ≡ some f → f.ref ≡ 0
get_elem?-replicate zero i f e = cc
get_elem?-replicate (suc n) zero f e = ground arith
get_elem?-replicate (suc n) (suc i) f e = get_elem?-replicate n i f e

start-IsCounted : IsCounted start
start-IsCounted = record {
  counted = λ i f e. get_elem?-replicate nfile i f e;
  outside = λ i e. refl;
}

-- From the empty table every sequence of calls of filealloc, and of filedup and fileclose on held
-- references, keeps each reference count at the number of references that are held.
Reach-IsCounted : {s : System} → Reach start s → IsCounted s
Reach-IsCounted here = start-IsCounted
Reach-IsCounted (next r st) = Step-IsCounted (Reach-IsCounted r) st

-- fileclose of a held reference, and what it hands back.
fileclose-last :
    (s : System)
    → IsCounted s
    → (i : ℕ) → 0 < s.holders i
    → (last : Option Last) × (fs : Ftable) × (fileclose s.files i ≡ ok (last, fs))
      × ((last ≢ none) ↔ (s.holders i ≡ 1))
fileclose-last s v i some_holder =
    let (f, e, _, close_run) = fileclose-held s v i some_holder in
    elim (Bool-cases (ltb 1 (s.holders i))) [
      | inl more ↦ (
        none,
        set s.files i (record f { ref = f.ref - 1 }),
        rw more at close_run,
        (λ z. absurd (z refl), λ z. absurd (ground arith)),
      )
      | inr one ↦ (
        some (last_of f.kind f),
        set s.files i (record f { ref = 0; kind = fd_none }),
        rw one at close_run,
        (λ z. ground arith, λ z. λ w. cc),
      )
    ]

-- In a state that is reached from the empty table by filealloc, and by filedup and fileclose of
-- held references: filedup of a held reference returns where fewer than 2^31 - 1 are held, and the
-- count overflows otherwise; fileclose of a held reference returns, and hands back the work for
-- the last reference exactly where only one is held.
pub Reach-fileclose :
    {s : System} (i : ℕ)
    → Reach start s
    → 0 < s.holders i
    → (((fs : Ftable) × (s.holders i < max_int) × (filedup s.files i ≡ ok fs))
        ⊎ ((max_int ≤ s.holders i) × (filedup s.files i ≡ fault)))
      × (last : Option Last) × (fs : Ftable) × (fileclose s.files i ≡ ok (last, fs))
      × ((last ≢ none) ↔ (s.holders i ≡ 1))
Reach-fileclose {s} i r some_holder =
    let v = Reach-IsCounted r in
    let (f, _, _, dup_run) = filedup-held s v i some_holder in
    let (last, fs, close_run, one) = fileclose-last s v i some_holder in
    (
      elim (Bool-cases (ltb (s.holders i) max_int)) [
        | inl fits ↦
            inl (
              set s.files i (record f { ref = f.ref + 1 }),
              ground (arith, fits),
              rw fits at dup_run,
            )
        | inr most ↦ inr (ground (arith, most), rw most at dup_run)
      ],
      last,
      fs,
      close_run,
      one,
    )
