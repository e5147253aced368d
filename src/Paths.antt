-- ===== src/Paths.antt =====
-- The elements of a path, from kernel/fs.c: skipelem, and the loop of namex that calls it. A path is
-- the list of its bytes before the 0 at its end; none of them is 0.
pub mod Elements
mod Tests
use zerocopy_ringbuf.Common.{
  ℕ, zero, suc, ◌+◌, ◌<◌, Bool, true, false, Option, none, some, List, [], ◌∷◌, length, ltb, ◌==◌,
  if◌then◌else◌,
}
use zerocopy_ringbuf.Kstring.{Chars, put}

abbrev pub dirsiz : ℕ
dirsiz = 14

-- '/'
abbrev pub slash : ℕ
slash = 47

unfoldable pub skip_slashes : List ℕ → List ℕ
skip_slashes [] = []
skip_slashes (c ∷ p) = elim (c == slash) [ true ↦ skip_slashes p | false ↦ c ∷ p ]

-- The bytes from `s` up to the next slash or the end, and the rest of the path.
unfoldable pub span_elem : List ℕ → List ℕ × List ℕ
span_elem [] = ([], [])
span_elem (c ∷ p) = elim (c == slash) [
  | true ↦ ([], c ∷ p)
  | false ↦ let (e, rest) = span_elem p in (c ∷ e, rest)
]

-- `memmove(name + i, xs, n)` of the first `n` bytes, outside of the path.
unfoldable pub move_name : Chars → ℕ → ℕ → List ℕ → Chars
move_name name i zero xs = name
move_name name i (suc n) [] = name
move_name name i (suc n) (x ∷ xs) = move_name (put name i x) (i + 1) n xs

unfoldable pub set_name : Chars → List ℕ → Chars
unfolding move_name
set_name name e =
    if ltb (length e) dirsiz
    then put (move_name name 0 (length e) e) (length e) 0
    else move_name name 0 dirsiz e

-- `none` is a path without further elements.
unfoldable pub skipelem : List ℕ → Chars → Option (List ℕ × Chars)
unfolding skip_slashes span_elem set_name
skipelem path name = elim (skip_slashes path) [
  | [] ↦ none
  | c ∷ p ↦ let (e, rest) = span_elem (c ∷ p) in some (skip_slashes rest, set_name name e)
]

-- The names that the loop of `namex` comes to, in at most `n` rounds, where every element is found.
unfoldable pub names : ℕ → List ℕ → Chars → List Chars
unfolding skipelem
names zero path name = []
names (suc n) path name = elim (skipelem path name) [
  | none ↦ []
  | some (path', name') ↦ name' ∷ names n path' name'
]
