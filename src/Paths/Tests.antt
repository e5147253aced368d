-- ===== src/Paths/Tests.antt =====
-- Tests of the path elements of kernel/fs.c: "//ab/c/".
use zerocopy_ringbuf.Common.{ℕ, ◌≡◌, refl, List, [], ◌∷◌, arith}
use zerocopy_ringbuf.Kstring.{Chars}
use zerocopy_ringbuf.Paths.{names}
use zerocopy_ringbuf.Paths.Elements.{AreElems, AreNames, path_of, slashes, after, names-path_of}

abbrev two_elems : List (ℕ × List ℕ)
two_elems = (0, 97 ∷ 98 ∷ []) ∷ (0, 99 ∷ []) ∷ []

abbrev old_name : Chars
old_name _ = 7

path_bytes : path_of 2 two_elems 1 ≡ 47 ∷ 47 ∷ 97 ∷ 98 ∷ 47 ∷ 99 ∷ 47 ∷ []
unfolding slashes after
path_bytes = refl

are_elems : AreElems two_elems
are_elems = ((omega arith, (refl, (refl, tt))), ((omega arith, (refl, tt)), tt))

names-path_of_example : AreNames (names 3 (path_of 2 two_elems 1) old_name) two_elems
names-path_of_example = names-path_of 3 2 1 two_elems old_name are_elems (omega arith)
