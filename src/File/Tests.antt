-- ===== src/File/Tests.antt =====
-- Tests of kernel/file.c: a file is opened, and then a pipe.
use zerocopy_ringbuf.Common.{
  ◌⊎◌, ◌≤◌, ℕ, ◌+◌, ◌<◌, ◌≡◌, ◌≢◌, ◌↔◌, refl, Option, none, some, List, [], ◌∷◌, Outcome, ok, panic,
  exit, fault, arith,
}
use zerocopy_ringbuf.File.{
  Ftable, Last, filealloc, filedup, fileclose, pipealloc, Opened, nothing, max_int,
}
use zerocopy_ringbuf.File.Counted.{System, held, start, Reach, here, next, alloc, Reach-fileclose}

abbrev opened : System
opened = record {
  files = (filealloc start.files).1;
  holders = held 0 (start.holders 0 + 1) start.holders;
}

first_file : filealloc start.files ≡ (some 0, opened.files)
unfolding filealloc
first_file = refl

opened-Reach : Reach start opened
opened-Reach = next here (alloc 0 opened.files first_file)

one_holder : 0 < opened.holders 0
one_holder = omega arith

Reach-fileclose_example :
    (((fs : Ftable) × (opened.holders 0 < max_int) × (filedup opened.files 0 ≡ ok fs))
      ⊎ ((max_int ≤ opened.holders 0) × (filedup opened.files 0 ≡ fault)))
    × (last : Option Last) × (fs : Ftable) × (fileclose opened.files 0 ≡ ok (last, fs))
    × ((last ≢ none) ↔ (opened.holders 0 ≡ 1))
Reach-fileclose_example = Reach-fileclose 0 opened-Reach one_holder

abbrev ends_of : Outcome Opened → Option (ℕ × ℕ)
ends_of (ok o) = o.ends
ends_of panic = none
ends_of (exit n) = none
ends_of fault = none

abbrev left_of : Outcome Opened → List (Option Last)
left_of (ok o) = o.left
left_of panic = []
left_of (exit n) = []
left_of fault = []

-- A pipe on the first two files of the empty table, and its refusal without a page.
pipe_opened : ends_of (pipealloc start.files 0x8010_0000 (λ _. 0)) ≡ some (0, 1)
unfolding pipealloc filealloc
pipe_opened = refl

pipe_refused : left_of (pipealloc start.files 0 (λ _. 0)) ≡ some nothing ∷ some nothing ∷ []
unfolding pipealloc filealloc fileclose
pipe_refused = refl
