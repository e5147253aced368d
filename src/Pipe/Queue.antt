-- ===== src/Pipe/Queue.antt =====
-- The bytes in a pipe of kernel/pipe.c, the oldest first, and what pushing and popping do to them.
use zerocopy_ringbuf.Common.{
  ℕ, zero, suc, ◌+◌, ◌-◌, ◌%◌, ◌^◌, ◌≤◌, ◌<◌, ◌≡◌, ◌≢◌, refl, ap, ◌∙◌, List, [], ◌∷◌, ◌++◌, arith,
}
use mathlib.Core.Path.{ap₂}
use zerocopy_ringbuf.Pipe.{Pipe, pipesize, init_pipe, push, pop}

-- `n` bytes of the ring from count `a` on.
unfoldable pub window : (ℕ → ℕ) → ℕ → ℕ → List ℕ
window bytes a zero = []
window bytes a (suc n) = bytes (a % pipesize) ∷ window bytes (a + 1) n

abbrev pub used : Pipe → ℕ
used pi = (pi.nwrite + 2 ^ 32 - pi.nread) % 2 ^ 32

abbrev pub contents : Pipe → List ℕ
contents pi = window pi.bytes pi.nread (used pi)

pub record IsPipe (pi : Pipe) : Type 0 where
  pub read_word : pi.nread < 2 ^ 32
  pub write_word : pi.nwrite < 2 ^ 32
  pub fits : used pi ≤ pipesize

window-mod :
    (bytes : ℕ → ℕ) (a b n : ℕ) → a % pipesize ≡ b % pipesize → window bytes a n ≡ window bytes b n
unfolding window
window-mod bytes a b zero h = refl
window-mod bytes a b (suc n) h =
    ap₂ ◌∷◌ (ap bytes h) (window-mod bytes (a + 1) (b + 1) n (omega arith))

window-snoc :
    (bytes : ℕ → ℕ) (a n : ℕ)
    → window bytes a (suc n) ≡ window bytes a n ++ bytes ((a + n) % pipesize) ∷ []
unfolding window
window-snoc bytes a zero = let e : a + 0 ≡ a = omega arith in rw e refl
window-snoc bytes a (suc n) =
    let e : a + suc n ≡ a + 1 + n = omega arith in
    rw e (ap (◌∷◌ (bytes (a % pipesize))) (window-snoc bytes (a + 1) n))

window-same :
    (bytes bytes' : ℕ → ℕ) (a n : ℕ)
    → ((j : ℕ) → j < n → bytes' ((a + j) % pipesize) ≡ bytes ((a + j) % pipesize))
    → window bytes' a n ≡ window bytes a n
unfolding window
window-same bytes bytes' a zero h = refl
window-same bytes bytes' a (suc n) h =
    let e : a + 0 ≡ a = omega arith in
    ap₂ ◌∷◌ (rw e at (h 0 (omega arith))) (
      window-same bytes bytes' (a + 1) n
        (λ j lt. let e' : a + 1 + j ≡ a + (j + 1) = omega arith in rw e' (h (j + 1) (omega arith))))

pub push-IsPipe : (pi : Pipe) (ch : ℕ) → IsPipe pi → used pi < pipesize → IsPipe (push pi ch)
unfolding push
push-IsPipe pi ch v lt = record {
  read_word = v.read_word;
  write_word = omega arith;
  fits = omega (arith, v.read_word, v.write_word);
}

pub contents-push :
    (pi : Pipe) (ch : ℕ)
    → IsPipe pi
    → used pi < pipesize
    → contents (push pi ch) ≡ contents pi ++ ch ∷ []
unfolding push
contents-push pi ch v lt =
    let bytes' : ℕ → ℕ = (push pi ch).bytes in
    let more : used (push pi ch) ≡ suc (used pi) = omega (arith, v.read_word, v.write_word) in
    let place : (pi.nread + used pi) % pipesize ≡ pi.nwrite % pipesize =
      omega (arith, v.read_word, v.write_word) in
    let new : bytes' ((pi.nread + used pi) % pipesize) ≡ ch = rw place (ground arith) in
    let old : window bytes' pi.nread (used pi) ≡ window pi.bytes pi.nread (used pi) =
      window-same pi.bytes bytes' pi.nread (used pi)
        (λ j h. ground (arith, v.read_word, v.write_word)) in
    ap (window bytes' pi.nread) more
    ∙ window-snoc bytes' pi.nread (used pi)
    ∙ ap₂ ◌++◌ old (ap (λ b. b ∷ []) new)

pub pop-IsPipe : (pi : Pipe) → IsPipe pi → pi.nread ≢ pi.nwrite → IsPipe (pop pi).1
unfolding pop
pop-IsPipe pi v ne = record {
  read_word = omega arith;
  write_word = v.write_word;
  fits = omega (arith, v.read_word, v.write_word, v.fits);
}

pub contents-pop :
    (pi : Pipe) → IsPipe pi → pi.nread ≢ pi.nwrite → contents pi ≡ (pop pi).0 ∷ contents (pop pi).1
unfolding pop window
contents-pop pi v ne =
    let rest : ℕ = used (pop pi).1 in
    let more : used pi ≡ suc rest = omega (arith, v.read_word, v.write_word) in
    ap (window pi.bytes pi.nread) more
    ∙ ap (◌∷◌ (pi.bytes (pi.nread % pipesize)))
        (window-mod pi.bytes (pi.nread + 1) ((pi.nread + 1) % 2 ^ 32) rest (omega arith))

pub init_pipe-empty : (junk : ℕ → ℕ) → IsPipe (init_pipe junk) × (contents (init_pipe junk) ≡ [])
unfolding init_pipe window
init_pipe-empty junk =
    (record { read_word = omega arith; write_word = omega arith; fits = omega arith }, refl)
