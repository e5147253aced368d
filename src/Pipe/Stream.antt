-- ===== src/Pipe/Stream.antt =====
-- pipewrite and piperead of kernel/pipe.c as operations on a queue of bytes.
use zerocopy_ringbuf.Common.{
  ℕ, zero, suc, ◌+◌, ◌%◌, ◌^◌, ◌≤◌, ◌<◌, ◌≡◌, ◌≢◌, ◌⊎◌, inl, inr, refl, ap, sym, ◌∙◌, Bool, true,
  false, ◌&&◌, ◌||◌, Option, none, some, List, [], ◌∷◌, ◌++◌, length, ◌==◌, pos, negsuc, failure,
  Bool-cases, arith,
}
use mathlib.Core.List.{append-nil, append_assoc}
use zerocopy_ringbuf.Pipe.{
  Pipe, pipesize, is_closed, End, returns, sleeps, push, pop, write_from, read_from, piperead,
}
use zerocopy_ringbuf.Pipe.Queue.{
  used, contents, IsPipe, push-IsPipe, contents-push, pop-IsPipe, contents-pop, window,
}

-- `xs` are the user's bytes from index `i` on.
abbrev pub Fetched : (ℕ → Option ℕ) → ℕ → List ℕ → Type 0
Fetched copyin i [] = Unit
Fetched copyin i (x ∷ xs) = (copyin i ≡ some x) × Fetched copyin (i + 1) xs

-- How a segment that wrote `len` of `n` bytes from index `i` on may end.
abbrev pub WriteEnd : (ℕ → Option ℕ) → Bool → ℕ → ℕ → ℕ → Pipe → End → Type 0
WriteEnd copyin killed n i len pi (sleeps j) =
    (j ≡ i + len) × (len < n) × (used pi ≡ pipesize) × (pi.readopen ≡ true) × (killed ≡ false)
WriteEnd copyin killed n i len pi (returns (pos j)) =
    (j ≡ i + len) × ((len ≡ n) ⊎ (copyin j ≡ none))
WriteEnd copyin killed n i len pi (returns (negsuc e)) = (is_closed pi.readopen || killed) ≡ true

pub record Wrote (copyin : ℕ → Option ℕ) (killed : Bool) (n i : ℕ) (pi : Pipe)
    (r : (End × List ℕ) × Pipe) : Type 0 where
  pub fetched : Fetched copyin i r.0.1
  pub joined : contents r.1 ≡ contents pi ++ r.0.1
  pub valid : IsPipe r.1
  pub ends : WriteEnd copyin killed n i (length r.0.1) r.1 r.0.0
  pub readers : r.1.readopen ≡ pi.readopen
  pub writers : r.1.writeopen ≡ pi.writeopen

none_written :
    (copyin : ℕ → Option ℕ) (killed : Bool) (n i : ℕ) (pi : Pipe) (end : End)
    → IsPipe pi
    → WriteEnd copyin killed n i 0 pi end
    → Wrote copyin killed n i pi ((end, []), pi)
none_written copyin killed n i pi end v e = record {
  fetched = tt;
  joined = sym (append-nil (contents pi));
  valid = v;
  ends = e;
  readers = refl;
  writers = refl;
}

-- A segment after its first byte.
WriteEnd-suc :
    (copyin : ℕ → Option ℕ) (killed : Bool) (n i len : ℕ) (pi : Pipe) (end : End)
    → WriteEnd copyin killed n (i + 1) len pi end
    → WriteEnd copyin killed (suc n) i (suc len) pi end
WriteEnd-suc copyin killed n i len pi (sleeps j) e = ground (arith, e)
WriteEnd-suc copyin killed n i len pi (returns (pos j)) e =
    (omega (arith, e.0), elim e.1 [ inl q ↦ inl (ap suc q) | inr q ↦ inr q ])
WriteEnd-suc copyin killed n i len pi (returns (negsuc m)) e = e

not_stopped :
    (is_open killed : Bool)
    → (is_closed is_open || killed) ≡ false
    → (is_open ≡ true) × (killed ≡ false)
not_stopped true true h = cc
not_stopped true false h = (refl, refl)
not_stopped false true h = cc
not_stopped false false h = cc

room_left :
    (pi : Pipe)
    → IsPipe pi
    → (pi.nwrite == (pi.nread + pipesize) % 2 ^ 32) ≡ false
    → used pi < pipesize
room_left pi v room = ground (arith, v.fits)

push-readopen : (pi : Pipe) (ch : ℕ) → (push pi ch).readopen ≡ pi.readopen
unfolding push
push-readopen pi ch = refl

push-writeopen : (pi : Pipe) (ch : ℕ) → (push pi ch).writeopen ≡ pi.writeopen
unfolding push
push-writeopen pi ch = refl

-- One round of the loop of pipewrite in which there is room.
write_next :
    (copyin : ℕ → Option ℕ) (killed : Bool) (n i : ℕ) (pi : Pipe) (byte : Option ℕ)
    → copyin i ≡ byte
    → IsPipe pi
    → used pi < pipesize
    → ((pi' : Pipe)
        → IsPipe pi'
        → Wrote copyin killed n (i + 1) pi' (write_from copyin killed n (i + 1) pi'))
    → Wrote copyin killed (suc n) i pi (elim byte [
      | none ↦ ((returns (pos i), []), pi)
      | some ch ↦
          let (r, pi') = write_from copyin killed n (i + 1) (push pi ch) in ((r.0, ch ∷ r.1), pi')
    ])
write_next copyin killed n i pi none e v lt rest =
    none_written copyin killed (suc n) i pi (returns (pos i)) v (omega arith, inr e)
write_next copyin killed n i pi (some ch) e v lt rest =
    let w = rest (push pi ch) (push-IsPipe pi ch v lt) in
    let xs : List ℕ = (write_from copyin killed n (i + 1) (push pi ch)).0.1 in
    record {
      fetched = (e, w.fetched);
      joined =
          w.joined
          ∙ ap (λ q. q ++ xs) (contents-push pi ch v lt)
          ∙ append_assoc (contents pi) (ch ∷ []) xs;
      valid = w.valid;
      ends =
          WriteEnd-suc copyin killed n i (length xs)
            (write_from copyin killed n (i + 1) (push pi ch)).1
            (write_from copyin killed n (i + 1) (push pi ch)).0.0 w.ends;
      readers = w.readers ∙ push-readopen pi ch;
      writers = w.writers ∙ push-writeopen pi ch;
    }

-- On a pipe with consistent counters a segment of pipewrite appends the bytes that it fetched to
-- the pipe's bytes, in order, and stops only with all written, at a byte that is not mapped,
-- asleep with the pipe full, or with -1 where the readers are gone or the process is killed.
pub write_from-Wrote :
    (copyin : ℕ → Option ℕ) (killed : Bool) (n i : ℕ) (pi : Pipe)
    → IsPipe pi
    → Wrote copyin killed n i pi (write_from copyin killed n i pi)
unfolding write_from
write_from-Wrote copyin killed zero i pi v =
    none_written copyin killed 0 i pi (returns (pos i)) v (omega arith, inl refl)
write_from-Wrote copyin killed (suc n) i pi v =
    elim (Bool-cases (is_closed pi.readopen || killed)) [
      | inl stop ↦ rw stop (none_written copyin killed (suc n) i pi (returns failure) v stop)
      | inr on ↦ elim (Bool-cases (pi.nwrite == (pi.nread + pipesize) % 2 ^ 32)) [
        | inl full ↦
            rw (on, full)
              (none_written copyin killed (suc n) i pi (sleeps i) v (
                omega arith,
                omega arith,
                ground (arith, v.fits),
                (not_stopped pi.readopen killed on).0,
                (not_stopped pi.readopen killed on).1,
              ))
        | inr room ↦
            rw (on, room)
              (write_next copyin killed n i pi (copyin i) refl v (room_left pi v room)
                (λ pi' v'. write_from-Wrote copyin killed n (i + 1) pi' v'))
      ]
    ]

-- How the copy loop may end that took `xs` and came to index `j`: a byte that cannot be written to
-- the process was taken all the same.
abbrev pub ReadEnd : (ℕ → Bool) → ℕ → ℕ → ℕ → List ℕ → Pipe → Type 0
ReadEnd copyout n i j xs pi =
    ((j ≡ i + length xs) × ((length xs ≡ n) ⊎ (contents pi ≡ [])))
    ⊎ ((suc j ≡ i + length xs) × (length xs ≤ n) × (copyout j ≡ false))

pub record Took (copyout : ℕ → Bool) (n i : ℕ) (pi : Pipe) (r : (ℕ × List ℕ) × Pipe) : Type 0 where
  pub front : contents pi ≡ r.0.1 ++ contents r.1
  pub valid : IsPipe r.1
  pub ends : ReadEnd copyout n i r.0.0 r.0.1 r.1

empty-contents : (pi : Pipe) → IsPipe pi → pi.nread ≡ pi.nwrite → contents pi ≡ []
unfolding window
empty-contents pi v e =
    let none_used : used pi ≡ 0 = omega (arith, v.read_word, v.write_word) in rw none_used refl

ReadEnd-suc :
    (copyout : ℕ → Bool) (n i j ch : ℕ) (xs : List ℕ) (pi : Pipe)
    → ReadEnd copyout n (i + 1) j xs pi
    → ReadEnd copyout (suc n) i j (ch ∷ xs) pi
ReadEnd-suc copyout n i j ch xs pi (inl (at, inl all)) = inl (omega arith, inl (ap suc all))
ReadEnd-suc copyout n i j ch xs pi (inl (at, inr empty)) = inl (omega arith, inr empty)
ReadEnd-suc copyout n i j ch xs pi (inr (at, le, bad)) = inr (omega arith, omega arith, bad)

-- On a pipe with consistent counters the copy loop of piperead takes the oldest bytes of the pipe,
-- in order, and stops only with all taken, at the end of the pipe, or behind a byte that could not
-- be written to the process and is not counted.
pub read_from-Took :
    (copyout : ℕ → Bool) (n i : ℕ) (pi : Pipe)
    → IsPipe pi
    → Took copyout n i pi (read_from copyout n i pi)
unfolding read_from
read_from-Took copyout zero i pi v = record {
  front = refl;
  valid = v;
  ends = inl (omega arith, inl refl);
}
read_from-Took copyout (suc n) i pi v = elim (Bool-cases (pi.nread == pi.nwrite)) [
  | inl empty ↦
      rw (empty, read_from)
        (record {
          front = refl;
          valid = v;
          ends = inl (omega arith, inr (empty-contents pi v (ground arith)));
        })
  | inr there ↦
      let ne : pi.nread ≢ pi.nwrite = λ e. ground arith in
      elim (Bool-cases (copyout i)) [
        | inl fine ↦
            let t = read_from-Took copyout n (i + 1) (pop pi).1 (pop-IsPipe pi v ne) in
            rw (there, read_from)
              (rw fine (record {
                front = contents-pop pi v ne ∙ ap (◌∷◌ (pop pi).0) t.front;
                valid = t.valid;
                ends =
                    ReadEnd-suc copyout n i (read_from copyout n (i + 1) (pop pi).1).0.0 (pop pi).0
                      (read_from copyout n (i + 1) (pop pi).1).0.1
                      (read_from copyout n (i + 1) (pop pi).1).1 t.ends;
              }))
        | inr bad ↦
            rw (there, read_from)
              (rw bad (record {
                front = contents-pop pi v ne;
                valid = pop-IsPipe pi v ne;
                ends = inr (omega arith, omega arith, bad);
              }))
      ]
]

-- A segment of piperead takes its bytes from the front of the pipe.
pub piperead-front :
    (copyout : ℕ → Bool) (killed : Bool) (n : ℕ) (pi : Pipe)
    → IsPipe pi
    → (contents pi
        ≡ (piperead copyout killed n pi).0.1 ++ contents (piperead copyout killed n pi).1)
      × IsPipe (piperead copyout killed n pi).1
unfolding piperead
piperead-front copyout killed n pi v = elim (Bool-cases ((pi.nread == pi.nwrite) && pi.writeopen)) [
  | inl waits ↦ elim (Bool-cases killed) [
    | inl k ↦ rw (waits, k) (refl, v)
    | inr k ↦ rw (waits, k) (refl, v)
  ]
  | inr on ↦ let t = read_from-Took copyout n 0 pi v in rw on (t.front, t.valid)
]
