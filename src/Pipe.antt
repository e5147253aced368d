-- ===== src/Pipe.antt =====
-- kernel/pipe.c: a ring of 512 bytes between processes. A call holds the pipe's lock but while it
-- sleeps, so what it does from taking the lock to giving it back, or to sleeping, is one segment.
pub mod Queue
pub mod Stream
pub mod History
mod Tests
use zerocopy_ringbuf.Common.{
  ℕ, zero, suc, ◌+◌, ◌-◌, ◌%◌, ◌^◌, Bool, true, false, ◌&&◌, ◌||◌, Option, none, some, List, [],
  ◌∷◌, ℤ, pos, negsuc, failure, ◌==◌, if◌then◌else◌,
}

abbrev pub pipesize : ℕ
pipesize = 512

-- `nread` and `nwrite` are 32-bit words.
pub record Pipe : Type 0 where
  pub bytes : ℕ → ℕ
  pub nread : ℕ
  pub nwrite : ℕ
  pub readopen : Bool
  pub writeopen : Bool

abbrev pub incr_uint : ℕ → ℕ
incr_uint n = (n + 1) % 2 ^ 32

abbrev pub is_closed : Bool → Bool
is_closed true = false
is_closed false = true

-- How a segment ends: the call returns, or it sleeps, at the index that it has come to.
pub data End : Type 0 where
  returns : ℤ → End
  sleeps : ℕ → End

-- The pipe that `pipealloc` sets up on a new page, whatever the page holds.
unfoldable pub init_pipe : (ℕ → ℕ) → Pipe
init_pipe junk = record { bytes = junk; nread = 0; nwrite = 0; readopen = true; writeopen = true }

-- The pipe, and whether its page is freed.
unfoldable pub pipeclose : Pipe → Bool → Pipe × Bool
pipeclose pi writable =
    let pi' : Pipe =
      if writable then record pi { writeopen = false } else record pi { readopen = false } in
    (pi', is_closed pi'.readopen && is_closed pi'.writeopen)

-- `pi->data[pi->nwrite++ % PIPESIZE] = ch`
unfoldable pub push : Pipe → ℕ → Pipe
push pi ch = record pi {
  bytes = λ j. if j == pi.nwrite % pipesize then ch else pi.bytes j;
  nwrite = incr_uint pi.nwrite;
}

-- `pi->data[pi->nread++ % PIPESIZE]`
unfoldable pub pop : Pipe → ℕ × Pipe
pop pi = (pi.bytes (pi.nread % pipesize), record pi { nread = incr_uint pi.nread })

-- The loop of `pipewrite` from index `i` on with `n` bytes left, which also returns the bytes that
-- it put into the pipe. `copyin i` is the user's byte at
-- `addr + i`, if it is mapped.
unfoldable pub write_from : (ℕ → Option ℕ) → Bool → ℕ → ℕ → Pipe → (End × List ℕ) × Pipe
unfolding push
write_from copyin killed zero i pi = ((returns (pos i), []), pi)
write_from copyin killed (suc n) i pi =
    if is_closed pi.readopen || killed
    then ((returns failure, []), pi)
    else if pi.nwrite == (pi.nread + pipesize) % 2 ^ 32
    then ((sleeps i, []), pi)
    else elim (copyin i) [
      | none ↦ ((returns (pos i), []), pi)
      | some ch ↦
          let (r, pi') = write_from copyin killed n (i + 1) (push pi ch) in ((r.0, ch ∷ r.1), pi')
    ]

-- The copy loop of `piperead`, which also returns the bytes that it took from the pipe. `copyout i`
-- is whether the user's byte at `addr + i` can be written.
unfoldable pub read_from : (ℕ → Bool) → ℕ → ℕ → Pipe → (ℕ × List ℕ) × Pipe
unfolding pop
read_from copyout zero i pi = ((i, []), pi)
read_from copyout (suc n) i pi = elim (pi.nread == pi.nwrite) [
  | true ↦ ((i, []), pi)
  | false ↦
      let (ch, pi') = pop pi in
      elim (copyout i) [
        | false ↦ ((i, ch ∷ []), pi')
        | true ↦ let (r, pi'') = read_from copyout n (i + 1) pi' in ((r.0, ch ∷ r.1), pi'')
      ]
]

-- A segment of `piperead`: it sleeps or gives up on an empty pipe that may still be written to.
unfoldable pub piperead : (ℕ → Bool) → Bool → ℕ → Pipe → (End × List ℕ) × Pipe
unfolding read_from
piperead copyout killed n pi =
    if (pi.nread == pi.nwrite) && pi.writeopen
    then (if killed then ((returns failure, []), pi) else ((sleeps 0, []), pi))
    else (let (r, pi') = read_from copyout n 0 pi in ((returns (pos r.0), r.1), pi'))
