-- ===== src/Pipe/Tests.antt =====
-- Tests of kernel/pipe.c: a process writes three bytes of four, and another reads two of them.
use zerocopy_ringbuf.Common.{
  ℕ, ◌+◌, ◌≡◌, refl, [], ◌∷◌, true, false, Option, none, some, pos, ltb, if◌then◌else◌,
}
use zerocopy_ringbuf.Pipe.{Pipe, returns, init_pipe, write_from, read_from, piperead}
use zerocopy_ringbuf.Pipe.Queue.{IsPipe, init_pipe-empty}
use zerocopy_ringbuf.Pipe.Stream.{write_from-Wrote, Took, read_from-Took}
use zerocopy_ringbuf.Pipe.History.{
  History, start, Reach, here, next, write, read, IsStream, Reach-IsStream,
}

abbrev new_pipe : Pipe
new_pipe = init_pipe (λ _. 9)

-- Three bytes are mapped.
abbrev user_bytes : ℕ → Option ℕ
user_bytes i = if ltb i 3 then some (i + 10) else none

abbrev written : Pipe
written = (write_from user_bytes false 4 0 new_pipe).1

write_three : (write_from user_bytes false 4 0 new_pipe).0 ≡ (returns (pos 3), 10 ∷ 11 ∷ 12 ∷ [])
unfolding write_from init_pipe
write_three = refl

read_two : (piperead (λ _. true) false 2 written).0 ≡ (returns (pos 2), 10 ∷ 11 ∷ [])
unfolding write_from init_pipe piperead
read_two = refl

written-IsPipe : IsPipe written
written-IsPipe = (write_from-Wrote user_bytes false 4 0 new_pipe (init_pipe-empty (λ _. 9)).0).valid

read_from-Took_example : Took (λ _. true) 2 0 written (read_from (λ _. true) 2 0 written)
read_from-Took_example = read_from-Took (λ _. true) 2 0 written written-IsPipe

abbrev after_both : History
after_both = record {
  pipe = (piperead (λ _. true) false 2 written).1;
  sent = (write_from user_bytes false 4 0 new_pipe).0.1;
  taken = (piperead (λ _. true) false 2 written).0.1;
}

after_both-Reach : Reach (start (λ _. 9)) after_both
after_both-Reach = next (next here (write user_bytes false 4 0)) (read (λ _. true) false 2)

Reach-IsStream_example : IsStream after_both
Reach-IsStream_example = Reach-IsStream (λ _. 9) after_both-Reach
