-- ===== src/Pipe/History.antt =====
-- Any sequence of segments of pipewrite and piperead by any processes, and of pipeclose: the bytes
-- that were taken from the pipe and those in it are the bytes that were put into it.
use zerocopy_ringbuf.Common.{ℕ, ◌≡◌, refl, sym, ap, ◌∙◌, Bool, true, false, Option, List, [], ◌++◌}
use mathlib.Core.List.{append_assoc}
use zerocopy_ringbuf.Pipe.{Pipe, init_pipe, pipeclose, write_from, piperead}
use zerocopy_ringbuf.Pipe.Queue.{contents, IsPipe, init_pipe-empty}
use zerocopy_ringbuf.Pipe.Stream.{write_from-Wrote, piperead-front}

-- A pipe, and all the bytes that were put into it and taken from it so far.
pub record History : Type 0 where
  pub pipe : Pipe
  pub sent : List ℕ
  pub taken : List ℕ

abbrev pub start : (ℕ → ℕ) → History
start junk = record { pipe = init_pipe junk; sent = []; taken = [] }

pub data Step (h : History) : History → Type 0 where
  write :
      (copyin : ℕ → Option ℕ) (killed : Bool) (n i : ℕ)
      → Step h (record h {
        pipe = (write_from copyin killed n i h.pipe).1;
        sent = h.sent ++ (write_from copyin killed n i h.pipe).0.1;
      })
  read :
      (copyout : ℕ → Bool) (killed : Bool) (n : ℕ)
      → Step h (record h {
        pipe = (piperead copyout killed n h.pipe).1;
        taken = h.taken ++ (piperead copyout killed n h.pipe).0.1;
      })
  close : (writable : Bool) → Step h (record h { pipe = (pipeclose h.pipe writable).0 })

pub data Reach (h : History) : History → Type 0 where
  here : Reach h h
  next : {i j : History} → Reach h i → Step i j → Reach h j

pub record IsStream (h : History) : Type 0 where
  pub valid : IsPipe h.pipe
  pub order : h.sent ≡ h.taken ++ contents h.pipe

start-IsStream : (junk : ℕ → ℕ) → IsStream (start junk)
start-IsStream junk = let (v, e) = init_pipe-empty junk in record { valid = v; order = sym e }

close-IsPipe :
    (pi : Pipe) (writable : Bool)
    → IsPipe pi
    → IsPipe (pipeclose pi writable).0 × (contents (pipeclose pi writable).0 ≡ contents pi)
unfolding pipeclose
close-IsPipe pi true v =
    (record { read_word = v.read_word; write_word = v.write_word; fits = v.fits }, refl)
close-IsPipe pi false v =
    (record { read_word = v.read_word; write_word = v.write_word; fits = v.fits }, refl)

Step-IsStream : {h h' : History} → IsStream h → Step h h' → IsStream h'
Step-IsStream {h} v (write copyin killed n i) =
    let w = write_from-Wrote copyin killed n i h.pipe v.valid in
    record {
      valid = w.valid;
      order =
          ap (λ q. q ++ (write_from copyin killed n i h.pipe).0.1) v.order
          ∙ append_assoc h.taken (contents h.pipe) (write_from copyin killed n i h.pipe).0.1
          ∙ ap (◌++◌ h.taken) (sym w.joined);
    }
Step-IsStream {h} v (read copyout killed n) =
    let (front, valid) = piperead-front copyout killed n h.pipe v.valid in
    record {
      valid = valid;
      order =
          v.order
          ∙ ap (◌++◌ h.taken) front
          ∙ sym (
              append_assoc h.taken (piperead copyout killed n h.pipe).0.1
                (contents (piperead copyout killed n h.pipe).1));
    }
Step-IsStream {h} v (close writable) =
    let (valid, same) = close-IsPipe h.pipe writable v.valid in
    record { valid = valid; order = v.order ∙ ap (◌++◌ h.taken) (sym same) }

-- From a new pipe every sequence of segments of pipewrite and piperead, by any processes and with
-- any calls of pipeclose between them, keeps the order: the bytes put into the pipe are those
-- taken from it, followed by those in it, of which there are 512 at most.
pub Reach-IsStream : (junk : ℕ → ℕ) {h : History} → Reach (start junk) h → IsStream h
Reach-IsStream junk here = start-IsStream junk
Reach-IsStream junk (next r st) = Step-IsStream (Reach-IsStream junk r) st
