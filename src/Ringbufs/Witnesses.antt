-- ===== src/Ringbufs/Witnesses.antt =====
-- The theorems about the ring buffer calls at states of the flat memory management.
use zerocopy_ringbuf.Common.{
  ap, ◌∙◌, set, ◌<◌, zero, suc, ◌≢◌, ◌==◌, get_elem?, Option, none, some, success, Outcome, panic,
  exit, fault, ◌%◌, leb, ◌&&◌, ℕ, ◌+◌, ◌-◌, ◌*◌, ◌/◌, ◌≡◌, refl, true, false, ℤ, pos, is_zero,
  failure, arith, if◌then◌else◌, replicate, length, ok, Ensures,
}
use zerocopy_ringbuf.UserRing.{Process, Syscall, ringbuf_open, free_entry}
use zerocopy_ringbuf.UserRing.Table.{IsOpenedAt, opened}
use zerocopy_ringbuf.Ringbufs.{Ringbuf, Kernel, lift, ringbuf_at, put_ringbuf}
use zerocopy_ringbuf.Ringbufs.Pages.{
  find_contiguous_pages, mappages_to_proc, map_new, map_again, search_pages, validate_pages,
}
use zerocopy_ringbuf.Ringbufs.Calls.{
  ringbuf, create_ringbuf, leave_ringbuf, free_ringbuf, unmap_pages, unmap_ringbuf_pmem, free_bufs,
}
use zerocopy_ringbuf.Ringbufs.Rules.{Succeeds}
use zerocopy_ringbuf.Ringbufs.Double.{
  IsDouble, mappages_to_proc-IsDouble_new, mappages_to_proc-IsDouble_again,
}
use zerocopy_ringbuf.Ringbufs.Search.{IsGap, find_contiguous_pages-IsGap}
use zerocopy_ringbuf.Ringbufs.Lock.{ringbuf-unlocks, ringbuf-full}
use zerocopy_ringbuf.Ringbufs.Entries.{Created, Left, create_ringbuf-Created, leave_ringbuf-Left}
use zerocopy_ringbuf.Ringbufs.Flat.{Flat, flat, tr, Valid, IsPage, flat-IsPaging}
use zerocopy_ringbuf.Ringbufs.Tests.{free_slot, machine, boot, mu}
use zerocopy_ringbuf.Ringbufs.Bytes.{physical, physical-shared}

-- The address at which the ring of `open_once` is mapped.
abbrev base : ℕ
base = 0x3fffffc000

mappages_to_proc-IsDouble_new_example :
    Ensures
      (Succeeds (λ rb' s'. IsDouble (tr 7) Valid IsPage base rb' s'))
      (mappages_to_proc flat 7 free_slot base 32 machine)
mappages_to_proc-IsDouble_new_example =
    mappages_to_proc-IsDouble_new (tr 7) Valid IsPage flat 7 (flat-IsPaging 7) base (omega arith)
      (omega arith) free_slot machine (omega arith) (omega arith) refl

abbrev joined : Ringbuf
joined = record { refcount = pos 1; name = mu; buf = λ j. (2 + j) * 4096; book = 18 * 4096 }

mappages_to_proc-IsDouble_again_example :
    Ensures
      (Succeeds (λ rb' s'. IsDouble (tr 7) Valid IsPage base rb' s' × (rb' ≡ joined)))
      (mappages_to_proc flat 7 joined base 32 (record machine { next = 50 }))
mappages_to_proc-IsDouble_again_example =
    mappages_to_proc-IsDouble_again (tr 7) Valid IsPage flat 7 (flat-IsPaging 7) base (omega arith)
      (omega arith) joined (record machine { next = 50 }) 0 (omega arith) (omega arith) refl
      (λ j lt. omega arith) (λ j j' lt lt'. omega arith)

find_contiguous_pages-IsGap_example :
    (r : ℤ × ℕ) × (find_contiguous_pages flat 7 34 machine ≡ ok (r, machine))
    × (is_zero r.0 ≡ true → (e : ℕ) × IsGap (tr 7 machine) 34 r.1 e)
find_contiguous_pages-IsGap_example =
    find_contiguous_pages-IsGap flat 7 (tr 7 machine) machine (λ va. refl) 34

-- The gap of `open_once`, and one under a mapped page.
first-IsGap : IsGap (tr 7 machine) 34 0x3fffffd000 0
first-IsGap = record {
  top = search_pages;
  base_eq = refl;
  small = omega arith;
  room = omega arith;
  high = omega arith;
  unmapped = λ j lo hi. ground arith;
}

ringbuf-unlocks_example :
    Ensures
      (λ rc k'. (k'.ringbuf_lock ≡ false) × (length k'.ringbufs ≡ 10))
      (ringbuf flat free_slot mu (pos 1) 0 boot)
ringbuf-unlocks_example = ringbuf-unlocks flat free_slot mu (pos 1) 0 boot

-- Ten rings, all of them named.
abbrev full : Kernel Flat
full = record boot { ringbufs = replicate 10 joined }

all_joined : (n i : ℕ) (rb : Ringbuf) → get_elem? (replicate n joined) i ≡ some rb → rb.name 0 ≢ 0
all_joined zero i rb e = absurd (cc)
all_joined (suc n) zero rb e = ground (arith, e)
all_joined (suc n) (suc i) rb e = all_joined n i rb e

-- Leaving one of them fails.
ringbuf-full_example : ringbuf flat free_slot mu (pos 0) 0 full ≡ ok (failure, full)
ringbuf-full_example =
    ringbuf-full flat free_slot mu (pos 0) 0 full refl refl (λ i rb e. all_joined 10 i rb e)

create_ringbuf-Created_example :
    Ensures
      (λ rc k'. Created flat free_slot mu boot rc k')
      (create_ringbuf flat free_slot mu 0 boot)
create_ringbuf-Created_example = create_ringbuf-Created flat free_slot mu 0 boot

-- Process 7 has the ring of `joined` mapped at `base`, and that address in its own memory.
abbrev member : Kernel Flat
member = record full {
  machine = record machine {
    next = 50;
    table = λ pt i.
        if i == 0
        then 4096
        else if leb (base / 4096 - 31) i && leb i (base / 4096)
        then (2 + (base / 4096 - i) % 16) * 4096
        else if i == base / 4096 - 32
        then 18 * 4096
        else 0;
    words = λ a. base;
  };
}

leave_ringbuf-Left_example :
    Ensures
      (λ rc k'. Left flat free_slot 0 joined member rc k')
      (leave_ringbuf flat free_slot 0 0 member)
leave_ringbuf-Left_example = leave_ringbuf-Left flat free_slot 0 0 joined member refl

abbrev result_of : Outcome (ℤ × Kernel Flat) → Option ℤ
result_of (ok (rc, k)) = some rc
result_of panic = none
result_of (exit n) = none
result_of fault = none

-- That run returns 0.
left : result_of (leave_ringbuf flat free_slot 0 0 member) ≡ some success
unfolding leave_ringbuf free_ringbuf unmap_pages unmap_ringbuf_pmem free_bufs validate_pages lift
    ringbuf_at put_ringbuf
left = refl

abbrev Answer : Type 0
Answer = Outcome ((ℤ × Ringbuf) × Flat)

abbrev answer_of : Answer → Option ℤ
answer_of (ok ((rc, rb), s)) = some rc
answer_of panic = none
answer_of (exit n) = none
answer_of fault = none

abbrev ring_of : Answer → Ringbuf
ring_of (ok ((rc, rb), s)) = rb
ring_of panic = free_slot
ring_of (exit n) = free_slot
ring_of fault = free_slot

abbrev memory_of : Answer → Flat
memory_of (ok ((rc, rb), s)) = s
memory_of panic = machine
memory_of (exit n) = machine
memory_of fault = machine

returned : (o : Answer) → answer_of o ≡ some success → o ≡ ok ((success, ring_of o), memory_of o)
returned (ok ((rc, rb), s)) e = let r : rc ≡ success = ground (arith, e) in rw r refl
returned panic e = absurd (cc)
returned (exit n) e = absurd (cc)
returned fault e = absurd (cc)

-- Process 7 maps a new ring at `base`, and process 8 the same ring a page further down.
abbrev first : Answer
first = mappages_to_proc flat 7 free_slot base 32 machine

abbrev given : Ringbuf
given = record (ring_of first) { refcount = pos 1 }

abbrev second : Answer
second = mappages_to_proc flat 8 given (base - 4096) 32 (memory_of first)

first_answer : answer_of first ≡ some success
unfolding mappages_to_proc map_new
first_answer = refl

second_answer : answer_of second ≡ some success
unfolding mappages_to_proc map_new map_again
second_answer = refl

second_ring : ring_of second ≡ given
unfolding mappages_to_proc map_new map_again
second_ring = refl

pages_left : (memory_of first).next ≡ 18
unfolding mappages_to_proc map_new
pages_left = refl

given_pages : (j : ℕ) → j < 16 → (ring_of first).buf j < 18 * 4096
unfolding mappages_to_proc map_new
given_pages j lt = ground (arith, lt)

other_table : (va : ℕ) → tr 7 (memory_of second) va ≡ tr 7 (memory_of first) va
unfolding mappages_to_proc map_new map_again
other_table va = refl

abbrev asker : Process
asker = record {
  user_ring_bufs = replicate 10 (record { buf = 0; book = 0; exists = 0 });
  mem = λ a. 0;
}

abbrev answers : ℕ → Syscall
answers addr name open_flag asked s = ok ((success, addr), s)

abbrev entered : ℕ → Process
entered addr = record asker { user_ring_bufs = set asker.user_ring_bufs 0 (opened addr) }

opened-IsOpenedAt : (addr : ℕ) → IsOpenedAt addr (opened addr)
unfolding ringbuf_open free_entry
opened-IsOpenedAt addr = record {
  syscall = answers addr;
  name = mu;
  asked = 0;
  before = asker;
  between = asker;
  after = entered addr;
  rd = 0;
  ten = refl;
  call = refl;
  run = refl;
  entry = refl;
}

physical-shared_example :
    (physical (tr 7 (memory_of second)) ((opened base).buf + 70000)
      ≡ physical (tr 8 (memory_of second)) ((opened (base - 4096)).buf + 70000))
    × (physical (tr 7 (memory_of second)) ((opened base).buf + 70000)
        ≡ physical (tr 7 (memory_of second)) ((opened base).buf + 70000 % 65536))
physical-shared_example =
    physical-shared flat (tr 7) Valid IsPage 7 (flat-IsPaging 7) (tr 8) Valid IsPage 8
      (flat-IsPaging 8) base (base - 4096) (opened base) (opened (base - 4096)) free_slot
      (ring_of first) machine (memory_of first) (memory_of second) 0 (omega arith) (omega arith)
      (omega arith) refl (returned first first_answer) (omega (arith, pages_left))
      (λ j lt. omega (arith, pages_left, given_pages j lt))
      (returned second second_answer ∙ ap (λ r. ok ((success, r), memory_of second)) second_ring)
      other_table (opened-IsOpenedAt base) (opened-IsOpenedAt (base - 4096)) 70000 (omega arith)
