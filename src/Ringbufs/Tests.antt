-- ===== src/Ringbufs/Tests.antt =====
-- Runs of the ring buffer calls over the flat memory management, and the theorems at its states.
use zerocopy_ringbuf.Common.{
  ℕ, ◌+◌, ◌-◌, ◌*◌, ◌/◌, ◌≡◌, refl, false, Option, none, some, List, [], ◌∷◌, ℤ, pos, success, ◌==◌,
  if◌then◌else◌, replicate, Outcome, ok, panic,
}
use zerocopy_ringbuf.Kstring.{Chars, strncmp, strncpy, strlen}
use zerocopy_ringbuf.Ringbufs.{
  Ringbuf, Kernel, empty, get_ringbuf_index, find_from, lift, ringbuf_at, put_ringbuf, acquire,
  release,
}
use zerocopy_ringbuf.Ringbufs.Pages.{
  search, find_contiguous_pages, mappages_to_proc, map_new, map_again, page_va, search_pages,
  mappage_to_book, validate_pages, copyout_user_addr,
}
use zerocopy_ringbuf.Ringbufs.Calls.{
  ringbuf, guarded, finish, dispatch, create_ringbuf, create_pages, enter_ringbuf, append_ringbuf,
  join_ringbuf, append_pages, unmap_ringbuf, leave_ringbuf, free_ringbuf, unmap_pages,
  unmap_ringbuf_pmem,
}
use zerocopy_ringbuf.Ringbufs.Flat.{Flat, flat}

abbrev pub free_slot : Ringbuf
free_slot = record { refcount = pos 0; name = empty; buf = λ _. 0; book = 0 }

-- Page 1 is the process's own memory, at its address 0; pages 2 to 99 are free.
abbrev pub machine : Flat
machine = record {
  next = 2;
  limit = 100;
  table = λ pt i. if i == 0 then 4096 else 0;
  words = λ a. 0;
}

abbrev pub boot : Kernel Flat
boot = record {
  machine = machine;
  ringbuf_lock = false;
  ringbufs = replicate 10 free_slot;
  pagetable = 7;
}

-- "mu" and "ga"
abbrev pub mu : Chars
mu i = if i == 0 then b'm' else if i == 1 then b'u' else 0

abbrev ga : Chars
ga i = if i == 0 then b'g' else if i == 1 then b'a' else 0

abbrev refs : List Ringbuf → List ℤ
refs (a ∷ b ∷ rest) = a.refcount ∷ b.refcount ∷ []
refs _ = []

-- The result, the number of named rings, the counts of the first two, and the address copied out.
abbrev summary : Outcome (ℤ × Kernel Flat) → Option (ℤ × ℕ × List ℤ × ℕ)
summary (ok (rc, k)) =
    some (rc, get_ringbuf_index k.ringbufs, refs k.ringbufs, k.machine.words 4096)
summary _ = none

abbrev then_call : Chars → ℤ → Outcome (ℤ × Kernel Flat) → Outcome (ℤ × Kernel Flat)
then_call name open_flag (ok (rc, k)) = ringbuf flat free_slot name open_flag 0 k
then_call name open_flag o = o

open_once :
    summary (ringbuf flat free_slot mu (pos 1) 0 boot)
    ≡ some (success, 1, pos 1 ∷ pos 0 ∷ [], 0x3fffffc000)
unfolding ringbuf acquire release guarded dispatch finish create_ringbuf create_pages enter_ringbuf
    find_contiguous_pages search lift mappages_to_proc map_new mappage_to_book validate_pages
    copyout_user_addr put_ringbuf get_ringbuf_index find_from strncmp strlen strncpy
open_once = refl

-- A second call of the same name joins the ring; its mapping starts a page further down.
open_twice :
    summary (then_call mu (pos 1) (ringbuf flat free_slot mu (pos 1) 0 boot))
    ≡ some (success, 1, pos 2 ∷ pos 0 ∷ [], 0x3ffffda000)
unfolding ringbuf acquire release guarded dispatch finish create_ringbuf create_pages enter_ringbuf
    append_ringbuf join_ringbuf append_pages unmap_ringbuf leave_ringbuf free_ringbuf unmap_pages
    unmap_ringbuf_pmem find_contiguous_pages search lift ringbuf_at mappages_to_proc map_new
    map_again mappage_to_book validate_pages copyout_user_addr put_ringbuf get_ringbuf_index
    find_from strncmp strlen strncpy
open_twice = refl

-- The kernel reads the address to unmap where it was copied out.
open_close :
    summary (then_call mu (pos 0) (ringbuf flat free_slot mu (pos 1) 0 boot))
    ≡ some (success, 0, pos 0 ∷ pos 0 ∷ [], 0x3fffffc000)
unfolding ringbuf acquire release guarded dispatch finish create_ringbuf create_pages enter_ringbuf
    append_ringbuf join_ringbuf append_pages unmap_ringbuf leave_ringbuf free_ringbuf unmap_pages
    unmap_ringbuf_pmem find_contiguous_pages search lift ringbuf_at mappages_to_proc map_new
    map_again mappage_to_book validate_pages copyout_user_addr put_ringbuf get_ringbuf_index
    find_from strncmp strlen strncpy
open_close = refl

-- With two rings, the first to be left is the first entry, and the next to be created is written
-- over the second: `ga` is not found any more.
abbrev xx : Chars
xx i = if i == 0 then b'x' else 0

abbrev two_rings : Outcome (ℤ × Kernel Flat)
two_rings = then_call ga (pos 1) (ringbuf flat free_slot mu (pos 1) 0 boot)

abbrev finds : Chars → Outcome (ℤ × Kernel Flat) → Option ℕ
finds name (ok (rc, k)) = find_from k.ringbufs name 0
finds name o = none

ga_overwritten :
    (finds ga two_rings ≡ some 1)
    × (finds ga (then_call xx (pos 1) (then_call mu (pos 0) two_rings)) ≡ none)
    × (finds xx (then_call xx (pos 1) (then_call mu (pos 0) two_rings)) ≡ some 1)
unfolding ringbuf acquire release guarded dispatch finish create_ringbuf create_pages enter_ringbuf
    append_ringbuf join_ringbuf append_pages unmap_ringbuf leave_ringbuf free_ringbuf unmap_pages
    unmap_ringbuf_pmem find_contiguous_pages search lift ringbuf_at mappages_to_proc map_new
    map_again mappage_to_book validate_pages copyout_user_addr put_ringbuf get_ringbuf_index
    find_from strncmp strlen strncpy
ga_overwritten = (refl, refl, refl)

-- A process with nothing mapped above, and one page where the joined ring's book page goes.
abbrev crowded : Kernel Flat
crowded = record {
  machine = record {
    next = 50;
    limit = 100;
    table = λ pt i.
        if i == 0 then 4096 else if i == page_va (search_pages - 34) / 4096 then 8192 else 0;
    words = λ a. 0;
  };
  ringbuf_lock = false;
  ringbufs =
      record { refcount = pos 1; name = mu; buf = λ j. (2 + j) * 4096; book = 18 * 4096 }
      ∷ replicate 9 free_slot;
  pagetable = 7;
}

append_panics : ringbuf flat free_slot mu (pos 1) 0 crowded ≡ panic
unfolding ringbuf acquire release guarded dispatch finish create_ringbuf create_pages enter_ringbuf
    append_ringbuf join_ringbuf append_pages unmap_ringbuf leave_ringbuf free_ringbuf unmap_pages
    unmap_ringbuf_pmem find_contiguous_pages search lift ringbuf_at mappages_to_proc map_new
    map_again mappage_to_book validate_pages copyout_user_addr put_ringbuf get_ringbuf_index
    find_from strncmp strlen strncpy
append_panics = refl
