-- ===== src/Ringbufs.antt =====
-- kernel/ringbuf.h and the searches of kernel/ringbuf.c: the kernel's table of ring buffers.
pub mod Pages
pub mod Calls
pub mod Keeps
pub mod Lock
pub mod Rules
pub mod Mapping
pub mod Double
pub mod Bytes
pub mod Search
pub mod SameRing
pub mod Keeping
pub mod Entry
pub mod Entries
pub mod Flat
mod Tests
mod Witnesses
use zerocopy_ringbuf.Common.{
  ℕ, ◌+◌, Bool, true, false, not, Option, none, some, List, [], ◌∷◌, ℤ, is_zero, success, failure,
  if◌then◌else◌, get_elem?, set, ok, panic, exit, fault, Cmd,
}
use zerocopy_ringbuf.Kstring.{Chars, strncmp}

abbrev pub max_ringbufs : ℕ
max_ringbufs = 10

abbrev pub ringbuf_size : ℕ
ringbuf_size = 16

abbrev pub ringbuf_name_len : ℕ
ringbuf_name_len = 16

abbrev pub pgsize : ℕ
pgsize = 4096

-- The arrays `name` and `buf` by index.
pub record Ringbuf : Type 0 where
  pub refcount : ℤ
  pub name : Chars
  pub buf : ℕ → ℕ
  pub book : ℕ

-- `machine` is the memory; `pagetable` is that of the calling process, `myproc()->pagetable`.
pub record Kernel (S : Type 0) : Type 0 where
  pub machine : S
  pub ringbuf_lock : Bool
  pub ringbufs : List Ringbuf
  pub pagetable : ℕ

-- The empty string.
abbrev pub empty : Chars
empty i = 0

abbrev pub in_use : Ringbuf → Bool
in_use rb = not (is_zero (strncmp rb.name empty ringbuf_name_len))

abbrev pub has_name : Chars → Ringbuf → Bool
has_name name rb = is_zero (strncmp rb.name name ringbuf_name_len)

-- `get_ringbuf_index` counts the entries with a name.
unfoldable pub get_ringbuf_index : List Ringbuf → ℕ
get_ringbuf_index [] = 0
get_ringbuf_index (rb ∷ rbs) =
    let rest = get_ringbuf_index rbs in if in_use rb then rest + 1 else rest

-- The loop over the table that four functions share: the index of the first entry of that name.
unfoldable pub find_from : List Ringbuf → Chars → ℕ → Option ℕ
find_from [] name i = none
find_from (rb ∷ rbs) name i =
    let rest = find_from rbs name (i + 1) in if has_name name rb then some i else rest

abbrev pub find : List Ringbuf → Chars → Option ℕ
find rbs name = find_from rbs name 0

unfoldable pub get_ringbuf_by_name : List Ringbuf → Chars → ℤ
unfolding find_from
get_ringbuf_by_name rbs name = elim (find rbs name) [ none ↦ failure | some i ↦ success ]

module _ {S : Type 0} where
  -- A call of the memory management from the kernel.
  unfoldable pub lift : {A : Type 0} → Cmd S A → Cmd (Kernel S) A
  lift c k = elim (c k.machine) [
    | ok (a, s) ↦ ok (a, record k { machine = s })
    | panic ↦ panic
    | exit n ↦ exit n
    | fault ↦ fault
  ]

  -- `ringbufs[i]`, and the assignment to it.
  unfoldable pub ringbuf_at : ℕ → Cmd (Kernel S) Ringbuf
  ringbuf_at i k = elim (get_elem? k.ringbufs i) [ none ↦ fault | some rb ↦ ok (rb, k) ]

  unfoldable pub put_ringbuf : ℕ → Ringbuf → Cmd (Kernel S) (Unit {0})
  put_ringbuf i rb k = elim (get_elem? k.ringbufs i) [
    | none ↦ fault
    | some _ ↦ ok (tt, record k { ringbufs = set k.ringbufs i rb })
  ]

  -- `acquire` and `release` of `ringbuf_lock` by the one process that runs.
  unfoldable pub acquire : Cmd (Kernel S) (Unit {0})
  acquire k = if k.ringbuf_lock then panic else ok (tt, record k { ringbuf_lock = true })

  unfoldable pub release : Cmd (Kernel S) (Unit {0})
  release k = if k.ringbuf_lock then ok (tt, record k { ringbuf_lock = false }) else panic
