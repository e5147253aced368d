-- ===== src/File.antt =====
-- kernel/file.c: the table of open files and its reference counts, and pipealloc of kernel/pipe.c,
-- which opens two. Each function holds ftable.lock while it works on the table, so it is one step.
pub mod Counted
mod Tests
use zerocopy_ringbuf.Common.{
  ℕ, zero, suc, ◌+◌, ◌-◌, ◌^◌, Bool, true, false, Option, none, some, List, [], ◌∷◌, get_elem?, set,
  replicate, ℤ, success, failure, ◌==◌, ltb, if◌then◌else◌, Outcome, ok, panic, exit, fault,
}
use zerocopy_ringbuf.Pipe.{Pipe, init_pipe}

pub data FileType : Type 0 where
  fd_none : FileType
  fd_pipe : FileType
  fd_inode : FileType
  fd_device : FileType

-- `struct file`; pipes and inodes are named by their addresses.
pub record File : Type 0 where
  pub kind : FileType
  pub ref : ℕ
  pub readable : Bool
  pub writable : Bool
  pub pipe : ℕ
  pub ip : ℕ
  pub off : ℕ
  pub major : ℕ

abbrev pub nfile : ℕ
nfile = 100

abbrev pub Ftable : Type 0
Ftable = List File

-- The first entry without references, from entry `i` on.
unfoldable pub free_file : Ftable → ℕ → Option ℕ
free_file [] i = none
free_file (f ∷ fs) i = elim (f.ref == 0) [ true ↦ some i | false ↦ free_file fs (i + 1) ]

-- An access to an entry; outside of the table it is a fault.
abbrev pub file_at : {A : Type 0} → Ftable → ℕ → (File → Outcome A) → Outcome A
file_at fs i f = elim (get_elem? fs i) [ none ↦ fault | some x ↦ f x ]

unfoldable pub filealloc : Ftable → Option ℕ × Ftable
unfolding free_file
filealloc fs = elim (free_file fs 0) [
  | none ↦ (none, fs)
  | some i ↦ elim (get_elem? fs i) [
    | none ↦ (none, fs)
    | some f ↦ (some i, set fs i (record f { ref = 1 }))
  ]
]

-- The largest value of an int.
abbrev pub max_int : ℕ
max_int = 2 ^ 31 - 1

-- `ref` is an int: a count past the largest is undefined in C, and a fault here.
unfoldable pub filedup : Ftable → ℕ → Outcome Ftable
filedup fs i = file_at fs i λ f.
    if ltb f.ref 1
    then panic
    else if ltb f.ref max_int
    then ok (set fs i (record f { ref = f.ref + 1 }))
    else fault

-- What is left to do for the last reference, with the lock released.
pub data Last : Type 0 where
  nothing : Last
  close_pipe : ℕ → Bool → Last
  put_inode : ℕ → Last

abbrev pub last_of : FileType → File → Last
last_of fd_none f = nothing
last_of fd_pipe f = close_pipe f.pipe f.writable
last_of fd_inode f = put_inode f.ip
last_of fd_device f = put_inode f.ip

unfoldable pub fileclose : Ftable → ℕ → Outcome (Option Last × Ftable)
fileclose fs i = file_at fs i λ f.
    if ltb f.ref 1
    then panic
    else if ltb 0 (f.ref - 1)
    then ok (none, set fs i (record f { ref = f.ref - 1 }))
    else ok (some (last_of f.kind f), set fs i (record f { ref = 0; kind = fd_none }))

-- One end of a pipe.
unfoldable pub set_end : Ftable → ℕ → ℕ → Bool → Bool → Ftable
set_end fs i pi readable writable = elim (get_elem? fs i) [
  | none ↦ fs
  | some f ↦
      set fs i (record f { kind = fd_pipe; readable = readable; writable = writable; pipe = pi })
]

-- A call of `fileclose`, and the rest after it, with the list of what the closed files leave to do.
abbrev pub then_close :
    {A : Type 0} → Outcome (Option Last × Ftable) → (Option Last → Ftable → Outcome A) → Outcome A
then_close (ok (last, fs)) f = f last fs
then_close panic f = panic
then_close (exit n) f = exit n
then_close fault f = fault

pub record Opened : Type 0 where
  pub result : ℤ
  pub ends : Option (ℕ × ℕ)
  pub files : Ftable
  pub pipe : Option Pipe
  pub left : List (Option Last)

-- `pi` is the page that `kalloc` returns if it is called, or 0, and `junk` its bytes. `ends` are the
-- two files, and `left` is what the calls of `fileclose` at the label `bad` leave to do.
unfoldable pub pipealloc : Ftable → ℕ → (ℕ → ℕ) → Outcome Opened
unfolding filealloc fileclose set_end
pipealloc fs pi junk =
    let (f0, fs1) = filealloc fs in
    let refused : List (Option Last) → Ftable → Outcome Opened = λ left fs'.
      ok (record { result = failure; ends = none; files = fs'; pipe = none; left = left }) in
    elim f0 [
      | none ↦ refused [] fs1
      | some i0 ↦
          let (f1, fs2) = filealloc fs1 in
          elim f1 [
            | none ↦ then_close (fileclose fs2 i0) (λ last fs3. refused (last ∷ []) fs3)
            | some i1 ↦ elim (pi == 0) [
              | true ↦ then_close (fileclose fs2 i0) (λ last fs3.
                  then_close (fileclose fs3 i1) (λ last' fs4. refused (last ∷ last' ∷ []) fs4))
              | false ↦ ok (record {
                result = success;
                ends = some (i0, i1);
                files = set_end (set_end fs2 i0 pi true false) i1 pi false true;
                pipe = some (init_pipe junk);
                left = [];
              })
            ]
          ]
    ]
