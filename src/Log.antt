-- ===== src/Log.antt =====
-- kernel/log.c: the log that makes the disk writes of a transaction take effect at once. The buffer
-- cache is what its functions show here: `cache` is what bread returns for each block, bwrite writes
-- that to the disk, and `pins` counts the calls of bpin that bunpin has not undone. A block is its
-- 256 words of 32 bits, and its write to the disk is atomic.
pub mod Pending
pub mod Install
pub mod Crash
pub mod Commit
pub mod Recovery
pub mod Ops
pub mod Reservation
pub mod Entering
pub mod Steps
mod Tests
use zerocopy_ringbuf.Common.{
  ℕ, zero, suc, ◌+◌, ◌-◌, ◌*◌, ◌%◌, ◌^◌, Bool, true, false, ◌||◌, List, [], ◌∷◌, ltb, leb, ◌==◌,
  if◌then◌else◌, ℤ, pos, Outcome, ok, panic, exit, fault,
}

abbrev pub maxopblocks : ℕ
maxopblocks = 10

abbrev pub logsize : ℕ
logsize = maxopblocks * 3

abbrev pub Block : Type 0
Block = ℕ → ℕ

-- The blocks of a disk by number.
abbrev pub Disk : Type 0
Disk = ℕ → Block

-- `struct log` with its header `lh`; `outstanding` is an int.
pub record Log : Type 0 where
  pub start : ℕ
  pub size : ℕ
  pub outstanding : ℤ
  pub committing : Bool
  pub n : ℕ
  pub block : ℕ → ℕ

-- `past` are the contents that the disk has had before, the latest first.
pub record Fs : Type 0 where
  pub disk : Disk
  pub cache : Disk
  pub pins : ℕ → ℕ
  pub past : List Disk
  pub log : Log

abbrev pub put {ℓ} : {A : Type ℓ} → (ℕ → A) → ℕ → A → ℕ → A
put f i v j = if j == i then v else f j

-- A change of a buffer's data.
unfoldable pub set_data : ℕ → Block → Fs → Fs
set_data b bytes s = record s { cache = put s.cache b bytes }

unfoldable pub bwrite : ℕ → Fs → Fs
bwrite b s = record s { disk = put s.disk b (s.cache b); past = s.disk ∷ s.past }

unfoldable pub bpin : ℕ → Fs → Fs
bpin b s = record s { pins = put s.pins b ((s.pins b + 1) % 2 ^ 32) }

unfoldable pub bunpin : ℕ → Fs → Fs
bunpin b s = record s { pins = put s.pins b ((s.pins b + (2 ^ 32 - 1)) % 2 ^ 32) }

abbrev pub set_n : ℕ → Fs → Fs
set_n n s = record s { log = record s.log { n = n } }

-- The rounds of `install_trans` from `tail` on, with `n` left.
unfoldable pub install_from : Bool → ℕ → ℕ → Fs → Fs
unfolding set_data bwrite bunpin
install_from recovering zero tail s = s
install_from recovering (suc n) tail s =
    let b = s.log.block tail in
    let s' = bwrite b (set_data b (s.cache (s.log.start + tail + 1)) s) in
    install_from recovering n (tail + 1) (if recovering then s' else bunpin b s')

unfoldable pub install_trans : Bool → Fs → Fs
unfolding install_from
install_trans recovering s = install_from recovering s.log.n 0 s

-- The loop of `read_head`, with `n` rounds left, on the array in memory.
unfoldable pub read_blocks : ℕ → ℕ → Block → (ℕ → ℕ) → ℕ → ℕ
read_blocks zero i lh block = block
read_blocks (suc n) i lh block = read_blocks n (i + 1) lh (put block i (lh (i + 1)))

-- The rounds of a loop to an int: a word from 2 ^ 31 on is negative, and makes none.
abbrev pub rounds : ℕ → ℕ
rounds n = if ltb n (2 ^ 31) then n else 0

-- A header with more blocks than the array has is read past the array's end. A negative `n` counts
-- as 0: it makes no round in install_trans either, and recover_from_log then sets it to 0.
unfoldable pub read_head : Fs → Outcome Fs
unfolding read_blocks
read_head s =
    let lh = s.cache s.log.start in
    let n = rounds (lh 0) in
    if ltb logsize n
    then fault
    else ok (record s { log = record s.log { n = n; block = read_blocks n 0 lh s.log.block } })

-- The loop of `write_head`, with `n` rounds left.
unfoldable pub write_blocks : ℕ → ℕ → (ℕ → ℕ) → Block → Block
write_blocks zero i block hb = hb
write_blocks (suc n) i block hb = write_blocks n (i + 1) block (put hb (i + 1) (block i))

unfoldable pub write_head : Fs → Fs
unfolding write_blocks set_data bwrite
write_head s =
    let l = s.log in
    bwrite l.start (set_data l.start (write_blocks l.n 0 l.block (put (s.cache l.start) 0 l.n)) s)

-- The rounds of `write_log` from `tail` on, with `n` left.
unfoldable pub write_log_from : ℕ → ℕ → Fs → Fs
unfolding set_data bwrite
write_log_from zero tail s = s
write_log_from (suc n) tail s =
    let to = s.log.start + tail + 1 in
    write_log_from n (tail + 1) (bwrite to (set_data to (s.cache (s.log.block tail)) s))

unfoldable pub write_log : Fs → Fs
unfolding write_log_from
write_log s = write_log_from s.log.n 0 s

unfoldable pub commit : Fs → Fs
unfolding write_log write_head install_trans
commit s =
    if ltb 0 s.log.n
    then write_head (set_n 0 (install_trans false (write_head (write_log s))))
    else s

unfoldable pub recover_from_log : Fs → Outcome Fs
unfolding read_head install_trans write_head
recover_from_log s = elim (read_head s) [
  | ok s' ↦ ok (write_head (set_n 0 (install_trans true s')))
  | panic ↦ panic
  | exit c ↦ exit c
  | fault ↦ fault
]

-- The machine starts on a disk: no buffer is cached, and the log is what is in memory at first.
unfoldable pub initlog : ℕ → ℕ → Disk → Outcome Fs
unfolding recover_from_log
initlog logstart nlog disk = recover_from_log (record {
  disk = disk;
  cache = disk;
  pins = λ _. 0;
  past = [];
  log = record {
    start = logstart;
    size = nlog;
    outstanding = pos 0;
    committing = false;
    n = 0;
    block = λ _. 0;
  };
})
