-- ===== src/Log/Reservation.antt =====
-- The operations of the file system on the log of kernel/log.c: each may write ten blocks.
use zerocopy_ringbuf.Common.{
  ℕ, zero, suc, ◌+◌, ◌*◌, ◌≤◌, ◌<◌, ◌≡◌, refl, ap, Bool, true, false, List, [], ◌∷◌, length, set,
  get_elem?, some, pos, ok, arith,
}
use zerocopy_ringbuf.Log.{Block, Disk, Fs, logsize, maxopblocks, set_data, commit}
use zerocopy_ringbuf.Log.Pending.{is_log}
use zerocopy_ringbuf.Log.Commit.{IsReady}
use zerocopy_ringbuf.Log.Ops.{begin_op, end_op_start, end_op_finish, log_write}

-- The file system, how many blocks each operation under way may still write, and the contents of the
-- disk at the last commit.
pub record System : Type 0 where
  pub fs : Fs
  pub left : List ℕ
  pub saved : Disk

abbrev pub total : List ℕ → ℕ
total [] = 0
total (x ∷ xs) = x + total xs

abbrev pub remove : List ℕ → ℕ → List ℕ
remove [] i = []
remove (x ∷ xs) zero = xs
remove (x ∷ xs) (suc i) = x ∷ remove xs i

abbrev pub AreSmall : List ℕ → Type 0
AreSmall [] = Unit
AreSmall (x ∷ xs) = (x ≤ maxopblocks) × AreSmall xs

pub data Step (s : System) : System → Type 0 where
  begin :
      (fs : Fs)
      → begin_op s.fs ≡ (true, fs)
      → Step s (record s { fs = fs; left = maxopblocks ∷ s.left })
  -- Operation `i` changes a block and logs it.
  write :
      (i k b : ℕ) (bytes : Block) (fs : Fs)
      → get_elem? s.left i ≡ some (suc k)
      → is_log s.fs.log.start s.fs.log.size b ≡ false
      → log_write b (set_data b bytes s.fs) ≡ ok fs
      → Step s (record s { fs = fs; left = set s.left i k })
  end :
      (i k : ℕ) (last : Bool) (fs : Fs)
      → get_elem? s.left i ≡ some k
      → end_op_start s.fs ≡ ok (last, fs)
      → Step s (record s { fs = fs; left = remove s.left i })
  -- The end of the last operation, behind its release of the lock.
  save :
      s.fs.log.committing ≡ true
      → Step s
          (record s { fs = record (end_op_finish (commit s.fs)) { past = [] }; saved = s.fs.cache })

pub data Reach (s : System) : System → Type 0 where
  here : Reach s s
  next : {t u : System} → Reach s t → Step t u → Reach s u

pub record IsLogging (s : System) : Type 0 where
  pub counted : s.fs.log.outstanding ≡ pos (length s.left)
  pub budget : s.fs.log.n + total s.left ≤ logsize
  pub tens : AreSmall s.left
  pub quiet : s.fs.log.committing ≡ true → length s.left ≡ 0
  pub large : 0 < s.fs.log.size
  pub ready : IsReady s.fs
  pub fresh : s.fs.past ≡ []
  pub kept : (b : ℕ) → is_log s.fs.log.start s.fs.log.size b ≡ false → s.fs.disk b ≡ s.saved b

pub total-remove :
    (xs : List ℕ) (i k : ℕ) → get_elem? xs i ≡ some k → k + total (remove xs i) ≡ total xs
total-remove [] i k e = absurd (cc)
total-remove (x ∷ xs) zero k e = ground (arith, e)
total-remove (x ∷ xs) (suc i) k e = omega (arith, total-remove xs i k e)

pub length-remove :
    (xs : List ℕ) (i k : ℕ) → get_elem? xs i ≡ some k → suc (length (remove xs i)) ≡ length xs
length-remove [] i k e = absurd (cc)
length-remove (x ∷ xs) zero k e = refl
length-remove (x ∷ xs) (suc i) k e = ap suc (length-remove xs i k e)

pub total-set :
    (xs : List ℕ) (i k : ℕ) → get_elem? xs i ≡ some (suc k) → suc (total (set xs i k)) ≡ total xs
total-set [] i k e = absurd (cc)
total-set (x ∷ xs) zero k e = ground (arith, e)
total-set (x ∷ xs) (suc i) k e = omega (arith, total-set xs i k e)

pub total-AreSmall : (xs : List ℕ) → AreSmall xs → total xs ≤ maxopblocks * length xs
total-AreSmall [] h = omega arith
total-AreSmall (x ∷ xs) h = omega (arith, h.0, total-AreSmall xs h.1)

pub remove-AreSmall : (xs : List ℕ) (i : ℕ) → AreSmall xs → AreSmall (remove xs i)
remove-AreSmall [] i h = tt
remove-AreSmall (x ∷ xs) zero h = h.1
remove-AreSmall (x ∷ xs) (suc i) h = (h.0, remove-AreSmall xs i h.1)

pub set-AreSmall :
    (xs : List ℕ) (i k : ℕ) → get_elem? xs i ≡ some (suc k) → AreSmall xs → AreSmall (set xs i k)
set-AreSmall [] i k e h = tt
set-AreSmall (x ∷ xs) zero k e h = (ground (arith, e, h.0), h.1)
set-AreSmall (x ∷ xs) (suc i) k e h = (h.0, set-AreSmall xs i k e h.1)
