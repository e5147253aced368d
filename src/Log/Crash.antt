-- ===== src/Log/Crash.antt =====
-- commit of kernel/log.c: whenever the power fails in it, the disk holds what it held before, or what
-- the transaction made of it.
use zerocopy_ringbuf.Common.{
  ℕ, zero, suc, ◌+◌, ◌≤◌, ◌<◌, ◌≡◌, ◌≢◌, refl, sym, ap, ◌∙◌, false, List, ◌∷◌, ◌==◌, arith,
  Bool-cases, inl, inr,
}
use zerocopy_ringbuf.Log.{
  Block, Disk, Log, Fs, logsize, put, set_data, bwrite, set_n, write_log_from, write_head,
}
use zerocopy_ringbuf.Log.Pending.{is_log, Holds, Holds-empty, Holds-put_log, head_of, head_of-count}
use zerocopy_ringbuf.Log.Install.{All, Installing, put-at, put-off}

-- The last write of a commit and of a recovery: with all in place, the header is emptied.
pub record Cleared (P : Disk → Type 0) (l : Log) (home : Disk) (s : Fs) : Type 0 where
  pub before : All P s.past
  pub now : Holds l.start l.size s.disk home
  pub empty : s.disk l.start 0 ≡ 0
  pub same_log : s.log ≡ record l { n = 0 }
  pub shown : (b : ℕ) → is_log l.start l.size b ≡ false → (s.disk b ≡ home b) × (s.cache b ≡ home b)

pub clear-Cleared :
    (P : Disk → Type 0) (l : Log) (home : Disk) (s : Fs)
    → ((d : Disk) → Holds l.start l.size d home → P d)
    → Installing P l home l.n s.disk s.cache s.past
    → s.log ≡ l
    → Cleared P l home (write_head (set_n 0 s))
unfolding write_head set_data bwrite
clear-Cleared P l home s implied v e =
    let l0 : Log = record s.log { n = 0 } in
    let hb : Block = head_of l0 (s.cache s.log.start) in
    let cache' : Disk = put s.cache s.log.start hb in
    let disk' : Disk = put s.disk s.log.start (cache' s.log.start) in
    let q : s.log.start ≡ l.start = ap (λ (k : Log). k.start) e in
    let written : cache' s.log.start ≡ hb = put-at s.cache s.log.start s.log.start hb refl in
    let head : disk' l.start ≡ hb =
      put-at s.disk s.log.start l.start (cache' s.log.start) (sym q) ∙ written in
    let empty : disk' l.start 0 ≡ 0 =
      ap (λ (w : Block). w 0) head ∙ head_of-count l0 (s.cache s.log.start) in
    let off : (b : ℕ) → is_log l.start l.size b ≡ false → b ≢ s.log.start =
      λ b out f. ground (arith, out, v.now.small, q, f) in
    let shown : (b : ℕ)
        → is_log l.start l.size b ≡ false
        → (disk' b ≡ home b) × (cache' b ≡ home b) =
      λ b out.
        let (x, y) = v.done b out (λ i le lt. absurd (omega (arith, le, lt))) in
        (
          put-off s.disk s.log.start b (cache' s.log.start) (off b out) ∙ x,
          put-off s.cache s.log.start b hb (off b out) ∙ y,
        ) in
    record {
      before = (implied s.disk v.now, v.before);
      now =
          Holds-empty l.start l.size disk' home empty (omega (arith, v.now.small))
            (λ b out. (shown b out).0);
      empty = empty;
      same_log = ap (λ (k : Log). record k { n = 0 }) e;
      shown = shown;
    }

-- Before round `t` of write_log.
pub record Writing (l : Log) (old new : Disk) (t : ℕ) (disk cache : Disk) (past : List Disk)
    : Type 0 where
  pub now : Holds l.start l.size disk old
  pub before : All (λ d. Holds l.start l.size d old) past
  pub empty : disk l.start 0 ≡ 0
  pub copied : (i : ℕ) → i < t → disk (l.start + i + 1) ≡ new (l.block i)
  pub source : (i : ℕ) → i < t → cache (l.start + i + 1) ≡ disk (l.start + i + 1)
  pub shown : (b : ℕ) → is_log l.start l.size b ≡ false → cache b ≡ new b

-- The blocks of a transaction are not of the log, and it has room for them.
pub record IsTransaction (l : Log) : Type 0 where
  pub room : l.n < l.size
  pub fits : l.n ≤ logsize
  pub outside : (i : ℕ) → i < l.n → is_log l.start l.size (l.block i) ≡ false

module _ (l : Log) (old new : Disk) (p : IsTransaction l) (t : ℕ) (disk cache : Disk)
    (past : List Disk) (v : Writing l old new t disk cache past) (lt : t < l.n) where
  write-round :
      Writing l old new
        (t + 1)
        (put disk
          (l.start + t + 1)
          (put cache (l.start + t + 1) (cache (l.block t)) (l.start + t + 1)))
        (put cache (l.start + t + 1) (cache (l.block t)))
        (disk ∷ past)
  write-round =
      let to : ℕ = l.start + t + 1 in
      let bytes : Block = cache (l.block t) in
      let bs : Block = put cache to bytes to in
      let written : bs ≡ bytes = put-at cache to to bytes refl in
      let empty : put disk to bs l.start 0 ≡ 0 =
        ap (λ (w : Block). w 0) (put-off disk to l.start bs (λ e. omega (arith, e))) ∙ v.empty in
      record {
        now =
            Holds-put_log l.start l.size disk old to bs v.now v.empty (ground (arith, lt, p.room))
              empty;
        before = (v.now, v.before);
        empty = empty;
        copied = λ i h. elim (Bool-cases (i == t)) [
          | inl at ↦
              let q : i ≡ t = ground arith in
              put-at disk to (l.start + i + 1) bs (ap (λ k. l.start + k + 1) q)
              ∙ written
              ∙ v.shown (l.block t) (p.outside t lt)
              ∙ ap (λ k. new (l.block k)) (sym q)
          | inr off ↦
              put-off disk to (l.start + i + 1) bs (λ e. ground (arith, off, e))
              ∙ v.copied i (ground (arith, off, h))
        ];
        source = λ i h. elim (Bool-cases (i == t)) [
          | inl at ↦
              let q : l.start + i + 1 ≡ to = ground (arith, at) in
              put-at cache to (l.start + i + 1) bytes q
              ∙ sym (put-at disk to (l.start + i + 1) bs q ∙ written)
          | inr off ↦
              let ne : l.start + i + 1 ≢ to = λ e. ground (arith, off, e) in
              put-off cache to (l.start + i + 1) bytes ne
              ∙ v.source i (ground (arith, off, h))
              ∙ sym (put-off disk to (l.start + i + 1) bs ne)
        ];
        shown = λ b out.
            put-off cache to b bytes (λ e. ground (arith, out, lt, p.room, e)) ∙ v.shown b out;
      }

pub write_log_from-Writing :
    (n t : ℕ) (s : Fs) (old new : Disk)
    → IsTransaction s.log
    → Writing s.log old new t s.disk s.cache s.past
    → t + n ≡ s.log.n
    → let s' : Fs = write_log_from n t s in
      Writing s.log old new s.log.n s'.disk s'.cache s'.past × (s'.log ≡ s.log)
unfolding write_log_from
write_log_from-Writing zero t s old new p v e =
    let end : t ≡ s.log.n = omega (arith, e) in (rw end at v, refl)
write_log_from-Writing (suc n) t s old new p v e =
    write_log_from-Writing n (t + 1)
      (bwrite (s.log.start + t + 1) (set_data (s.log.start + t + 1) (s.cache (s.log.block t)) s))
      old new p (write-round s.log old new p t s.disk s.cache s.past v (omega (arith, e)))
      (omega (arith, e))
