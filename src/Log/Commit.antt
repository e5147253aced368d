-- ===== src/Log/Commit.antt =====
-- commit of kernel/log.c as one change of what the disk holds.
use zerocopy_ringbuf.Common.{
  ℕ, ◌+◌, ◌<◌, ◌≡◌, ◌≢◌, ◌⊎◌, refl, sym, ap, ◌∙◌, false, [], ltb, arith, Bool-cases, inl, inr,
}
use mathlib.Core.Path.{subst}
use zerocopy_ringbuf.Log.{
  Block, Disk, Log, Fs, put, set_data, bwrite, set_n, write_log, write_head, install_trans, commit,
}
use zerocopy_ringbuf.Log.Pending.{
  is_log, Holds, Holds-empty, Holds-same, Holds-put_head, head_of, head_of-count, head_of-listed,
}
use zerocopy_ringbuf.Log.Install.{All-mono, Installing, install_from-Installing, put-at, put-off}
use zerocopy_ringbuf.Log.Crash.{
  Cleared, clear-Cleared, Writing, IsTransaction, write_log_from-Writing,
}

-- The disk's header is empty, and every block whose buffer differs from the disk is in the log.
pub record IsReady (s : Fs) : Type 0 where
  pub empty : s.disk s.log.start 0 ≡ 0
  pub transaction : IsTransaction s.log
  pub unlogged :
      (b : ℕ)
      → is_log s.log.start s.log.size b ≡ false
      → ((i : ℕ) → i < s.log.n → s.log.block i ≢ b)
      → s.cache b ≡ s.disk b

abbrev pub Either : Log → Disk → Disk → Disk → Type 0
Either l old new d = Holds l.start l.size d old ⊎ Holds l.start l.size d new

abbrev pub Unlogged : Log → Disk → Disk → Type 0
Unlogged l old new =
    (b : ℕ) → is_log l.start l.size b ≡ false → ((i : ℕ) → i < l.n → l.block i ≢ b) → old b ≡ new b

-- The write of the header, behind write_log: the transaction is pending from then on.
commit-point :
    (old new : Disk) (s : Fs)
    → IsTransaction s.log
    → Unlogged s.log old new
    → Writing s.log old new s.log.n s.disk s.cache s.past
    → let s' : Fs = write_head s in
      Installing (Either s.log old new) s.log new 0 s'.disk s'.cache s'.past
unfolding write_head set_data bwrite
commit-point old new s p unlogged v =
    let start : ℕ = s.log.start in
    let hb : Block = head_of s.log (s.cache start) in
    let cache' : Disk = put s.cache start hb in
    let bs : Block = cache' start in
    let disk' : Disk = put s.disk start bs in
    let written : bs ≡ hb = put-at s.cache start start hb refl in
    let count : bs 0 ≡ s.log.n =
      ap (λ (w : Block). w 0) written ∙ head_of-count s.log (s.cache start) in
    let listed : (i : ℕ) → i < s.log.n → bs (i + 1) ≡ s.log.block i =
      λ i h. ap (λ (w : Block). w (i + 1)) written ∙ head_of-listed s.log (s.cache start) i h in
    let head : disk' start ≡ bs = put-at s.disk start start bs refl in
    let now : Holds start s.log.size disk' new =
      Holds-put_head start s.log.size s.disk old new bs v.now v.empty (omega (arith, count, p.room))
        (omega (arith, count, p.fits))
        (λ i h. let h' : i < s.log.n = omega (arith, count, h) in rw (listed i h') (p.outside i h'))
        (λ i h. let h' : i < s.log.n = omega (arith, count, h) in rw (listed i h') (v.copied i h'))
        (λ b out miss.
          unlogged b out (λ i h e. miss i (omega (arith, count, h)) (listed i h ∙ e))) in
    record {
      now = now;
      before = (
        inl v.now,
        All-mono (λ d. Holds start s.log.size d old) (Either s.log old new) s.past (λ d h. inl h)
            v.before,
      );
      count = ap (λ (w : Block). w 0) head ∙ count;
      listed = λ i h. ap (λ (w : Block). w (i + 1)) head ∙ listed i h;
      source = λ i h.
          put-off s.cache start (start + i + 1) hb (λ e. omega (arith, e))
          ∙ v.source i h
          ∙ sym (put-off s.disk start (start + i + 1) bs (λ e. omega (arith, e)));
      done = λ b out miss.
          let ne : b ≢ start = λ e. ground (arith, out, p.room, e) in
          let same = unlogged b out (λ i h. miss i (omega arith) h) in
          (
            put-off s.disk start b bs ne
                ∙ Holds-same start s.log.size s.disk old v.now v.empty b out
                ∙ same,
            put-off s.cache start b hb ne ∙ v.shown b out,
          );
    }

write_head-log : (s : Fs) → (write_head s).log ≡ s.log
unfolding write_head set_data bwrite
write_head-log s = refl

-- A commit of a transaction of at least one block, from a state with the disk `old` and the buffers
-- `new`.
commit-Cleared :
    (s : Fs)
    → IsReady s
    → s.past ≡ []
    → 0 < s.log.n
    → Cleared
        (Either s.log s.disk s.cache)
        s.log
        s.cache
        (write_head (set_n 0 (install_trans false (write_head (write_log s)))))
unfolding write_log install_trans
commit-Cleared s v fresh some_blocks =
    let p = v.transaction in
    let old : Disk = s.disk in
    let new : Disk = s.cache in
    let P : Log → Disk → Type 0 = λ l. Either l old new in
    let ready : Writing s.log old new 0 s.disk s.cache s.past = record {
      now =
          Holds-empty s.log.start s.log.size old old v.empty (omega (arith, p.room)) (λ b _. refl);
      before = rw fresh tt;
      empty = v.empty;
      copied = λ i h. absurd (omega (arith, h));
      source = λ i h. absurd (omega (arith, h));
      shown = λ b _. refl;
    } in
    let s1 : Fs = write_log s in
    let (w, e1) = write_log_from-Writing s.log.n 0 s old new p ready (omega arith) in
    let w1 : Writing s1.log old new s1.log.n s1.disk s1.cache s1.past =
      subst (λ (l : Log). Writing l old new l.n s1.disk s1.cache s1.past) (sym e1) w in
    let p1 : IsTransaction s1.log = subst (λ (l : Log). IsTransaction l) (sym e1) p in
    let u1 : Unlogged s1.log old new =
      subst (λ (l : Log). Unlogged l old new) (sym e1)
        (λ b out miss. sym (v.unlogged b out miss)) in
    let s2 : Fs = write_head s1 in
    let c = commit-point old new s1 p1 u1 w1 in
    let e2 : s2.log ≡ s1.log = write_head-log s1 in
    let c2 : Installing (P s.log) s.log new 0 s2.disk s2.cache s2.past =
      subst (λ (l : Log). Installing (P l) l new 0 s2.disk s2.cache s2.past) e1 c in
    let e3 : s2.log ≡ s.log = e2 ∙ e1 in
    let c3 : Installing (P s.log) s2.log new 0 s2.disk s2.cache s2.past =
      subst (λ (l : Log). Installing (P s.log) l new 0 s2.disk s2.cache s2.past) (sym e3) c2 in
    let inc : (d : Disk) → Holds s2.log.start s2.log.size d new → P s.log d =
      subst (λ (l : Log). (d : Disk) → Holds l.start l.size d new → P s.log d) (sym e3)
        (λ d h. inr h) in
    let (i, e4) = install_from-Installing (P s.log) false s2.log.n 0 s2 new inc c3 (omega arith) in
    let s3 : Fs = install_trans false s2 in
    clear-Cleared (P s.log) s.log new s3 (λ d h. inr h)
      (subst (λ (l : Log). Installing (P s.log) l new l.n s3.disk s3.cache s3.past) e3 i) (e4 ∙ e3)

-- commit of an empty history leaves each disk with the old or with the new blocks.
pub commit-atomic :
    (s : Fs)
    → IsReady s
    → s.past ≡ []
    → Cleared (Either s.log s.disk s.cache) s.log s.cache (commit s)
unfolding commit
commit-atomic s v fresh = elim (Bool-cases (ltb 0 s.log.n)) [
  | inl some_blocks ↦ rw some_blocks (commit-Cleared s v fresh (ground (arith, some_blocks)))
  | inr no_blocks ↦
      let none_left : s.log.n ≡ 0 = ground (arith, no_blocks) in
      let same : (b : ℕ) → is_log s.log.start s.log.size b ≡ false → s.cache b ≡ s.disk b =
        λ b out. v.unlogged b out (λ i h. absurd (omega (arith, h, none_left))) in
      rw no_blocks (record {
        before = rw fresh tt;
        now =
            Holds-empty s.log.start s.log.size s.disk s.cache v.empty
              (omega (arith, v.transaction.room)) (λ b out. sym (same b out));
        empty = v.empty;
        same_log = ap (λ k. record s.log { n = k }) none_left;
        shown = λ b out. (sym (same b out), refl);
      })
]
