-- ===== src/Log/Steps.antt =====
-- What the operations of the file system on the log of kernel/log.c keep, in any order.
use zerocopy_ringbuf.Common.{
  ℕ, suc, ◌+◌, ◌*◌, ◌≤◌, ◌<◌, ◌≡◌, ◌⊎◌, refl, sym, ap, ◌∙◌, Bool, true, false, ◌||◌, List, [], ◌∷◌,
  length, set, length-set, get_elem?, some, ltb, ℤ, pos, incr, decr, is_zero, ok, panic, exit,
  fault, arith, Bool-cases, inl, inr,
}
use mathlib.Core.Path.{subst}
use zerocopy_ringbuf.Log.{Block, Disk, Log, Fs, logsize, maxopblocks, set_data, commit, initlog}
use zerocopy_ringbuf.Log.Pending.{is_log, Holds, Holds-empty}
use zerocopy_ringbuf.Log.Install.{All, All-mono}
use zerocopy_ringbuf.Log.Commit.{commit-atomic}
use zerocopy_ringbuf.Log.Recovery.{
  RecoversTo, Recovers, Holds-RecoversTo, commit-crash, recovered, recovered-Cleared,
  initlog-recovered,
}
use zerocopy_ringbuf.Log.Ops.{begin_op, end_op_start, end_op_finish, log_write, is_full}
use zerocopy_ringbuf.Log.Reservation.{
  System, total, remove, Step, begin, write, end, save, Reach, here, next, IsLogging, total-remove,
  length-remove, total-set, total-AreSmall, remove-AreSmall, set-AreSmall,
}
use zerocopy_ringbuf.Log.Entering.{logged, logged-IsReady, log_write-run, log_write-full}

ok-inj : {A : Type 0} (a b : A) → ok a ≡ ok b → a ≡ b
ok-inj a b e = ap (λ o. elim o [ ok x ↦ x | panic ↦ a | exit n ↦ a | fault ↦ a ]) e

total-nonempty : (xs : List ℕ) → 0 < total xs → (o : ℕ) × (length xs ≡ suc o)
total-nonempty [] h = absurd (omega (arith, h))
total-nonempty (x ∷ xs) h = (length xs, refl)

begin-IsLogging :
    (s : System) (fs : Fs)
    → IsLogging s
    → begin_op s.fs ≡ (true, fs)
    → IsLogging (record s { fs = fs; left = maxopblocks ∷ s.left })
unfolding begin_op
begin-IsLogging s fs v run =
    let l : Log = s.fs.log in
    let started : Fs = record s.fs { log = record l { outstanding = incr l.outstanding } } in
    elim (Bool-cases (l.committing || is_full l.n l.outstanding)) [
      | inl stop ↦ absurd (cc (rw stop at run))
      | inr go ↦
          let e : fs ≡ started = ap (λ (p : Bool × Fs). p.1) (sym (rw go at run)) in
          let room : l.n + (length s.left + 1) * maxopblocks ≤ logsize =
            ground (arith, go, v.counted) in
          subst (λ (f : Fs). IsLogging (record s { fs = f; left = maxopblocks ∷ s.left })) (sym e)
            (record {
              counted = ap incr v.counted ∙ ap pos (omega arith);
              budget = omega (arith, room, total-AreSmall s.left v.tens);
              tens = (omega arith, v.tens);
              quiet = λ c. absurd (ground (arith, go, c));
              large = v.large;
              ready = record {
                empty = v.ready.empty;
                transaction = record {
                  room = v.ready.transaction.room;
                  fits = v.ready.transaction.fits;
                  outside = v.ready.transaction.outside;
                };
                unlogged = v.ready.unlogged;
              };
              fresh = v.fresh;
              kept = v.kept;
            })
    ]

decr-suc : (m : ℕ) → decr (pos (suc m)) ≡ pos m
decr-suc m = ground arith

end_fs : (p q : Bool × Fs) → ok p ≡ ok q → q.1 ≡ p.1
end_fs p q e = ap (λ (r : Bool × Fs). r.1) (sym (ok-inj p q e))

end-IsLogging :
    (s : System) (i k : ℕ) (last : Bool) (fs : Fs)
    → IsLogging s
    → get_elem? s.left i ≡ some k
    → end_op_start s.fs ≡ ok (last, fs)
    → IsLogging (record s { fs = fs; left = remove s.left i })
unfolding end_op_start
end-IsLogging s i k last fs v at run =
    let l : Log = s.fs.log in
    let o : ℤ = decr l.outstanding in
    let fewer = length-remove s.left i k at in
    let less = total-remove s.left i k at in
    let count : o ≡ pos (length (remove s.left i)) =
      ap decr v.counted
      ∙ ap (λ m. decr (pos m)) (sym fewer)
      ∙ decr-suc (length (remove s.left i)) in
    let after : Bool → Fs =
      λ c. record s.fs { log = record l { outstanding = o; committing = c } } in
    let keep : (c : Bool)
        → (c ≡ true → length (remove s.left i) ≡ 0)
        → IsLogging (record s { fs = after c; left = remove s.left i }) =
      λ c quiet. record {
        counted = count;
        budget = omega (arith, v.budget, less);
        tens = remove-AreSmall s.left i v.tens;
        quiet = quiet;
        large = v.large;
        ready = record {
          empty = v.ready.empty;
          transaction = record {
            room = v.ready.transaction.room;
            fits = v.ready.transaction.fits;
            outside = v.ready.transaction.outside;
          };
          unlogged = v.ready.unlogged;
        };
        fresh = v.fresh;
        kept = v.kept;
      } in
    elim (Bool-cases l.committing) [
      | inl busy ↦ absurd (cc (rw busy at run))
      | inr idle ↦ elim (Bool-cases (is_zero o)) [
        | inl last_one ↦
            let e : fs ≡ after true =
              end_fs (true, after true) (last, fs) (rw (idle, last_one) at run) in
            subst (λ (f : Fs). IsLogging (record s { fs = f; left = remove s.left i })) (sym e)
              (keep true (λ _. ground (arith, last_one, count)))
        | inr more ↦
            let e : fs ≡ after false =
              end_fs (false, after false) (last, fs) (rw (idle, more) at run) in
            subst (λ (f : Fs). IsLogging (record s { fs = f; left = remove s.left i })) (sym e)
              (keep false (λ c. absurd (cc)))
      ]
    ]

-- A log_write that returns has found room.
room_left :
    (s : Fs) (b : ℕ) (bytes : Block) (s' : Fs)
    → log_write b (set_data b bytes s) ≡ ok s'
    → s.log.n + 1 < s.log.size
unfolding set_data
room_left s b bytes s' run = elim (Bool-cases (ltb (s.log.n + 1) s.log.size)) [
  | inl lt ↦ ground (arith, lt)
  | inr ge ↦ absurd (cc (run, log_write-full (set_data b bytes s) b (ground (arith, ge))))
]

write-IsLogging :
    (s : System) (i k b : ℕ) (bytes : Block) (fs : Fs)
    → IsLogging s
    → get_elem? s.left i ≡ some (suc k)
    → is_log s.fs.log.start s.fs.log.size b ≡ false
    → log_write b (set_data b bytes s.fs) ≡ ok fs
    → IsLogging (record s { fs = fs; left = set s.left i k })
write-IsLogging s i k b bytes fs v at out run =
    let less = total-set s.left i k at in
    let (o, some_ops) = total-nonempty s.left (omega (arith, less)) in
    let room : s.fs.log.n + 1 < s.fs.log.size = room_left s.fs b bytes fs run in
    let (pins, idx, n, run', e) =
      log_write-run s.fs b bytes o (omega (arith, less, v.budget)) room
        (v.counted ∙ ap pos some_ops) in
    let q : fs ≡ logged s.fs b bytes pins idx n =
      ok-inj fs (logged s.fs b bytes pins idx n) (sym run ∙ run') in
    let grown : n ≤ s.fs.log.n + 1 = ground (arith, e.grown) in
    subst (λ (f : Fs). IsLogging (record s { fs = f; left = set s.left i k })) (sym q)
      (record {
        counted = v.counted ∙ ap pos (sym (length-set s.left i k));
        budget = omega (arith, v.budget, less, grown);
        tens = set-AreSmall s.left i k at v.tens;
        quiet = λ c. length-set s.left i k ∙ v.quiet c;
        large = v.large;
        ready =
            logged-IsReady s.fs b bytes pins idx n v.ready out
              (omega (arith, v.budget, less, grown)) (omega (arith, v.budget, less, grown, room)) e;
        fresh = v.fresh;
        kept = v.kept;
      })

save-IsLogging :
    (s : System)
    → IsLogging s
    → s.fs.log.committing ≡ true
    → IsLogging
        (record s { fs = record (end_op_finish (commit s.fs)) { past = [] }; saved = s.fs.cache })
unfolding end_op_finish
save-IsLogging s v c =
    let f : Fs = commit s.fs in
    let done = commit-atomic s.fs v.ready v.fresh in
    let room : 0 < s.fs.log.size = omega (arith, v.large) in
    subst
      (λ (l : Log). IsLogging (record s {
        fs = record {
          disk = f.disk;
          cache = f.cache;
          pins = f.pins;
          past = [];
          log = record l { committing = false };
        };
        saved = s.fs.cache;
      }))
      (sym done.same_log)
      (record {
        counted = v.counted;
        budget = omega (arith, v.budget);
        tens = v.tens;
        quiet = λ e. absurd (cc);
        large = v.large;
        ready = record {
          empty = done.empty;
          transaction = record {
            room = room;
            fits = omega arith;
            outside = λ i h. absurd (omega (arith, h));
          };
          unlogged = λ b out _. let (x, y) = done.shown b out in y ∙ sym x;
        };
        fresh = refl;
        kept = λ b out. (done.shown b out).0;
      })

Step-IsLogging : {s t : System} → IsLogging s → Step s t → IsLogging t
Step-IsLogging {s} v (begin fs run) = begin-IsLogging s fs v run
Step-IsLogging {s} v (write i k b bytes fs at out run) =
    write-IsLogging s i k b bytes fs v at out run
Step-IsLogging {s} v (end i k last fs at run) = end-IsLogging s i k last fs v at run
Step-IsLogging {s} v (save c) = save-IsLogging s v c

pub Reach-IsLogging : {s t : System} → IsLogging s → Reach s t → IsLogging t
Reach-IsLogging v here = v
Reach-IsLogging v (next r st) = Step-IsLogging (Reach-IsLogging v r) st

-- The system on a disk, after initlog has returned.
abbrev pub booted : Fs → Disk → System
booted r home = record { fs = record r { past = [] }; left = []; saved = home }

booted-IsLogging :
    (start size : ℕ) (d home : Disk) (r : Fs)
    → Holds start size d home
    → initlog start size d ≡ ok r
    → IsLogging (booted r home)
booted-IsLogging start size d home r v run =
    let q : Fs = recovered start size d home v in
    let e : r ≡ q = ok-inj r q (sym run ∙ initlog-recovered start size d home v) in
    let c = recovered-Cleared start size d home v in
    let large : 0 < size = omega (arith, v.small) in
    subst (λ (f : Fs). IsLogging (booted f home)) (sym e)
      (subst
        (λ (l : Log). IsLogging (record {
          fs = record { disk = q.disk; cache = q.cache; pins = q.pins; past = []; log = l };
          left = [];
          saved = home;
        }))
        (sym c.same_log)
        (record {
          counted = refl;
          budget = omega arith;
          tens = tt;
          quiet = λ _. refl;
          large = large;
          ready = record {
            empty = c.empty;
            transaction = record {
              room = omega (arith, large);
              fits = omega arith;
              outside = λ i h. absurd (omega (arith, h));
            };
            unlogged = λ b out _. let (x, y) = c.shown b out in y ∙ sym x;
          };
          fresh = refl;
          kept = λ b out. (c.shown b out).0;
        }))

-- What the disk held is the same by the contents of the last commit.
RecoversTo-same :
    (start size : ℕ) (old saved d : Disk)
    → ((b : ℕ) → is_log start size b ≡ false → old b ≡ saved b)
    → RecoversTo start size old d
    → RecoversTo start size saved d
RecoversTo-same start size old saved d same (r, run, shown) =
    (r, run, λ b out. let (x, y) = shown b out in (x ∙ same b out, y ∙ same b out))

module _ (start size : ℕ) (d home : Disk) (r : Fs) {t : System} (v : Holds start size d home)
    (run : initlog start size d ≡ ok r) (reach : Reach (booted r home) t) where
  reached-IsLogging : IsLogging t
  reached-IsLogging = Reach-IsLogging (booted-IsLogging start size d home r v run) reach

  -- On a disk that holds contents by its log, after initlog and any steps of operations that
  -- begin, write blocks outside the log's area, end and are committed: where the log has more than
  -- 30 blocks, log_write returns and does not panic for every operation that has written fewer
  -- than ten.
  pub Reach-log_write :
      (i k b : ℕ) (bytes : Block)
      → logsize < t.fs.log.size
      → get_elem? t.left i ≡ some (suc k)
      → (fs : Fs) × (log_write b (set_data b bytes t.fs) ≡ ok fs)
  Reach-log_write i k b bytes large at =
      let w = reached-IsLogging in
      let less = total-set t.left i k at in
      let (o, some_ops) = total-nonempty t.left (omega (arith, less)) in
      let (pins, idx, n, done, _) =
        log_write-run t.fs b bytes o (omega (arith, less, w.budget))
          (omega (arith, less, w.budget, large)) (w.counted ∙ ap pos some_ops) in
      (logged t.fs b bytes pins idx n, done)

  -- On a disk that holds contents by its log, after initlog and any steps of operations that
  -- begin, write blocks outside the log's area, end and are committed: the disk recovers to the
  -- contents of the last commit, or to those at the start.
  pub Reach-disk : Recovers t.fs t.saved t.fs.disk
  Reach-disk =
      let w = reached-IsLogging in
      let l : Log = t.fs.log in
      Holds-RecoversTo l.start l.size t.fs.disk t.saved
        (Holds-empty l.start l.size t.fs.disk t.saved w.ready.empty (omega (arith, w.large)) w.kept)

  -- On a disk that holds contents by its log, after initlog and any steps of operations that
  -- begin, write blocks outside the log's area, end and are committed: a commit leads to a disk
  -- that recovers to the buffers' contents, and whenever the power fails in it the disk recovers
  -- to these or to the contents of the commit before.
  pub Reach-commit :
      Recovers t.fs t.fs.cache (commit t.fs).disk
      × All (λ d. Recovers t.fs t.saved d ⊎ Recovers t.fs t.fs.cache d) (commit t.fs).past
  Reach-commit =
      let w = reached-IsLogging in
      let first : ℕ = t.fs.log.start in
      let blocks : ℕ = t.fs.log.size in
      let (now, before) = commit-crash t.fs w.ready w.fresh in
      (
        now,
        All-mono (λ d. RecoversTo first blocks t.fs.disk d ⊎ RecoversTo first blocks t.fs.cache d)
            (λ d. RecoversTo first blocks t.saved d ⊎ RecoversTo first blocks t.fs.cache d)
            (commit t.fs).past
            (λ d e. elim e [
              | inl h ↦ inl (RecoversTo-same first blocks t.fs.disk t.saved d w.kept h)
              | inr h ↦ inr h
            ])
            before,
      )
