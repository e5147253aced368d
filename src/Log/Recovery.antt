-- ===== src/Log/Recovery.antt =====
-- recover_from_log of kernel/log.c, after a power failure at any time.
use zerocopy_ringbuf.Common.{
  ◌^◌, ℕ, ◌+◌, ◌<◌, ◌≡◌, ◌⊎◌, refl, sym, ap, ◌∙◌, true, false, [], ◌∷◌, ltb, pos, ok, arith, inl,
  inr,
}
use zerocopy_ringbuf.Log.{
  Disk, Log, Fs, logsize, set_n, read_blocks, read_head, install_trans, write_head,
  recover_from_log, initlog, commit,
}
use zerocopy_ringbuf.Log.Pending.{is_log, Holds, read_blocks-listed}
use zerocopy_ringbuf.Log.Install.{All, All-mono, Installing, install_from-Installing}
use zerocopy_ringbuf.Log.Crash.{Cleared, clear-Cleared}
use zerocopy_ringbuf.Log.Commit.{IsReady, Either, commit-atomic}

-- The machine's start on a disk succeeds, and then the disk's blocks are those of `home`.
abbrev pub RecoversTo : ℕ → ℕ → Disk → Disk → Type 0
RecoversTo start size home d =
    (r : Fs) × (initlog start size d ≡ ok r)
    × ((b : ℕ) → is_log start size b ≡ false → (r.disk b ≡ home b) × (r.cache b ≡ home b))

-- The same by the place of the log that the file system knows.
abbrev pub Recovers : Fs → Disk → Disk → Type 0
Recovers s home d = RecoversTo s.log.start s.log.size home d

read_head-fits :
    (s : Fs)
    → ltb logsize (s.cache s.log.start 0) ≡ false
    → read_head s
      ≡ ok (record s {
        log = record s.log {
          n = s.cache s.log.start 0;
          block = read_blocks (s.cache s.log.start 0) 0 (s.cache s.log.start) s.log.block;
        };
      })
unfolding read_head
read_head-fits s e =
    let small : ltb (s.cache s.log.start 0) (2 ^ 31) ≡ true = ground (arith, e) in
    rw (small, e) refl

-- The memory before the header is read.
abbrev at_boot : ℕ → ℕ → Disk → Fs
at_boot start size d = record {
  disk = d;
  cache = d;
  pins = λ _. 0;
  past = [];
  log = record {
    start = start;
    size = size;
    outstanding = pos 0;
    committing = false;
    n = 0;
    block = λ _. 0;
  };
}

recover_from_log-ok :
    (s s' : Fs)
    → read_head s ≡ ok s'
    → recover_from_log s ≡ ok (write_head (set_n 0 (install_trans true s')))
unfolding recover_from_log
recover_from_log-ok s s' e = rw (e, recover_from_log) refl

module _ (start size : ℕ) (d home : Disk) (v : Holds start size d home) where
  abbrev pub booted : Log
  booted = record {
    start = start;
    size = size;
    outstanding = pos 0;
    committing = false;
    n = d start 0;
    block = read_blocks (d start 0) 0 (d start) (λ _. 0);
  }

  abbrev head_read : Fs
  head_read = record { disk = d; cache = d; pins = λ _. 0; past = []; log = booted }

  abbrev pub InPast : Disk → Type 0
  InPast x = Holds start size x home

  head_read-Installing : Installing InPast booted home 0 d d []
  head_read-Installing =
      let listed : (i : ℕ) → i < d start 0 → booted.block i ≡ d start (i + 1) =
        λ i h. read_blocks-listed (d start 0) (d start) (λ _. 0) i h in
      record {
        now = v;
        before = tt;
        count = refl;
        listed = λ i h. sym (listed i h);
        source = λ i h. refl;
        done = λ b out miss.
            let same = v.rest b out (λ i h e. miss i (omega arith) h (listed i h ∙ e)) in
            (same, same);
      }

  abbrev pub recovered : Fs
  recovered = write_head (set_n 0 (install_trans true head_read))

  pub recovered-Cleared : Cleared InPast booted home recovered
  unfolding install_trans
  recovered-Cleared =
      let s' : Fs = install_trans true head_read in
      let (i, e) =
        install_from-Installing InPast true (d start 0) 0 head_read home (λ x h. h)
          head_read-Installing (omega arith) in
      clear-Cleared InPast booted home s' (λ x h. h) i e

  pub initlog-recovered : initlog start size d ≡ ok recovered
  unfolding initlog
  initlog-recovered =
      recover_from_log-ok (at_boot start size d) head_read
        (read_head-fits (at_boot start size d) (ground (arith, v.fits)))

  pub Holds-RecoversTo : RecoversTo start size home d
  Holds-RecoversTo = (recovered, initlog-recovered, recovered-Cleared.shown)

-- On a disk that holds contents by its log, initlog returns with an empty log, and the disk and
-- the buffers show these contents outside the log's area; and whenever the power fails in it, the
-- disk recovers to the same contents.
pub initlog-crash :
    (start size : ℕ) (d home : Disk)
    → Holds start size d home
    → (r : Fs) × (initlog start size d ≡ ok r)
      × (r.log.n ≡ 0)
      × ((b : ℕ) → is_log start size b ≡ false → (r.disk b ≡ home b) × (r.cache b ≡ home b))
      × All (RecoversTo start size home) (r.disk ∷ r.past)
initlog-crash start size d home v =
    let c = recovered-Cleared start size d home v in
    let again : (x : Disk) → Holds start size x home → RecoversTo start size home x =
      λ x h. Holds-RecoversTo start size x home h in
    (
      recovered start size d home v,
      initlog-recovered start size d home v,
      ap (λ (l : Log). l.n) c.same_log,
      c.shown,
      (
        again (recovered start size d home v).disk c.now,
        All-mono (λ x. Holds start size x home) (RecoversTo start size home)
            (recovered start size d home v).past again c.before,
      ),
    )

-- A power failure at any write of a commit, followed by recovery.
pub commit-crash :
    (s : Fs)
    → IsReady s
    → s.past ≡ []
    → Recovers s s.cache (commit s).disk
      × All (λ d. Recovers s s.disk d ⊎ Recovers s s.cache d) (commit s).past
commit-crash s v fresh =
    let start : ℕ = s.log.start in
    let size : ℕ = s.log.size in
    let c = commit-atomic s v fresh in
    (
      Holds-RecoversTo start size (commit s).disk s.cache c.now,
      All-mono (Either s.log s.disk s.cache)
          (λ d. RecoversTo start size s.disk d ⊎ RecoversTo start size s.cache d) (commit s).past
          (λ d e. elim e [
            | inl h ↦ inl (Holds-RecoversTo start size d s.disk h)
            | inr h ↦ inr (Holds-RecoversTo start size d s.cache h)
          ])
          c.before,
    )
