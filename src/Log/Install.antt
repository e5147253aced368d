-- ===== src/Log/Install.antt =====
-- install_trans of kernel/log.c: whenever the power fails in it, the disk holds the same.
use zerocopy_ringbuf.Common.{
  ℕ, zero, suc, ◌+◌, ◌≤◌, ◌<◌, ◌≡◌, ◌≢◌, refl, sym, ap, ◌∙◌, Bool, true, false, List, [], ◌∷◌, ◌==◌,
  arith, Bool-cases, inl, inr,
}
use zerocopy_ringbuf.Log.{Block, Disk, Log, Fs, put, set_data, bwrite, bunpin, install_from}
use zerocopy_ringbuf.Log.Pending.{is_log, Holds, Holds-put_home}

abbrev pub All : (Disk → Type 0) → List Disk → Type 0
All P [] = Unit
All P (d ∷ ds) = P d × All P ds

pub All-mono :
    (P Q : Disk → Type 0) (ds : List Disk) → ((d : Disk) → P d → Q d) → All P ds → All Q ds
All-mono P Q [] f a = tt
All-mono P Q (d ∷ ds) f a = (f d a.0, All-mono P Q ds f a.1)

-- Before round `t`: what the blocks that are still to come do not touch is in place, on the disk and
-- in the cache.
pub record Installing (P : Disk → Type 0) (l : Log) (home : Disk) (t : ℕ) (disk cache : Disk)
    (past : List Disk) : Type 0 where
  pub now : Holds l.start l.size disk home
  pub before : All P past
  pub count : disk l.start 0 ≡ l.n
  pub listed : (i : ℕ) → i < l.n → disk l.start (i + 1) ≡ l.block i
  pub source : (i : ℕ) → i < l.n → cache (l.start + i + 1) ≡ disk (l.start + i + 1)
  pub done :
      (b : ℕ)
      → is_log l.start l.size b ≡ false
      → ((i : ℕ) → t ≤ i → i < l.n → l.block i ≢ b)
      → (disk b ≡ home b) × (cache b ≡ home b)

pub put-at {ℓ} : {A : Type ℓ} (f : ℕ → A) (i j : ℕ) (v : A) → j ≡ i → put f i v j ≡ v
put-at f i j v e = let at : (j == i) ≡ true = ground (arith, e) in rw at refl

pub put-off {ℓ} : {A : Type ℓ} (f : ℕ → A) (i j : ℕ) (v : A) → j ≢ i → put f i v j ≡ f j
put-off f i j v ne = let off : (j == i) ≡ false = ground (arith, ne) in rw off refl

module _ (P : Disk → Type 0) (l : Log) (home : Disk)
    (implied : (d : Disk) → Holds l.start l.size d home → P d) (t : ℕ) (disk cache : Disk)
    (past : List Disk) (v : Installing P l home t disk cache past) (lt : t < l.n) where
  bytes : Block
  bytes = cache (l.start + t + 1)

  home_bytes : bytes ≡ home (l.block t)
  unfolding bytes
  home_bytes = v.source t lt ∙ v.now.logged t (omega (arith, lt, v.count)) ∙ ap home (v.listed t lt)

  place : is_log l.start l.size (l.block t) ≡ false
  place = rw⁻¹ (v.listed t lt) (v.now.outside t (omega (arith, lt, v.count)))

  -- A block of the log is not where the round writes.
  apart : (j : ℕ) → is_log l.start l.size j ≡ true → j ≢ l.block t
  apart j h e = ground (arith, h, place, e)

  in_log : (i : ℕ) → i < l.n → is_log l.start l.size (l.start + i + 1) ≡ true
  in_log i h = ground (arith, h, v.now.small, v.count)

  start_log : is_log l.start l.size l.start ≡ true
  start_log = ground (arith, v.now.small)

  install-round :
      Installing P l home
        (t + 1)
        (put disk (l.block t) (put cache (l.block t) (cache (l.start + t + 1)) (l.block t)))
        (put cache (l.block t) (cache (l.start + t + 1)))
        (disk ∷ past)
  unfolding bytes
  install-round =
      let b : ℕ = l.block t in
      let written : put cache b (cache (l.start + t + 1)) b ≡ home b =
        put-at cache b b (cache (l.start + t + 1)) refl ∙ home_bytes in
      let bs : Block = put cache b (cache (l.start + t + 1)) b in
      let head : put disk b bs l.start ≡ disk l.start =
        put-off disk b l.start bs (apart l.start start_log) in
      record {
        now = Holds-put_home l.start l.size disk home b bs v.now place written;
        before = (implied disk v.now, v.before);
        count = ap (λ (w : Block). w 0) head ∙ v.count;
        listed = λ i h. ap (λ (w : Block). w (i + 1)) head ∙ v.listed i h;
        source = λ i h.
            put-off cache b (l.start + i + 1) (cache (l.start + t + 1))
              (apart (l.start + i + 1) (in_log i h))
            ∙ v.source i h
            ∙ sym (put-off disk b (l.start + i + 1) bs (apart (l.start + i + 1) (in_log i h)));
        done = λ j out miss. elim (Bool-cases (j == b)) [
          | inl at ↦
              let e : j ≡ b = ground arith in
              (
                put-at disk b j bs e ∙ written ∙ ap home (sym e),
                put-at cache b j (cache (l.start + t + 1)) e ∙ home_bytes ∙ ap home (sym e),
              )
          | inr off ↦
              let ne : j ≢ b = λ e. ground (arith, off, e) in
              let (x, y) = v.done j out (λ i le h. elim (Bool-cases (i == t)) [
                | inl q ↦ λ e. ne (let it : i ≡ t = ground arith in sym e ∙ ap l.block it)
                | inr q ↦ miss i (ground (arith, le, q)) h
              ]) in
              (put-off disk b j bs ne ∙ x, put-off cache b j (cache (l.start + t + 1)) ne ∙ y)
        ];
      }

pub install_from-Installing :
    (P : Disk → Type 0) (recovering : Bool) (n t : ℕ) (s : Fs) (home : Disk)
    → ((d : Disk) → Holds s.log.start s.log.size d home → P d)
    → Installing P s.log home t s.disk s.cache s.past
    → t + n ≡ s.log.n
    → let s' : Fs = install_from recovering n t s in
      Installing P s.log home s.log.n s'.disk s'.cache s'.past × (s'.log ≡ s.log)
unfolding install_from
install_from-Installing P recovering zero t s home implied v e =
    let end : t ≡ s.log.n = omega (arith, e) in (rw end at v, refl)
install_from-Installing P true (suc n) t s home implied v e =
    install_from-Installing P true n (t + 1)
      (bwrite (s.log.block t) (set_data (s.log.block t) (s.cache (s.log.start + t + 1)) s)) home
      implied (install-round P s.log home implied t s.disk s.cache s.past v (omega (arith, e)))
      (omega (arith, e))
install_from-Installing P false (suc n) t s home implied v e =
    install_from-Installing P false n (t + 1)
      (bunpin (s.log.block t)
        (bwrite (s.log.block t) (set_data (s.log.block t) (s.cache (s.log.start + t + 1)) s)))
      home implied (install-round P s.log home implied t s.disk s.cache s.past v (omega (arith, e)))
      (omega (arith, e))
