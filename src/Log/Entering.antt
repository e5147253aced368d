-- ===== src/Log/Entering.antt =====
-- log_write of kernel/log.c: the block is in the log behind it, once.
use zerocopy_ringbuf.Common.{
  ℕ, zero, suc, ◌+◌, ◌≤◌, ◌<◌, ◌≡◌, ◌≢◌, ◌⊎◌, refl, sym, ap, ◌∙◌, true, false, ◌||◌, ltb, leb, ◌==◌,
  pos, ok, panic, ◌%◌, ◌^◌, arith, Bool-cases, inl, inr,
}
use zerocopy_ringbuf.Log.{Block, Log, Fs, logsize, put, set_data}
use zerocopy_ringbuf.Log.Pending.{is_log}
use zerocopy_ringbuf.Log.Install.{put-at, put-off}
use zerocopy_ringbuf.Log.Commit.{IsReady}
use zerocopy_ringbuf.Log.Ops.{find_from, enter_block, log_write, is_outside}

find_from-lem :
    (n i b : ℕ) (block : ℕ → ℕ)
    → (i ≤ find_from n i b block)
      × (find_from n i b block ≤ i + n)
      × (find_from n i b block < i + n → block (find_from n i b block) ≡ b)
unfolding find_from
find_from-lem zero i b block = (omega arith, omega arith, λ h. absurd (omega (arith, h)))
find_from-lem (suc n) i b block = elim (Bool-cases (block i == b)) [
  | inl at ↦ rw (at, find_from) (omega arith, omega arith, λ h. ground (arith, at))
  | inr off ↦
      let (x, y, z) = find_from-lem n (i + 1) b block in
      rw (off, find_from) (omega (arith, x), omega (arith, y), λ h. z (omega (arith, h)))
]

-- The list of the log with a block entered, and its length then.
pub record IsEntered (l : Log) (b idx n : ℕ) : Type 0 where
  pub within : idx < n
  pub at_most : idx ≤ l.n
  pub found : idx < l.n → l.block idx ≡ b
  pub grown : ((idx ≡ l.n) × (n ≡ l.n + 1)) ⊎ ((idx < l.n) × (n ≡ l.n))

abbrev pub logged : Fs → ℕ → Block → (ℕ → ℕ) → ℕ → ℕ → Fs
logged s b bytes pins idx n = record {
  disk = s.disk;
  cache = put s.cache b bytes;
  pins = pins;
  past = s.past;
  log = record s.log { block = put s.log.block idx b; n = n };
}

-- A change of a block that is entered into the log.
pub logged-IsReady :
    (s : Fs) (b : ℕ) (bytes : Block) (pins : ℕ → ℕ) (idx n : ℕ)
    → IsReady s
    → is_log s.log.start s.log.size b ≡ false
    → n ≤ logsize
    → n < s.log.size
    → IsEntered s.log b idx n
    → IsReady (logged s b bytes pins idx n)
logged-IsReady s b bytes pins idx n v out fits room e =
    let at_idx : put s.log.block idx b idx ≡ b = put-at s.log.block idx idx b refl in
    record {
      empty = v.empty;
      transaction = record {
        room = room;
        fits = fits;
        outside = λ i h. elim (Bool-cases (i == idx)) [
          | inl at ↦ rw (put-at s.log.block idx i b (ground (arith, at))) out
          | inr off ↦
              rw (put-off s.log.block idx i b (λ q. ground (arith, off, q)))
                (v.transaction.outside i (ground (arith, off, h, e.grown)))
        ];
      };
      unlogged = λ j home miss.
          let ne : j ≢ b = λ q. miss idx e.within (at_idx ∙ sym q) in
          put-off s.cache b j bytes ne
          ∙ v.unlogged j home (λ i h q. elim (Bool-cases (i == idx)) [
            | inl at ↦
                let same : i ≡ idx = ground (arith, at) in
                ne (sym q ∙ ap s.log.block same ∙ e.found (ground (arith, h, same)))
            | inr off ↦
                miss i (ground (arith, h, e.grown))
                  (put-off s.log.block idx i b (λ k. ground (arith, off, k)) ∙ q)
          ]);
    }

-- log_write of a changed block, where there is room for it.
pub log_write-run :
    (s : Fs) (b : ℕ) (bytes : Block) (o : ℕ)
    → s.log.n < logsize
    → s.log.n + 1 < s.log.size
    → s.log.outstanding ≡ pos (suc o)
    → (pins : ℕ → ℕ) × (idx : ℕ) × (n : ℕ) × (log_write b (set_data b bytes s)
        ≡ ok (logged s b bytes pins idx n))
      × IsEntered s.log b idx n
unfolding log_write set_data enter_block
log_write-run s b bytes o few large busy =
    let idx : ℕ = find_from s.log.n 0 b s.log.block in
    let (_, le, found) = find_from-lem s.log.n 0 b s.log.block in
    let test1 : leb logsize s.log.n ≡ false = ground (arith, few) in
    let test2 : leb s.log.size (s.log.n + 1) ≡ false = ground (arith, large) in
    let low : ltb (suc o) 1 ≡ false = ground arith in
    let inside : is_outside s.log.outstanding ≡ false = ap is_outside busy ∙ low in
    elim (Bool-cases (idx == s.log.n)) [
      | inl at ↦
          let e : idx ≡ s.log.n = ground (arith, at) in
          (
            put s.pins b ((s.pins b + 1) % 2 ^ 32),
            idx,
            s.log.n + 1,
            rw (test1, test2, inside, at) refl,
            record {
              within = omega (arith, e);
              at_most = omega (arith, le);
              found = λ h. found (omega (arith, h));
              grown = inl (e, refl);
            },
          )
      | inr off ↦
          let lt : idx < s.log.n = ground (arith, off, le) in
          (
            s.pins,
            idx,
            s.log.n,
            rw (test1, test2, inside, off) refl,
            record {
              within = lt;
              at_most = omega (arith, le);
              found = λ h. found (omega (arith, h));
              grown = inr (lt, refl);
            },
          )
    ]

-- Without room in the log's blocks log_write panics.
pub log_write-full : (s : Fs) (b : ℕ) → s.log.size ≤ s.log.n + 1 → log_write b s ≡ panic
unfolding log_write
log_write-full s b h =
    let full : (leb logsize s.log.n || leb s.log.size (s.log.n + 1)) ≡ true = ground (arith, h) in
    rw full refl
