-- ===== src/Log/Pending.antt =====
-- What a disk holds by the log of kernel/log.c: its blocks, with the writes that a committed header
-- still lists done.
use zerocopy_ringbuf.Common.{
  ℕ, zero, suc, ◌+◌, ◌≤◌, ◌<◌, ◌≡◌, ◌≢◌, refl, sym, ap, ◌∙◌, Bool, true, false, ◌&&◌, ltb, leb,
  ◌==◌, if◌then◌else◌, arith, Bool-cases, ◌⊎◌, inl, inr,
}
use zerocopy_ringbuf.Log.{Block, Disk, Log, logsize, put, write_blocks, read_blocks}

module _ (start size : ℕ) where
  -- The blocks that belong to the log.
  abbrev pub is_log : ℕ → Bool
  is_log b = leb start b && ltb b (start + size)

  -- The disk's header lists blocks whose contents stand in the log; `home` is what is seen when they
  -- are installed.
  pub record Holds (d home : Disk) : Type 0 where
    pub small : d start 0 < size
    pub fits : d start 0 ≤ logsize
    pub outside : (i : ℕ) → i < d start 0 → is_log (d start (i + 1)) ≡ false
    pub logged : (i : ℕ) → i < d start 0 → d (start + i + 1) ≡ home (d start (i + 1))
    pub rest :
        (b : ℕ) → is_log b ≡ false → ((i : ℕ) → i < d start 0 → d start (i + 1) ≢ b) → d b ≡ home b

  -- With an empty header the disk is what it holds.
  pub Holds-empty :
      (d home : Disk)
      → d start 0 ≡ 0
      → 0 < size
      → ((b : ℕ) → is_log b ≡ false → d b ≡ home b)
      → Holds d home
  Holds-empty d home e lt same = record {
    small = omega (arith, e, lt);
    fits = omega (arith, e);
    outside = λ i h. absurd (omega (arith, e, h));
    logged = λ i h. absurd (omega (arith, e, h));
    rest = λ b h _. same b h;
  }

  pub Holds-same :
      (d home : Disk) → Holds d home → d start 0 ≡ 0 → (b : ℕ) → is_log b ≡ false → d b ≡ home b
  Holds-same d home v e b h = v.rest b h (λ i lt. absurd (omega (arith, e, lt)))

  -- A disk with the same log, on which each block is as before or is what it should be.
  pub Holds-agree :
      (d d' home : Disk)
      → Holds d home
      → ((j : ℕ) → is_log j ≡ true → d' j ≡ d j)
      → ((b : ℕ) → is_log b ≡ false → (d' b ≡ d b) ⊎ (d' b ≡ home b))
      → Holds d' home
  Holds-agree d d' home v same either =
      let head : d' start ≡ d start = same start (ground (arith, v.small)) in
      let count : d' start 0 ≡ d start 0 = ap (λ (w : Block). w 0) head in
      let listed : (i : ℕ) → d' start (i + 1) ≡ d start (i + 1) =
        λ i. ap (λ (w : Block). w (i + 1)) head in
      record {
        small = omega (arith, v.small, count);
        fits = omega (arith, v.fits, count);
        outside = λ i lt. rw (listed i) (v.outside i (omega (arith, lt, count)));
        logged = λ i lt.
            same (start + i + 1) (ground (arith, v.small, lt, count))
            ∙ v.logged i (omega (arith, lt, count))
            ∙ ap home (sym (listed i));
        rest = λ b h miss. elim (either b h) [
          | inl kept ↦
              kept ∙ v.rest b h (λ i lt e. miss i (omega (arith, lt, count)) (listed i ∙ e))
          | inr done ↦ done
        ];
      }

  -- A block is written to its place, as it should be.
  pub Holds-put_home :
      (d home : Disk) (b : ℕ) (bytes : Block)
      → Holds d home
      → is_log b ≡ false
      → bytes ≡ home b
      → Holds (put d b bytes) home
  Holds-put_home d home b bytes v out e =
      Holds-agree d (put d b bytes) home v
        (λ j l. let off : (j == b) ≡ false = ground (arith, l, out) in rw off refl)
        (λ j _. elim (Bool-cases (j == b)) [
          | inl at ↦ let q : j ≡ b = ground arith in inr (rw at (e ∙ ap home (sym q)))
          | inr off ↦ inl (rw off refl)
        ])

  -- A block of the log is written while the header is empty.
  pub Holds-put_log :
      (d home : Disk) (b : ℕ) (bytes : Block)
      → Holds d home
      → d start 0 ≡ 0
      → is_log b ≡ true
      → put d b bytes start 0 ≡ 0
      → Holds (put d b bytes) home
  Holds-put_log d home b bytes v e l e' =
      Holds-empty (put d b bytes) home e' (omega (arith, v.small)) (λ j out.
        let off : (j == b) ≡ false = ground (arith, l, out) in rw off (Holds-same d home v e j out))

  -- The write of a header: what the log lists is done from then on.
  pub Holds-put_head :
      (d old home : Disk) (hb : Block)
      → Holds d old
      → d start 0 ≡ 0
      → hb 0 < size
      → hb 0 ≤ logsize
      → ((i : ℕ) → i < hb 0 → is_log (hb (i + 1)) ≡ false)
      → ((i : ℕ) → i < hb 0 → d (start + i + 1) ≡ home (hb (i + 1)))
      → ((b : ℕ) → is_log b ≡ false → ((i : ℕ) → i < hb 0 → hb (i + 1) ≢ b) → old b ≡ home b)
      → Holds (put d start hb) home
  Holds-put_head d old home hb v e small fits outside logged rest =
      let head : put d start hb start ≡ hb =
        let at : (start == start) ≡ true = ground arith in rw at refl in
      let count : put d start hb start 0 ≡ hb 0 = ap (λ (w : Block). w 0) head in
      let listed : (i : ℕ) → put d start hb start (i + 1) ≡ hb (i + 1) =
        λ i. ap (λ (w : Block). w (i + 1)) head in
      record {
        small = omega (arith, small, count);
        fits = omega (arith, fits, count);
        outside = λ i lt. rw (listed i) (outside i (omega (arith, lt, count)));
        logged = λ i lt.
            let off : (start + i + 1 == start) ≡ false = ground arith in
            rw (listed i) (rw off (logged i (omega (arith, lt, count))));
        rest = λ b h miss.
            let off : (b == start) ≡ false = ground (arith, h, small) in
            rw off (
              Holds-same d old v e b h
              ∙ rest b h (λ i lt q. miss i (omega (arith, lt, count)) (listed i ∙ q)));
      }

write_blocks-at :
    (n i : ℕ) (block : ℕ → ℕ) (hb : Block) (j : ℕ)
    → write_blocks n i block hb (j + 1) ≡ (if leb i j && ltb j (i + n) then block j else hb (j + 1))
unfolding write_blocks
write_blocks-at zero i block hb j = ground arith
write_blocks-at (suc n) i block hb j =
    ground (arith, write_blocks-at n (i + 1) block (put hb (i + 1) (block i)) j)

write_blocks-count : (n i : ℕ) (block : ℕ → ℕ) (hb : Block) → write_blocks n i block hb 0 ≡ hb 0
unfolding write_blocks
write_blocks-count zero i block hb = refl
write_blocks-count (suc n) i block hb =
    write_blocks-count n (i + 1) block (put hb (i + 1) (block i)) ∙ ground arith

-- The header that write_head makes.
abbrev pub head_of : Log → Block → Block
head_of l hb = write_blocks l.n 0 l.block (put hb 0 l.n)

pub head_of-count : (l : Log) (hb : Block) → head_of l hb 0 ≡ l.n
head_of-count l hb = write_blocks-count l.n 0 l.block (put hb 0 l.n)

pub head_of-listed : (l : Log) (hb : Block) (i : ℕ) → i < l.n → head_of l hb (i + 1) ≡ l.block i
head_of-listed l hb i lt =
    let within : (leb 0 i && ltb i (0 + l.n)) ≡ true = ground (arith, lt) in
    write_blocks-at l.n 0 l.block (put hb 0 l.n) i ∙ rw within refl

read_blocks-at :
    (n i : ℕ) (lh : Block) (block : ℕ → ℕ) (j : ℕ)
    → read_blocks n i lh block j ≡ (if leb i j && ltb j (i + n) then lh (j + 1) else block j)
unfolding read_blocks
read_blocks-at zero i lh block j = ground arith
read_blocks-at (suc n) i lh block j =
    ground (arith, read_blocks-at n (i + 1) lh (put block i (lh (i + 1))) j)

pub read_blocks-listed :
    (n : ℕ) (lh : Block) (block : ℕ → ℕ) (i : ℕ) → i < n → read_blocks n 0 lh block i ≡ lh (i + 1)
read_blocks-listed n lh block i lt =
    let within : (leb 0 i && ltb i (0 + n)) ≡ true = ground (arith, lt) in
    read_blocks-at n 0 lh block i ∙ rw within refl
