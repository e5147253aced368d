-- ===== src/Bio/Cached.antt =====
-- Any sequence of the steps of kernel/bio.c: the list stays one of all buffers, and no block is in two
-- of them.
use zerocopy_ringbuf.Common.{
  ℕ, zero, suc, ◌+◌, ◌-◌, ◌%◌, ◌^◌, ◌<◌, ◌≡◌, ◌≢◌, refl, sym, ap, ◌∙◌, true, ◌&&◌, none, List, [],
  ◌∷◌, ◌++◌, ◌==◌, if◌then◌else◌, Outcome, ok, panic, exit, fault, arith, Bool-cases, Option-cases,
  inl, inr,
}
use mathlib.Core.Path.{subst}
use zerocopy_ringbuf.Kalloc.FreeList.{has}
use zerocopy_ringbuf.Sleeplock.{initsleeplock}
use zerocopy_ringbuf.Bio.{
  Buf, Bcache, nbuf, head, put, set_buf, bget, incr_refcnt, recycle, put_back, fill_buf, bpin,
  bunpin, binit, decr_refcnt, add_buf, add_bufs, set_next, set_prev,
}
use zerocopy_ringbuf.Bio.Order.{IsBcache, same_links, put_back-IsBcache, binit-IsBcache, ups}
use zerocopy_ringbuf.Bio.Get.{cached, unused, bget_lists}

-- The steps that hold bcache.lock, or the buffer's lock. The disk's devices have numbers above 0.
pub data Step (c : Bcache) : Bcache → Type 0 where
  get : (dev blockno i : ℕ) (c' : Bcache) → 0 < dev → bget dev blockno c ≡ ok (i, c') → Step c c'
  give : (i : ℕ) → i < nbuf → (c.buf i).refcnt < 2 ^ 32 → Step c (put_back i c)
  fill : (i : ℕ) (block : ℕ → ℕ) → Step c (fill_buf i block c)
  change : (i : ℕ) (bytes : ℕ → ℕ) → Step c (set_buf i (record (c.buf i) { bytes = bytes }) c)
  pin : (i : ℕ) → Step c (bpin i c)
  unpin : (i : ℕ) → Step c (bunpin i c)

pub data Reach (c : Bcache) : Bcache → Type 0 where
  here : Reach c c
  next : {d e : Bcache} → Reach c d → Step d e → Reach c e

-- No two buffers are for the same block of a device.
abbrev pub IsUnique : Bcache → Type 0
IsUnique c =
    (i j : ℕ)
    → i < nbuf
    → j < nbuf
    → 0 < (c.buf i).dev
    → (c.buf i).dev ≡ (c.buf j).dev
    → (c.buf i).blockno ≡ (c.buf j).blockno
    → i ≡ j

pub record IsCache (c : Bcache) : Type 0 where
  pub order : List ℕ
  pub all : IsBcache c order
  pub unique : IsUnique c

cached-none :
    (dev blockno : ℕ) (c : Bcache) (xs : List ℕ)
    → cached dev blockno c xs ≡ none
    → (i : ℕ) → has i xs ≡ true
    → (c.buf i).dev ≡ dev
    → (c.buf i).blockno ≢ blockno
unfolding cached
cached-none dev blockno c [] e i h = absurd (cc)
cached-none dev blockno c (x ∷ xs) e i h =
    elim (Bool-cases (((c.buf x).dev == dev) && ((c.buf x).blockno == blockno))) [
      | inl hit ↦ absurd (cc (rw hit at e))
      | inr miss ↦ elim (Bool-cases (i == x)) [
        | inl at ↦ λ d b.
            let q : i ≡ x = ground (arith, at) in
            ground (
              arith,
              miss,
              ap (λ k. (c.buf k).dev) (sym q) ∙ d,
              ap (λ k. (c.buf k).blockno) (sym q) ∙ b,
            )
        | inr off ↦ cached-none dev blockno c xs (rw miss at e) i (ground (arith, off, h))
      ]
    ]

-- Changes that leave every buffer for its block.
IsUnique-same :
    (c c' : Bcache)
    → ((i : ℕ) → (c'.buf i).dev ≡ (c.buf i).dev)
    → ((i : ℕ) → (c'.buf i).blockno ≡ (c.buf i).blockno)
    → IsUnique c
    → IsUnique c'
IsUnique-same c c' d b u i j li lj pos_dev e f =
    u i j li lj (omega (arith, d i, pos_dev)) (sym (d i) ∙ e ∙ d j) (sym (b i) ∙ f ∙ b j)

put-key :
    (key : Buf → ℕ) (f : ℕ → Buf) (i : ℕ) (v : Buf)
    → key v ≡ key (f i)
    → (j : ℕ) → key (put f i v j) ≡ key (f j)
put-key key f i v e j = elim (Bool-cases (j == i)) [
  | inl at ↦ let q : j ≡ i = ground (arith, at) in rw at (e ∙ ap (λ k. key (f k)) (sym q))
  | inr off ↦ rw off refl
]

-- A change of one buffer that stays for its block.
set_buf-IsCache :
    (c : Bcache) (i : ℕ) (v : Buf)
    → v.dev ≡ (c.buf i).dev
    → v.blockno ≡ (c.buf i).blockno
    → IsCache c
    → IsCache (set_buf i v c)
set_buf-IsCache c i v d b h = record {
  order = h.order;
  all = same_links c (set_buf i v c) h.order h.all refl refl;
  unique =
      IsUnique-same c (set_buf i v c) (put-key (λ x. x.dev) c.buf i v d)
        (put-key (λ x. x.blockno) c.buf i v b) h.unique;
}

recycle-IsUnique :
    (dev blockno i : ℕ) (c : Bcache) (xs : List ℕ)
    → IsBcache c xs
    → IsUnique c
    → cached dev blockno c xs ≡ none
    → IsUnique (recycle i dev blockno c)
unfolding recycle
recycle-IsUnique dev blockno i c xs v u miss j k lj lk pos_dev e f =
    let absent : (m : ℕ) → m < nbuf → (c.buf m).dev ≡ dev → (c.buf m).blockno ≢ blockno =
      λ m lm. cached-none dev blockno c xs miss m ((v.members m).1 lm) in
    elim (Bool-cases (j == i)) [
      | inl aj ↦ elim (Bool-cases (k == i)) [
        | inl ak ↦ ground (arith, aj, ak)
        | inr ok_ ↦ absurd (absent k lk (sym (rw (aj, ok_) at e)) (sym (rw (aj, ok_) at f)))
      ]
      | inr oj ↦ elim (Bool-cases (k == i)) [
        | inl ak ↦ absurd (absent j lj (rw (oj, ak) at e) (rw (oj, ak) at f))
        | inr ok_ ↦ u j k lj lk (rw oj at pos_dev) (rw (oj, ok_) at e) (rw (oj, ok_) at f)
      ]
    ]

split_at :
    (i : ℕ) (xs : List ℕ) → has i xs ≡ true → (ys : List ℕ) × (zs : List ℕ) × (xs ≡ ys ++ i ∷ zs)
split_at i [] h = absurd (cc)
split_at i (x ∷ xs) h = elim (Bool-cases (i == x)) [
  | inl at ↦ let q : i ≡ x = ground (arith, at) in ([], xs, ap (λ k. k ∷ xs) (sym q))
  | inr off ↦ let (ys, zs, e) = split_at i xs (ground (arith, off, h)) in (x ∷ ys, zs, ap (◌∷◌ x) e)
]

put_back-buf : (i : ℕ) (c : Bcache) → (put_back i c).buf ≡ (decr_refcnt i c).buf
unfolding put_back
put_back-buf i c = elim (Bool-cases (((decr_refcnt i c).buf i).refcnt == 0)) [
  | inl last ↦ rw last refl
  | inr others ↦ rw others refl
]

put_back-IsCache :
    (c : Bcache) (i : ℕ) → i < nbuf → (c.buf i).refcnt < 2 ^ 32 → IsCache c → IsCache (put_back i c)
put_back-IsCache c i lt small h =
    let (ys, zs, e) = split_at i h.order ((h.all.members i).1 lt) in
    let decr_buf : Buf = record (c.buf i) { refcnt = ((c.buf i).refcnt + (2 ^ 32 - 1)) % 2 ^ 32 } in
    let q = put_back-buf i c in
    record {
      order = if (c.buf i).refcnt == 1 then i ∷ ys ++ zs else ys ++ i ∷ zs;
      all = put_back-IsBcache c ys i zs (subst (λ xs. IsBcache c xs) e h.all) small;
      unique =
          IsUnique-same c (put_back i c)
            (λ j. ap (λ (b : ℕ → Buf). (b j).dev) q ∙ put-key (λ x. x.dev) c.buf i decr_buf refl j)
            (λ j.
              ap (λ (b : ℕ → Buf). (b j).blockno) q
              ∙ put-key (λ x. x.blockno) c.buf i decr_buf refl j)
            h.unique;
    }

second : (p q : ℕ × Bcache) → ok p ≡ ok q → p.1 ≡ q.1
second p q e =
    ap
      (λ (o : Outcome (ℕ × Bcache)). elim o [
        | ok r ↦ r.1
        | panic ↦ p.1
        | exit n ↦ p.1
        | fault ↦ p.1
      ])
      e

bget-IsCache :
    (c : Bcache) (dev blockno i : ℕ) (c' : Bcache)
    → IsCache c
    → bget dev blockno c ≡ ok (i, c')
    → IsCache c'
unfolding recycle
bget-IsCache c dev blockno i c' h run =
    let list = bget_lists dev blockno c h.order h.all in
    elim (Option-cases (cached dev blockno c h.order)) [
      | inr (j, hit) ↦
          let e : incr_refcnt j c ≡ c' =
            second (j, incr_refcnt j c) (i, c') (sym (rw hit at list) ∙ run) in
          subst (λ d. IsCache d) e
            (set_buf-IsCache c j (record (c.buf j) { refcnt = ((c.buf j).refcnt + 1) % 2 ^ 32 })
              refl refl h)
      | inl miss ↦ elim (Option-cases (unused c h.order)) [
        | inr (j, free) ↦
            let e : recycle j dev blockno c ≡ c' =
              second (j, recycle j dev blockno c) (i, c') (sym (rw (miss, free) at list) ∙ run) in
            subst (λ d. IsCache d) e
              (record {
                order = h.order;
                all = same_links c (recycle j dev blockno c) h.order h.all refl refl;
                unique = recycle-IsUnique dev blockno j c h.order h.all h.unique miss;
              })
        | inl full ↦ absurd (cc (rw (miss, full) at list, run))
      ]
    ]

fill_buf-IsCache : (c : Bcache) (i : ℕ) (block : ℕ → ℕ) → IsCache c → IsCache (fill_buf i block c)
unfolding fill_buf
fill_buf-IsCache c i block h = elim (Bool-cases (c.buf i).valid) [
  | inl there ↦ rw there h
  | inr not_there ↦
      rw not_there
        (set_buf-IsCache c i (record (c.buf i) { valid = true; bytes = block }) refl refl h)
]

Step-IsCache : {c d : Bcache} → IsCache c → Step c d → IsCache d
unfolding bpin bunpin
Step-IsCache {c} h (get dev blockno i c' pos_dev run) = bget-IsCache c dev blockno i c' h run
Step-IsCache {c} h (give i lt small) = put_back-IsCache c i lt small h
Step-IsCache {c} h (fill i block) = fill_buf-IsCache c i block h
Step-IsCache {c} h (change i bytes) =
    set_buf-IsCache c i (record (c.buf i) { bytes = bytes }) refl refl h
Step-IsCache {c} h (pin i) =
    set_buf-IsCache c i (record (c.buf i) { refcnt = ((c.buf i).refcnt + 1) % 2 ^ 32 }) refl refl h
Step-IsCache {c} h (unpin i) =
    set_buf-IsCache c i (record (c.buf i) { refcnt = ((c.buf i).refcnt + (2 ^ 32 - 1)) % 2 ^ 32 })
      refl refl h

add_bufs-dev : (n b : ℕ) (c : Bcache) (i : ℕ) → ((add_bufs n b c).buf i).dev ≡ (c.buf i).dev
unfolding add_bufs
add_bufs-dev zero b c i = refl
add_bufs-dev (suc n) b c i =
    add_bufs-dev n (b + 1) (add_buf b c) i
    ∙ put-key (λ x. x.dev) c.buf b (record (c.buf b) { lock = initsleeplock }) refl i

-- From binit on buffers for device 0, every sequence of calls of bget for other devices, of
-- brelse, of reading and changing buffers, of bpin and bunpin keeps the doubly linked list one of
-- all 30 buffers, and never has two buffers for one block.
pub Reach-IsCache :
    (c : Bcache) {d : Bcache} → ((i : ℕ) → (c.buf i).dev ≡ 0) → Reach (binit c) d → IsCache d
unfolding binit
Reach-IsCache c zeros here = record {
  order = ups nbuf 0 [];
  all = binit-IsBcache c;
  unique = λ i j li lj pos_dev. absurd (
      omega (
        arith,
        pos_dev,
        add_bufs-dev nbuf 0 (set_next head head (set_prev head head c)) i,
        zeros i,
      ));
}
Reach-IsCache c zeros (next r st) = Step-IsCache (Reach-IsCache c zeros r) st
