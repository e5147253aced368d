-- ===== src/Bio/Order.antt =====
-- The list of kernel/bio.c: all buffers, the last used first.
use zerocopy_ringbuf.Common.{
  ℕ, zero, suc, ◌+◌, ◌^◌, ◌<◌, ◌≤◌, ◌≡◌, ◌≢◌, ◌↔◌, refl, sym, ◌∙◌, true, false, ◌||◌, List, [], ◌∷◌,
  ◌++◌, ◌==◌, ltb, leb, ◌&&◌, length, length-append, if◌then◌else◌, arith, Bool-cases, inl, inr,
}
use mathlib.Core.Path.{subst}
use zerocopy_ringbuf.Kalloc.FreeList.{has}
use zerocopy_ringbuf.Sleeplock.{initsleeplock}
use zerocopy_ringbuf.Bio.{
  Bcache, nbuf, head, put, set_next, set_prev, set_buf, link_front, unlink, add_buf, add_bufs,
  binit, decr_refcnt, put_back,
}
use zerocopy_ringbuf.Bio.Linked.{
  Distinct, Linked, first_of, last_of, has-append, Distinct-append, Distinct-join, Linked-split,
  Linked-first, Linked-last, Linked-unlink, Linked-front, put-off,
}

pub record IsList (c : Bcache) (xs : List ℕ) : Type 0 where
  pub links : Linked c.next c.prev head xs head
  pub distinct : Distinct (head ∷ xs)

pub link_front-IsList :
    (c : Bcache) (b : ℕ) (xs : List ℕ)
    → IsList c xs
    → has b (head ∷ xs) ≡ false
    → IsList (link_front b c) (b ∷ xs)
unfolding link_front
link_front-IsList c b xs v new =
    let ne : head ≢ b = λ e. ground (arith, new, e) in
    let first : ℕ = first_of xs head in
    let e : c.next head ≡ first = Linked-first c.next c.prev head xs head v.links in
    let W : ℕ → ℕ → Type 0 = λ k m.
      Linked (put (put c.next b k) head b) (put (put c.prev b head) m b) head (b ∷ xs) head in
    record {
      links =
          subst (λ k. W k (put c.next b k head)) (sym e)
            (subst (λ m. W first m) (sym (put-off c.next b head first ne ∙ e))
              (Linked-front c.next c.prev head b xs v.distinct new v.links));
      distinct = (ground (arith, v.distinct.0, new), (ground (arith, new), v.distinct.1));
    }

-- An element that is taken out of a list of distinct ones is not in the rest.
taken_out :
    (a : ℕ) (ys : List ℕ) (b : ℕ) (zs : List ℕ)
    → Distinct (a ∷ ys ++ b ∷ zs)
    → has b (a ∷ ys ++ zs) ≡ false
taken_out a ys b zs d =
    let (dy, dz, apart) = Distinct-append (a ∷ ys) (b ∷ zs) d in
    has-append b (a ∷ ys) zs ∙ elim (Bool-cases (has b (a ∷ ys))) [
      | inl h ↦ absurd (ground (arith, apart b h))
      | inr h ↦ rw h dz.0
    ]

first_apart : (b : ℕ) (zs : List ℕ) → has b zs ≡ false → b ≢ head → b ≢ first_of zs head
first_apart b [] h ne = ne
first_apart b (z ∷ zs) h ne = λ e. ground (arith, h, e)

pub unlink-IsList :
    (c : Bcache) (ys : List ℕ) (b : ℕ) (zs : List ℕ)
    → IsList c (ys ++ b ∷ zs)
    → IsList (unlink b c) (ys ++ zs) × (has b (head ∷ ys ++ zs) ≡ false)
unfolding unlink
unlink-IsList c ys b zs v =
    let (m, r) = Linked-split c.next c.prev head ys b zs head v.links in
    let (dy, dz, apart) = Distinct-append (head ∷ ys) (b ∷ zs) v.distinct in
    let n : ℕ = c.next b in
    let p : ℕ = c.prev b in
    let next_first : n ≡ first_of zs head = Linked-first c.next c.prev b zs head r in
    let prev_last : p ≡ last_of head ys = Linked-last c.next c.prev head ys b m in
    let new : has b (head ∷ ys ++ zs) ≡ false = taken_out head ys b zs v.distinct in
    let ne : b ≢ n = λ e. first_apart b zs dz.0 (λ q. ground (arith, new, q)) (e ∙ next_first) in
    let W : ℕ → ℕ → ℕ → Type 0 =
      λ k i j. Linked (put c.next k i) (put c.prev i j) head (ys ++ zs) head in
    (
      record {
        links =
            subst (λ k. W k n p) (sym (put-off c.prev n b p ne ∙ prev_last))
              (subst (λ j. W (last_of head ys) n j) (sym prev_last)
                (subst (λ i. W (last_of head ys) i (last_of head ys)) (sym next_first)
                  (Linked-unlink c.next c.prev head ys b zs v.distinct v.links)));
        distinct = Distinct-join (head ∷ ys) zs dy dz.1 (λ j h. ground (arith, apart j h));
      },
      new,
    )

-- The list is of all buffers.
pub record IsBcache (c : Bcache) (xs : List ℕ) : Type 0 where
  pub list : IsList c xs
  pub count : length xs ≡ nbuf
  pub members : (i : ℕ) → (has i xs ≡ true) ↔ (i < nbuf)

-- Changes of buffers do not touch the list.
pub same_links :
    (c c' : Bcache) (xs : List ℕ)
    → IsBcache c xs
    → c'.next ≡ c.next
    → c'.prev ≡ c.prev
    → IsBcache c' xs
same_links c c' xs v n p = record {
  list = record {
    links =
        subst (λ k. Linked k c'.prev head xs head) (sym n)
          (subst (λ k. Linked c.next k head xs head) (sym p) v.list.links);
    distinct = v.list.distinct;
  };
  count = v.count;
  members = v.members;
}

moved_front :
    (ys : List ℕ) (b : ℕ) (zs : List ℕ) (i : ℕ) → has i (b ∷ ys ++ zs) ≡ has i (ys ++ b ∷ zs)
moved_front [] b zs i = refl
moved_front (y ∷ ys) b zs i = ground (arith, moved_front ys b zs i)

-- Where the links are a list of all buffers and a buffer's count is a 32-bit word, brelse moves
-- the buffer to the front of the list if the count was 1, and otherwise leaves the order; the
-- links are a list of all buffers again.
pub put_back-IsBcache :
    (c : Bcache) (ys : List ℕ) (b : ℕ) (zs : List ℕ)
    → IsBcache c (ys ++ b ∷ zs)
    → (c.buf b).refcnt < 2 ^ 32
    → IsBcache (put_back b c) (if (c.buf b).refcnt == 1 then b ∷ ys ++ zs else ys ++ b ∷ zs)
unfolding put_back
put_back-IsBcache c ys b zs v small =
    let c1 : Bcache = decr_refcnt b c in
    let v1 : IsBcache c1 (ys ++ b ∷ zs) = same_links c c1 (ys ++ b ∷ zs) v refl refl in
    let at : (b == b) ≡ true = ground arith in
    let left : ((c1.buf b).refcnt == 0) ≡ ((c.buf b).refcnt == 1) = rw at (ground (arith, small)) in
    elim (Bool-cases ((c.buf b).refcnt == 1)) [
      | inl last ↦
          let (u, new) = unlink-IsList c1 ys b zs v1.list in
          rw (left, last)
            (record {
              list = link_front-IsList (unlink b c1) b (ys ++ zs) u new;
              count = omega (arith, length-append ys zs, length-append ys (b ∷ zs), v.count);
              members = λ i. rw (moved_front ys b zs i) (v.members i);
            })
      | inr others ↦ rw (left, others) v1
    ]

abbrev pub ups : ℕ → ℕ → List ℕ → List ℕ
ups zero b xs = xs
ups (suc n) b xs = ups n (b + 1) (b ∷ xs)

add_bufs-IsList :
    (n b : ℕ) (c : Bcache) (xs : List ℕ)
    → b + n ≤ nbuf
    → ((i : ℕ) → has i xs ≡ true → i < b)
    → IsList c xs
    → IsList (add_bufs n b c) (ups n b xs)
unfolding add_bufs
add_bufs-IsList zero b c xs h low v = v
add_bufs-IsList (suc n) b c xs h low v =
    add_bufs-IsList n (b + 1) (add_buf b c) (b ∷ xs) (omega (arith, h))
      (λ i m. ground (arith, m, low i))
      (link_front-IsList (set_buf b (record (c.buf b) { lock = initsleeplock }) c) b xs
        (record { links = v.links; distinct = v.distinct })
        (elim (Bool-cases (has b xs)) [
          | inl m ↦ absurd (omega (arith, low b m))
          | inr m ↦ ground (arith, m, h)
        ]))

has-ups :
    (n b : ℕ) (xs : List ℕ) (i : ℕ) → has i (ups n b xs) ≡ ((leb b i && ltb i (b + n)) || has i xs)
has-ups zero b xs i = ground arith
has-ups (suc n) b xs i = has-ups n (b + 1) (b ∷ xs) i ∙ ground arith

-- binit makes the list of all buffers.
pub binit-IsBcache : (c : Bcache) → IsBcache (binit c) (ups nbuf 0 [])
unfolding binit
binit-IsBcache c = record {
  list =
      add_bufs-IsList nbuf 0 (set_next head head (set_prev head head c)) [] (omega arith)
        (λ i h. absurd (cc)) (record { links = (refl, refl); distinct = (refl, tt) });
  count = refl;
  members = λ i. rw (has-ups nbuf 0 [] i) (ground arith);
}
