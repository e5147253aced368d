-- ===== src/Bmap/Slots.antt =====
-- The addresses of an inode and the entries of its indirect block as one row of slots: 12 addresses,
-- that of the indirect block, and its 256 entries.
use zerocopy_ringbuf.Common.{
  ℕ, ◌+◌, ◌-◌, ◌^◌, ◌≡◌, ◌≢◌, ◌<◌, ◌≤◌, refl, sym, ap, ◌∙◌, true, false, ◌||◌, ltb, ◌==◌,
  if◌then◌else◌, arith, Bool-cases, inl, inr,
}
use mathlib.Core.Path.{subst}
use zerocopy_ringbuf.Blocks.{Data, bblock}
use zerocopy_ringbuf.Blocks.Used.{used}
use zerocopy_ringbuf.Blocks.Alloc.{IsMapped}
use zerocopy_ringbuf.Bmap.{Inode, maxfile, ndirect, uint_at}

abbrev pub nslots : ℕ
nslots = maxfile + 1

abbrev pub slot : ℕ → Inode → Data → ℕ
slot k ip d =
    if ltb k 13
    then ip.addrs k
    else if ip.addrs ndirect == 0
    then 0
    else uint_at (d.block (ip.addrs ndirect)) (k - 13)

-- The slots name different blocks of the disk, which are in use and not of the map.
pub record IsInode (ip : Inode) (d : Data) : Type 0 where
  pub mapped : IsMapped d
  pub map_inside : (j : ℕ) → j < d.size → bblock j d < d.size
  pub first_used : used d 0 ≡ true
  pub small : d.size ≤ 2 ^ 32
  pub inside : (k : ℕ) → k < nslots → slot k ip d ≢ 0 → slot k ip d < d.size
  pub marked : (k : ℕ) → k < nslots → slot k ip d ≢ 0 → used d (slot k ip d) ≡ true
  pub off_map : (k j : ℕ) → k < nslots → slot k ip d ≢ 0 → j < d.size → slot k ip d ≢ bblock j d
  pub apart :
      (k m : ℕ) → k < nslots → m < nslots → slot k ip d ≢ 0 → slot k ip d ≡ slot m ip d → k ≡ m

-- A block that is in use in none of the slots is put in slot `n`.
pub record Added (n r : ℕ) (ip : Inode) (d : Data) (ip' : Inode) (d' : Data) : Type 0 where
  pub at : slot n ip' d' ≡ r
  pub off : (k : ℕ) → k < nslots → k ≢ n → slot k ip' d' ≡ slot k ip d
  pub uses : (j : ℕ) → j < d.size → used d' j ≡ ((j == r) || used d j)
  pub same_size : d'.size ≡ d.size
  pub same_map : d'.bmapstart ≡ d.bmapstart

-- The fresh block is not that of a slot, nor of the map.
pub fresh-slot :
    (ip : Inode) (d : Data) (r k : ℕ)
    → IsInode ip d
    → used d r ≡ false
    → k < nslots
    → slot k ip d ≢ 0
    → slot k ip d ≢ r
fresh-slot ip d r k v free lt nz e = cc (v.marked k lt nz, ap (λ b. used d b) e, free)

pub fresh-map :
    (ip : Inode) (d : Data) (r j : ℕ)
    → IsInode ip d
    → used d r ≡ false
    → j < d.size
    → bblock j d ≢ r
fresh-map ip d r j v free lt e = cc (v.mapped j lt, ap (λ b. used d b) e, free)

module _ (n r : ℕ) (ip : Inode) (d : Data) (ip' : Inode) (d' : Data) (v : IsInode ip d)
    (unused : used d r ≡ false) (lt : r < d.size) (a : Added n r ip d ip' d') where
  -- Each slot afterwards is the new one or as it was.
  slots_after :
      (P : ℕ → ℕ → Type 0)
      → P n r
      → ((k : ℕ) → k < nslots → k ≢ n → slot k ip d ≢ 0 → P k (slot k ip d))
      → (k : ℕ) → k < nslots
      → slot k ip' d' ≢ 0
      → P k (slot k ip' d')
  slots_after P new old k lk nz = elim (Bool-cases (k == n)) [
    | inl hit ↦
        let e : k ≡ n = ground (arith, hit) in
        subst (λ m. P m (slot m ip' d')) (sym e) (subst (P n) (sym a.at) new)
    | inr miss ↦
        let ne : k ≢ n = λ e. ground (arith, miss, e) in
        let e : slot k ip' d' ≡ slot k ip d = a.off k lk ne in
        subst (P k) (sym e) (old k lk ne (λ z. nz (e ∙ z)))
  ]

  uses_old : (b : ℕ) → b < d.size → used d b ≡ true → used d' b ≡ true
  uses_old b lb u = ground (arith, a.uses b lb, u)

  uses_new : used d' r ≡ true
  uses_new = ground (arith, a.uses r lt)

  map_same : (j : ℕ) → bblock j d' ≡ bblock j d
  map_same j = rw a.same_map refl

  pub Added-IsInode : IsInode ip' d'
  Added-IsInode = record {
    map_inside = λ j lj.
        let lj' : j < d.size = subst (λ s. j < s) a.same_size lj in
        subst (λ s. bblock j d' < s) (sym a.same_size)
          (subst (λ b. b < d.size) (sym (map_same j)) (v.map_inside j lj'));
    mapped = λ j lj.
        let lj' : j < d.size = subst (λ s. j < s) a.same_size lj in
        ap (λ b. used d' b) (map_same j)
        ∙ uses_old (bblock j d) (v.map_inside j lj') (v.mapped j lj');
    first_used = uses_old 0 (omega (arith, lt)) v.first_used;
    small = subst (λ s. s ≤ 2 ^ 32) (sym a.same_size) v.small;
    inside = λ k lk nz.
        subst (λ s. slot k ip' d' < s) (sym a.same_size)
          (slots_after (λ _ b. b < d.size) lt (λ m lm _ mz. v.inside m lm mz) k lk nz);
    marked =
        slots_after (λ _ b. used d' b ≡ true) uses_new
          (λ m lm _ mz. uses_old (slot m ip d) (v.inside m lm mz) (v.marked m lm mz));
    off_map = λ k j lk nz lj e.
        let lj' : j < d.size = subst (λ s. j < s) a.same_size lj in
        slots_after (λ _ b. b ≢ bblock j d) (λ q. fresh-map ip d r j v unused lj' (sym q))
          (λ m lm _ mz. v.off_map m j lm mz lj') k lk nz (e ∙ map_same j);
    apart = λ k m lk lm nz e.
        slots_after (λ i b. b ≡ slot m ip' d' → i ≡ m)
          (λ q.
            slots_after (λ i b. r ≡ b → n ≡ i) (λ _. refl)
              (λ i li _ iz p. absurd (fresh-slot ip d r i v unused li iz (sym p))) m lm
              (λ z. nz (e ∙ z)) q)
          (λ i li _ iz q.
            slots_after (λ o b. slot i ip d ≡ b → i ≡ o)
              (λ p. absurd (fresh-slot ip d r i v unused li iz p))
              (λ o lo _ oz p. v.apart i o li lo iz p) m lm (λ z. nz (e ∙ z)) q)
          k lk nz e;
  }
