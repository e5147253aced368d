-- ===== src/Vm/Copyin.antt =====
-- copyin of kernel/vm.c, byte by byte of the process's memory that it reads.
use zerocopy_ringbuf.Common.{
  ℕ, zero, suc, ◌+◌, ◌-◌, ◌≤◌, ◌<◌, ◌≡◌, ◌≢◌, refl, true, false, ◌==◌, if◌then◌else◌, ok, success,
  arith, Bool-cases, inl, inr, ◌>>=◌, sym, ap, ◌∙◌,
}
use zerocopy_ringbuf.Kstring.{Mem, memmove}
use zerocopy_ringbuf.Kstring.Memory.{within, memmove-at}
use zerocopy_ringbuf.Kalloc.{Kmem}
use zerocopy_ringbuf.Vm.{pg_round_down}
use zerocopy_ringbuf.Vm.Walk.{user_page_at, walkaddr_lem, physical}
use zerocopy_ringbuf.Vm.Copy.{chunk, copyin, copyin_from}

-- The `len` user bytes from `src` on are mapped, and neither they nor the page table lie in the
-- `len` bytes of the kernel from `dst` on.
pub record IsApart (m : Mem) (pt dst src len : ℕ) : Type 0 where
  pub mapped : (x : ℕ) → x < len → user_page_at m pt (pg_round_down (src + x)) ≢ 0
  pub bytes : (x : ℕ) → x < len → within dst len (physical m pt (src + x)) ≡ false
  pub tables :
      (m' : Mem)
      → ((a : ℕ) → within dst len a ≡ false → m' a ≡ m a)
      → (x : ℕ) → x < len
      → user_page_at m' pt (pg_round_down (src + x)) ≡ user_page_at m pt (pg_round_down (src + x))

module _ (m m1 : Mem) (pt dst src src' len n : ℕ) (small : n ≤ len)
    (moved : (a : ℕ) → within dst n a ≡ false → m1 a ≡ m a) (go_on : n < len → src' ≡ src + n)
    (apart : IsApart m pt dst src len) where
  pages-moved :
      (x : ℕ)
      → x < len
      → user_page_at m1 pt (pg_round_down (src + x)) ≡ user_page_at m pt (pg_round_down (src + x))
  pages-moved x h = apart.tables m1 (λ a w. moved a (ground arith)) x h

  left_over : (x : ℕ) → x < len - n → src' + x ≡ src + (n + x)
  left_over x h = omega (arith, go_on (omega arith))

  -- What is left to copy after a round is apart again.
  IsApart-rest : IsApart m1 pt (dst + n) src' (len - n)
  IsApart-rest = record {
    mapped = λ x h.
        rw (left_over x h, pages-moved (n + x) (omega arith)) (apart.mapped (n + x) (omega arith));
    bytes = λ x h.
        rw (left_over x h, pages-moved (n + x) (omega arith)) (ground (arith, apart.bytes (n + x)));
    tables = λ m' same x h. rw (left_over x h) (
        apart.tables m' (λ a w. same a (ground arith) ∙ moved a (ground arith)) (n + x)
          (omega arith)
        ∙ sym (pages-moved (n + x) (omega arith)));
  }

  -- The bytes of a round and those of the rest are those of both together.
  join :
      (first : (a : ℕ)
        → m1 a ≡ (if within dst n a then m (physical m pt (src + (a - dst))) else m a))
      (m2 : Mem)
      (second : (a : ℕ)
        → m2 a ≡ (
            if within (dst + n) (len - n) a
            then m1 (physical m1 pt (src' + (a - (dst + n))))
            else m1 a))
      (a : ℕ)
      → m2 a ≡ (if within dst len a then m (physical m pt (src + (a - dst))) else m a)
  join first m2 second a = elim (Bool-cases (within (dst + n) (len - n) a)) [
    | inl later ↦
        let x : ℕ = a - (dst + n) in
        let e : src' + x ≡ src + (a - dst) = left_over x (ground arith) ∙ ground arith in
        let all : within dst len a ≡ true = ground arith in
        rw (second a, later, all)
          (rw (e, pages-moved (a - dst) (ground arith))
            (rw (first, apart_first (a - dst) (ground arith)) refl))
    | inr now ↦ rw (second a, now) (rw (first a) (ground arith))
  ]
    where
      apart_first : (x : ℕ) → x < len → within dst n (physical m pt (src + x)) ≡ false
      apart_first x h = ground (arith, apart.bytes x h)

-- One round copies the bytes up to the end of the page, or all that are left.
module _ (pt dst src len : ℕ) (k : Kmem) where
  round-mem :
      (a : ℕ)
      → memmove k.mem dst
          (user_page_at k.mem pt (pg_round_down src) + (src - pg_round_down src))
          (chunk src (suc len))
          a
        ≡ (if within dst (chunk src (suc len)) a
            then k.mem (physical k.mem pt (src + (a - dst)))
            else k.mem a)
  round-mem a = elim (Bool-cases (within dst (chunk src (suc len)) a)) [
    | inl here ↦
        let page : pg_round_down (src + (a - dst)) ≡ pg_round_down src = ground arith in
        rw (memmove-at, here, page) (ap k.mem (ground arith))
    | inr there ↦ rw (memmove-at, there) refl
  ]

copyin_from-at :
    (rounds pt dst src len : ℕ) (k : Kmem)
    → len ≤ rounds
    → IsApart k.mem pt dst src len
    → (k' : Kmem) × (copyin_from rounds pt dst src len k ≡ ok (success, k'))
      × ((a : ℕ)
          → k'.mem a
            ≡ (if within dst len a then k.mem (physical k.mem pt (src + (a - dst))) else k.mem a))
unfolding copyin_from
copyin_from-at rounds pt dst src zero k enough apart = (k, refl, λ a. ground arith)
copyin_from-at zero pt dst src (suc len) k enough apart = absurd (omega arith)
copyin_from-at (suc rounds) pt dst src (suc len) k enough apart =
    let n : ℕ = chunk src (suc len) in
    let page : ℕ = user_page_at k.mem pt (pg_round_down src) in
    let m1 : Mem = memmove k.mem dst (page + (src - pg_round_down src)) n in
    let first = round-mem pt dst src len k in
    let small : n ≤ suc len = ground arith in
    let go_on : n < suc len → pg_round_down src + 4096 ≡ src + n = λ h. ground arith in
    let moved : (a : ℕ) → within dst n a ≡ false → m1 a ≡ k.mem a = λ a w. first a ∙ rw w in
    let at_start : src + 0 ≡ src = omega arith in
    let there : (page == 0) ≡ false =
      ground (arith, rw at_start at (apart.mapped 0 (omega arith))) in
    let (k', run, at) =
      copyin_from-at rounds pt (dst + n) (pg_round_down src + 4096) (suc len - n)
        (record k { mem = m1 }) (ground arith)
        (IsApart-rest k.mem m1 pt dst src (pg_round_down src + 4096) (suc len) n small moved go_on
          apart) in
    (
      k',
      rw (walkaddr_lem pt (pg_round_down src) k, ◌>>=◌) (rw (there, ◌>>=◌) run),
      join k.mem m1 pt dst src (pg_round_down src + 4096) (suc len) n small moved go_on apart first
          k'.mem at,
    )

-- Where the bytes to copy are mapped, they do not lie in the target, and no write to the target
-- changes their translation, copyin returns 0, the target holds the process's bytes, and the rest
-- of the memory is unchanged.
pub copyin-at :
    (pt dst src len : ℕ) (k : Kmem)
    → IsApart k.mem pt dst src len
    → (k' : Kmem) × (copyin pt dst src len k ≡ ok (success, k'))
      × ((a : ℕ)
          → k'.mem a
            ≡ (if within dst len a then k.mem (physical k.mem pt (src + (a - dst))) else k.mem a))
unfolding copyin
copyin-at pt dst src len k apart = copyin_from-at len pt dst src len k (omega arith) apart
