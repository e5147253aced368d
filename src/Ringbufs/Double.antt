-- ===== src/Ringbufs/Double.antt =====
-- The double mapping of kernel/ringbuf.c: the 32 pages of a ring show its 16 physical pages twice.
use zerocopy_ringbuf.Common.{
  ℕ, suc, ◌+◌, ◌*◌, ◌%◌, ◌^◌, ◌≤◌, ◌<◌, ◌≡◌, ◌≢◌, true, false, pos, is_zero, is_neg, arith, Ensures,
  Ensures-mono,
}
use mathlib.Core.Path.{subst}
use zerocopy_ringbuf.Paging.{Paging}
use zerocopy_ringbuf.Paging.Laws.{IsPaging}
use zerocopy_ringbuf.Ringbufs.{Ringbuf}
use zerocopy_ringbuf.Ringbufs.Pages.{va_at, map_new, map_again, mappages_to_proc}
use zerocopy_ringbuf.Ringbufs.Rules.{Succeeds}
use zerocopy_ringbuf.Ringbufs.Mapping.{Done, map_new-Done, map_again-Done}

module _ {S : Type 0} (tr : S → ℕ → ℕ) (Valid : S → Type 0) (Page : S → ℕ → Type 0) where
  -- What a ring's mapping looks like: 16 pages that differ, each at two places 16 pages apart.
  pub record IsDouble (base : ℕ) (rb : Ringbuf) (s : S) : Type 0 where
    pub distinct : (j j' : ℕ) → j < j' → j' < 16 → rb.buf j ≢ rb.buf j'
    pub lower : (j : ℕ) → j < 16 → tr s (va_at base j) ≡ rb.buf j
    pub upper : (j : ℕ) → j < 16 → tr s (va_at base (j + 16)) ≡ rb.buf j

  module _ (vm : Paging S) (pt : ℕ) (laws : IsPaging tr Valid Page vm pt) (base : ℕ)
      (aligned : base % 4096 ≡ 0) (below : base < 2 ^ 38) where
    Done-IsDouble :
        (k : ℕ) (rb : Ringbuf) (s : S)
        → 16 ≤ k
        → Done tr Valid Page base 32 k rb s
        → IsDouble base rb s
    Done-IsDouble k rb s h d = record {
      distinct = λ j j' lt sm. d.distinct j j' lt (omega arith) sm;
      lower = λ j sm.
          let e : j % 16 ≡ j = omega arith in
          subst (λ i. tr s (va_at base j) ≡ rb.buf i) e (d.mapped j (omega arith));
      upper = λ j sm.
          let e : (j + 16) % 16 ≡ j = omega arith in
          subst (λ i. tr s (va_at base (j + 16)) ≡ rb.buf i) e (d.mapped (j + 16) (omega arith));
    }

    -- With a memory management that meets its laws, an aligned base below 2 ^ 38 with room for 32
    -- pages under it and a ring that no process has: where mappages_to_proc returns 0, the ring
    -- has 16 distinct pages, each mapped at two places 16 pages apart. Where it returns another
    -- value, or panics, nothing is said.
    pub mappages_to_proc-IsDouble_new :
        (rb : Ringbuf) (s : S)
        → 32 * 4096 ≤ base
        → Valid s
        → rb.refcount ≡ pos 0
        → Ensures (Succeeds (λ rb' s'. IsDouble base rb' s')) (mappages_to_proc vm pt rb base 32 s)
    unfolding mappages_to_proc
    mappages_to_proc-IsDouble_new rb s room v e =
        let neg : is_neg rb.refcount ≡ false = rw e in
        let fresh : is_zero rb.refcount ≡ true = rw e in
        rw (neg, fresh)
          (Ensures-mono _ (Succeeds (λ rb' s'. IsDouble base rb' s')) (map_new vm pt base 32 0 rb s)
            (map_new-Done tr Valid Page vm pt laws base aligned below 32 0 rb s (omega arith)
              none_done)
            (λ (rc, rb') s' d z. Done-IsDouble 32 rb' s' (omega arith) (d z)))
      where
        none_done : Done tr Valid Page base 0 0 rb s
        none_done = record {
          valid = v;
          pages = λ j lt. absurd (omega arith);
          distinct = λ j j' lt lt'. absurd (omega arith);
          mapped = λ j lt. absurd (omega arith);
        }

    -- With a memory management that meets its laws, an aligned base below 2 ^ 38 with room for 32
    -- pages under it and a ring that some process has, with 16 distinct allocated pages: where
    -- mappages_to_proc returns 0, the ring is as before and each of its pages is mapped at two
    -- places 16 pages apart.
    pub mappages_to_proc-IsDouble_again :
        (rb : Ringbuf) (s : S) (n : ℕ)
        → 32 * 4096 ≤ base
        → Valid s
        → rb.refcount ≡ pos (suc n)
        → ((j : ℕ) → j < 16 → Page s (rb.buf j))
        → ((j j' : ℕ) → j < j' → j' < 16 → rb.buf j ≢ rb.buf j')
        → Ensures
            (Succeeds (λ rb' s'. IsDouble base rb' s' × (rb' ≡ rb)))
            (mappages_to_proc vm pt rb base 32 s)
    unfolding mappages_to_proc
    mappages_to_proc-IsDouble_again rb s n room v e pages apart =
        let neg : is_neg rb.refcount ≡ false = rw e in
        let more : is_zero rb.refcount ≡ false = rw e (ground arith) in
        rw (neg, more)
          (Ensures-mono _ (Succeeds (λ rb' s'. IsDouble base rb' s' × (rb' ≡ rb)))
            (map_again vm pt base 32 0 rb s)
            (map_again-Done tr Valid Page vm pt laws base aligned below 32 0 rb s (omega arith)
              none_done)
            (λ (rc, rb') s' d z. (Done-IsDouble 16 rb' s' (omega arith) (d z).0, (d z).1)))
      where
        none_done : Done tr Valid Page base 0 16 rb s
        none_done = record {
          valid = v;
          pages = λ j lt. pages j;
          distinct = λ j j' lt lt'. apart j j' lt;
          mapped = λ j lt. absurd (omega arith);
        }
