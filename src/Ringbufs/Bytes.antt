-- ===== src/Ringbufs/Bytes.antt =====
-- The mapping of kernel/ringbuf.c by bytes, as user/ringbuf.c reads it: from the address that
-- `ringbuf_open` enters for a ring.
use zerocopy_ringbuf.Common.{
  suc, ℤ, pos, success, sub64, refl, Outcome, ok, Ensures, ℕ, ◌+◌, ◌-◌, ◌*◌, ◌%◌, ◌/◌, ◌^◌, ◌≤◌,
  ◌<◌, ◌≡◌, ◌∙◌, sym, ap, arith,
}
use mathlib.Core.Path.{subst}
use zerocopy_ringbuf.Paging.{Paging}
use zerocopy_ringbuf.Paging.Laws.{IsPaging}
use zerocopy_ringbuf.Ringbufs.Rules.{Succeeds}
use zerocopy_ringbuf.UserRing.{UserRingBuf}
use zerocopy_ringbuf.UserRing.Table.{IsOpenedAt, IsOpenedAt-opened}
use native.Mathlib.Decide.{dec_lt}
use zerocopy_ringbuf.Ringbufs.{Ringbuf}
use zerocopy_ringbuf.Ringbufs.Pages.{va_at, mappages_to_proc}
use zerocopy_ringbuf.Ringbufs.Double.{
  IsDouble, mappages_to_proc-IsDouble_new, mappages_to_proc-IsDouble_again,
}

-- The physical address of a virtual one.
abbrev pub physical : (ℕ → ℕ) → ℕ → ℕ
physical tr a = tr (a / 4096 * 4096) + a % 4096

module _ {S : Type 0} (tr : S → ℕ → ℕ) (Valid : S → Type 0) (Page : S → ℕ → Type 0) (base buf : ℕ)
    (rb : Ringbuf) (s : S) (d : IsDouble tr Valid Page base rb s) (aligned : base % 4096 ≡ 0)
    (room : 32 * 4096 ≤ base) (below : base < 2 ^ 38) (at : buf ≡ sub64 base (31 * 4096)) where
  page-buf : (p : ℕ) → p < 32 → tr s (buf + p * 4096) ≡ rb.buf (15 - p % 16)
  page-buf p lt = elim (dec_lt p 16) [
    | yes low ↦
        let a : buf + p * 4096 ≡ va_at base (15 - p + 16) = omega arith in
        let j : 15 - p ≡ 15 - p % 16 = omega arith in
        rw a (d.upper (15 - p) (omega arith) ∙ ap rb.buf j)
    | no high ↦
        let a : buf + p * 4096 ≡ va_at base (31 - p) = omega arith in
        let j : 31 - p ≡ 15 - p % 16 = omega arith in
        rw a (d.lower (31 - p) (omega arith) ∙ ap rb.buf j)
  ]

  -- The byte at offset `x` of a ring's mapping is a byte of its physical pages, whatever the process.
  physical-buf :
      (x : ℕ)
      → x < 2 * 65536
      → physical (tr s) (buf + x) ≡ rb.buf (15 - x % 65536 / 4096) + x % 4096
  physical-buf x lt =
      let a : (buf + x) / 4096 * 4096 ≡ buf + x / 4096 * 4096 = omega arith in
      let b : (buf + x) % 4096 ≡ x % 4096 = omega arith in
      let p : x / 4096 % 16 ≡ x % 65536 / 4096 = omega arith in
      rw (a, b)
        (ap (λ t. t + x % 4096) (page-buf (x / 4096) (omega arith) ∙ ap (λ q. rb.buf (15 - q)) p))

-- What a run that returned 0 leaves.
Ensures-run :
    {S : Type 0} (Q : Ringbuf → S → Type 0) (o : Outcome ((ℤ × Ringbuf) × S)) (rb : Ringbuf) (s : S)
    → Ensures (Succeeds Q) o
    → o ≡ ok ((success, rb), s)
    → Q rb s
Ensures-run Q o rb s h e = subst (Ensures (Succeeds Q)) e h refl

module _ {S : Type 0} (vm : Paging S) (tr : S → ℕ → ℕ) (Valid : S → Type 0) (Page : S → ℕ → Type 0)
    (pt : ℕ) (laws : IsPaging tr Valid Page vm pt) (tr' : S → ℕ → ℕ) (Valid' : S → Type 0)
    (Page' : S → ℕ → Type 0) (pt' : ℕ) (laws' : IsPaging tr' Valid' Page' vm pt') where
  -- A memory management that meets its laws for two page tables; two aligned bases below 2^38 with
  -- room for 32 pages under each. Where mappages_to_proc returned 0 for a new ring and the first
  -- table, and then for the ring and the second table, in which the ring's pages are allocated
  -- pages and whose mapping left the first table's translations, and where ringbuf_open of a
  -- process each entered a ring at the address that is the base: both processes find the same
  -- physical byte at each offset below 131072 of the buffers that they entered, and the second
  -- half of a buffer shows the bytes of the first.
  pub physical-shared :
      (base base' : ℕ) (ring ring' : UserRingBuf) (new rb : Ringbuf) (s s1 s2 : S) (n : ℕ)
      → (base % 4096 ≡ 0) × (32 * 4096 ≤ base) × (base < 2 ^ 38)
      → (base' % 4096 ≡ 0) × (32 * 4096 ≤ base') × (base' < 2 ^ 38)
      → Valid s
      → new.refcount ≡ pos 0
      → mappages_to_proc vm pt new base 32 s ≡ ok ((success, rb), s1)
      → Valid' s1
      → ((j : ℕ) → j < 16 → Page' s1 (rb.buf j))
      → mappages_to_proc vm pt' (record rb { refcount = pos (suc n) }) base' 32 s1
        ≡ ok ((success, record rb { refcount = pos (suc n) }), s2)
      → ((va : ℕ) → tr s2 va ≡ tr s1 va)
      → IsOpenedAt base ring
      → IsOpenedAt base' ring'
      → (x : ℕ) → x < 2 * 65536
      → (physical (tr s2) (ring.buf + x) ≡ physical (tr' s2) (ring'.buf + x))
        × (physical (tr s2) (ring.buf + x) ≡ physical (tr s2) (ring.buf + x % 65536))
  physical-shared base base' ring ring' new rb s s1 s2 n h h' v fresh run v' pages run' same o o' x
        lt =
      let joined : Ringbuf = record rb { refcount = pos (suc n) } in
      let d1 : IsDouble tr Valid Page base rb s1 =
        Ensures-run (λ rb' s'. IsDouble tr Valid Page base rb' s') _ rb s1
          (mappages_to_proc-IsDouble_new tr Valid Page vm pt laws base h.0 h.2 new s h.1 v fresh)
          run in
      let d2 : IsDouble tr Valid Page base rb s2 = record {
        distinct = d1.distinct;
        lower = λ j lj. same (va_at base j) ∙ d1.lower j lj;
        upper = λ j lj. same (va_at base (j + 16)) ∙ d1.upper j lj;
      } in
      let d' : IsDouble tr' Valid' Page' base' joined s2 =
        (Ensures-run (λ rb' s'. IsDouble tr' Valid' Page' base' rb' s' × (rb' ≡ joined)) _ joined s2
          (mappages_to_proc-IsDouble_again tr' Valid' Page' vm pt' laws' base' h'.0 h'.2 joined s1 n
            h'.1 v' refl pages d1.distinct)
          run').0 in
      let e : ring.buf ≡ sub64 base (31 * 4096) =
        ap (λ (r : UserRingBuf). r.buf) (IsOpenedAt-opened base ring o) in
      let e' : ring'.buf ≡ sub64 base' (31 * 4096) =
        ap (λ (r : UserRingBuf). r.buf) (IsOpenedAt-opened base' ring' o') in
      let here = physical-buf tr Valid Page base ring.buf rb s2 d2 h.0 h.1 h.2 e in
      (
        here x lt
            ∙ sym
                (physical-buf tr' Valid' Page' base' ring'.buf joined s2 d' h'.0 h'.1 h'.2 e' x lt),
        here x lt ∙ sym (here (x % 65536) (omega arith) ∙ fold rb x),
      )
    where
      fold :
          (rb : Ringbuf) (x : ℕ)
          → rb.buf (15 - x % 65536 % 65536 / 4096) + x % 65536 % 4096
            ≡ rb.buf (15 - x % 65536 / 4096) + x % 4096
      fold rb x =
          let a : x % 65536 % 65536 ≡ x % 65536 = omega arith in
          let b : x % 65536 % 4096 ≡ x % 4096 = omega arith in rw (a, b)
