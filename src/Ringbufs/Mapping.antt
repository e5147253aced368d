-- ===== src/Ringbufs/Mapping.antt =====
-- The two mapping loops of kernel/ringbuf.c, round by round.
use zerocopy_ringbuf.Common.{
  ℕ, zero, suc, ◌+◌, ◌*◌, ◌%◌, ◌^◌, ◌≤◌, ◌<◌, ◌≡◌, ◌≢◌, refl, sym, ◌∙◌, true, false, Option, none,
  some, ℤ, is_zero, arith, if◌then◌else◌, ltb, ◌==◌, Cmd, ◌>>=◌, Ensures, Ensures-bind, Bool-cases,
  inl, inr,
}
use native.Mathlib.Decide.{dec_lt}
use mathlib.Core.Path.{subst}
use zerocopy_ringbuf.Paging.{Paging}
use zerocopy_ringbuf.Paging.Laws.{Kept, Allocated, Mapped, IsPaging}
use zerocopy_ringbuf.Ringbufs.{Ringbuf, pgsize}
use zerocopy_ringbuf.Ringbufs.Pages.{
  va_at, page_for, map_new, map_again, no_page, give_up, user_page,
}
use zerocopy_ringbuf.Ringbufs.Rules.{Succeeds, Ensures-elim, no_page-Succeeds, give_up-Succeeds}

module _ {S : Type 0} (tr : S → ℕ → ℕ) (Valid : S → Type 0) (Page : S → ℕ → Type 0) where
  -- The first `i` pages of the mapping are done, on `k` physical pages that differ.
  pub record Done (base i k : ℕ) (rb : Ringbuf) (s : S) : Type 0 where
    pub valid : Valid s
    pub pages : (j : ℕ) → j < k → j < 16 → Page s (rb.buf j)
    pub distinct : (j j' : ℕ) → j < j' → j' < k → j' < 16 → rb.buf j ≢ rb.buf j'
    pub mapped : (j : ℕ) → j < i → tr s (va_at base j) ≡ rb.buf (j % 16)

  -- The page for round `i` is at hand.
  record Ready (base i : ℕ) (s : S) (pa : ℕ) (rb : Ringbuf) : Type 0 where
    before : Done base i (suc i) rb s
    stored : pa ≡ rb.buf (i % 16)
    page : Page s pa

  module _ (vm : Paging S) (pt : ℕ) (laws : IsPaging tr Valid Page vm pt) (base : ℕ)
      (aligned : base % 4096 ≡ 0) (below : base < 2 ^ 38) where
    -- Mapping the page at hand.
    Mapped-Done :
        (i k : ℕ) (s s' : S) (rb : Ringbuf)
        → (i + 1) * 4096 ≤ base
        → Done base i k rb s
        → Mapped tr Valid Page s (va_at base i) (rb.buf (i % 16)) s'
        → Done base (i + 1) k rb s'
    Mapped-Done i k s s' rb room d m = record {
      valid = m.valid;
      pages = λ j lt small. m.pages (rb.buf j) (d.pages j lt small);
      distinct = d.distinct;
      mapped = λ j lt. elim (dec_lt j i) [
        | yes old ↦ m.others (va_at base j) (omega arith) ∙ d.mapped j old
        | no new ↦ let e : j ≡ i = omega arith in rw e m.here
      ];
    }

    pub map_again-Done :
        (n i : ℕ) (rb : Ringbuf) (s : S)
        → (i + n) * 4096 ≤ base
        → Done base i 16 rb s
        → Ensures
            (Succeeds (λ rb' s'. Done base (i + n) 16 rb' s' × (rb' ≡ rb)))
            (map_again vm pt base n i rb s)
    unfolding map_again
    map_again-Done zero i rb s room d = λ _. (let e : i + 0 ≡ i = omega arith in rw e d, refl)
    map_again-Done (suc n) i rb s room d =
        let pa : ℕ = rb.buf (i % 16) in
        let e : i + suc n ≡ i + 1 + n = omega arith in
        rw e (
          Ensures-bind (λ rc s'. is_zero rc ≡ true → Mapped tr Valid Page s (va_at base i) pa s')
            (Succeeds (λ rb' s'. Done base (i + 1 + n) 16 rb' s' × (rb' ≡ rb)))
            (vm.mappages pt (va_at base i) 4096 pa 30) _ s
            (laws.mappages_maps (va_at base i) pa s d.valid
              (d.pages (i % 16) (omega arith) (omega arith)) (omega arith) (omega arith))
            (λ rc s' h.
              Ensures-elim (Succeeds (λ rb' s'. Done base (i + 1 + n) 16 rb' s' × (rb' ≡ rb)))
                (is_zero rc) (map_again vm pt base n (i + 1) rb)
                (give_up vm pt pa (va_at base i) rb) s'
                (λ z.
                  map_again-Done n (i + 1) rb s' (omega arith)
                    (Mapped-Done i 16 s s' rb (omega arith) d (h z)))
                (λ _. give_up-Succeeds vm _ pt pa (va_at base i) rb s')))

    abbrev with_page : Ringbuf → ℕ → ℕ → Ringbuf
    with_page rb i mem = record rb { buf = λ j. if j == i then mem else rb.buf j }

    -- A page that `kalloc` gave and `memset` cleared serves round `i`.
    new-Ready :
        (i mem : ℕ) (rb : Ringbuf) (s s1 s2 : S)
        → i < 16
        → mem ≢ 0
        → Done base i i rb s
        → Allocated tr Valid Page s mem s1
        → Kept tr Valid Page s1 s2
        → Ready base i s2 mem (with_page rb i mem)
    new-Ready i mem rb s s1 s2 small ne d a k = record {
      before = record {
        valid = k.valid;
        pages = λ j lt sm. elim (dec_lt j i) [
          | yes old ↦ rw (other j old) (k.pages _ (a.kept.pages _ (d.pages j old sm)))
          | no new ↦ let e : j ≡ i = omega arith in rw (e, self) (k.pages mem (a.page ne))
        ];
        distinct = λ j j' lt lt' sm. elim (dec_lt j' i) [
          | yes old ↦ rw (other j (omega arith), other j' old) (d.distinct j j' lt old sm)
          | no new ↦
              let e : j' ≡ i = omega arith in
              rw (e, self, other j (omega arith))
                (λ q. a.fresh ne (subst (Page s) q (d.pages j (omega arith) (omega arith))))
        ];
        mapped = λ j lt.
            k.same (va_at base j)
            ∙ a.kept.same (va_at base j)
            ∙ d.mapped j lt
            ∙ sym (other (j % 16) (omega arith));
      };
      stored = let e : i % 16 ≡ i = omega arith in rw (e, self);
      page = k.pages mem (a.page ne);
    }
      where
        self : (with_page rb i mem).buf i ≡ mem
        self = ground arith

        other : (j : ℕ) → j < i → (with_page rb i mem).buf j ≡ rb.buf j
        other j lt = ground arith

    -- From round 16 on the pages are there.
    old-Ready :
        (i : ℕ) (rb : Ringbuf) (s : S)
        → 16 ≤ i
        → Done base i i rb s
        → Ready base i s (rb.buf (i % 16)) rb
    old-Ready i rb s large d = record {
      before = record {
        valid = d.valid;
        pages = λ j lt sm. d.pages j (omega arith) sm;
        distinct = λ j j' lt lt' sm. d.distinct j j' lt (omega arith) sm;
        mapped = d.mapped;
      };
      stored = refl;
      page = d.pages (i % 16) (omega arith) (omega arith);
    }

    abbrev PageReady : ℕ → Option (ℕ × Ringbuf) → S → Type 0
    PageReady i none s = Unit
    PageReady i (some (pa, rb)) s = Ready base i s pa rb

    page_for-Ready :
        (i : ℕ) (rb : Ringbuf) (s : S)
        → Done base i i rb s
        → Ensures (PageReady i) (page_for vm rb i s)
    unfolding page_for
    page_for-Ready i rb s d = elim (Bool-cases (ltb i 16)) [
      | inl small ↦ rw small (
          Ensures-bind (λ mem s1. Allocated tr Valid Page s mem s1) (PageReady i) vm.kalloc _ s
            (laws.kalloc_allocates s d.valid)
            (λ mem s1 a.
              Ensures-elim (PageReady i) (mem == 0) _ _ s1 (λ _. tt)
                (λ ne.
                  Ensures-bind (λ _ s2. Kept tr Valid Page s1 s2) (PageReady i)
                    (vm.memset mem 0 4096) _ s1
                    (laws.memset_keeps mem s1 a.kept.valid (a.page (ground arith)))
                    (λ _ s2 k. new-Ready i mem rb s s1 s2 (ground arith) (ground arith) d a k))))
      | inr large ↦ rw large (old-Ready i rb s (ground arith) d)
    ]

    pub map_new-Done :
        (n i : ℕ) (rb : Ringbuf) (s : S)
        → (i + n) * 4096 ≤ base
        → Done base i i rb s
        → Ensures
            (Succeeds (λ rb' s'. Done base (i + n) (i + n) rb' s'))
            (map_new vm pt base n i rb s)
    unfolding map_new
    map_new-Done zero i rb s room d = λ _. (let e : i + 0 ≡ i = omega arith in rw e d)
    map_new-Done (suc n) i rb s room d =
        let e : i + suc n ≡ i + 1 + n = omega arith in
        rw e (
          Ensures-bind (PageReady i) Goal (page_for vm rb i) _ s (page_for-Ready i rb s d)
            (chosen (λ rb' s2 d'. map_new-Done n (i + 1) rb' s2 (omega arith) d')))
      where
        Goal : ℤ × Ringbuf → S → Type 0
        Goal = Succeeds (λ rb' s'. Done base (i + 1 + n) (i + 1 + n) rb' s')

        chosen :
            ((rb' : Ringbuf) (s2 : S)
              → Done base (i + 1) (i + 1) rb' s2
              → Ensures Goal (map_new vm pt base n (i + 1) rb' s2))
            → (page : Option (ℕ × Ringbuf)) (s1 : S) → PageReady i page s1
            → Ensures Goal (
                (elim page as (λ _. Cmd S (ℤ × Ringbuf)) [
                  | none ↦ no_page vm pt (va_at base i) rb
                  | some (pa, rb') ↦ do
                    rc ← vm.mappages pt (va_at base i) pgsize pa user_page
                    elim (is_zero rc) [
                      | true ↦ map_new vm pt base n (i + 1) rb'
                      | false ↦ give_up vm pt pa (va_at base i) rb'
                    ]
                ])
                  s1)
        chosen again none s1 r = no_page-Succeeds vm _ pt (va_at base i) rb s1
        chosen again (some (pa, rb')) s1 r =
            Ensures-bind (λ rc s2. is_zero rc ≡ true → Mapped tr Valid Page s1 (va_at base i) pa s2)
              Goal (vm.mappages pt (va_at base i) pgsize pa user_page) _ s1
              (laws.mappages_maps (va_at base i) pa s1 r.before.valid r.page (omega arith)
                (omega arith))
              (λ rc s2 m.
                Ensures-elim Goal (is_zero rc) (map_new vm pt base n (i + 1) rb')
                  (give_up vm pt pa (va_at base i) rb') s2
                  (λ z. again rb' s2 (
                    let e' : suc i ≡ i + 1 = omega arith in
                    subst (λ k. Done base (i + 1) k rb' s2) e'
                      (Mapped-Done i (suc i) s1 s2 rb' (omega arith) r.before
                        (subst (λ p. Mapped tr Valid Page s1 (va_at base i) p s2) r.stored (m z)))))
                  (λ _. give_up-Succeeds vm _ pt pa (va_at base i) rb' s2))
