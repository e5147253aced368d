-- ===== src/Ringbufs/Search.antt =====
-- `find_contiguous_pages` of kernel/ringbuf.c, and which of the pages found its callers use.
use zerocopy_ringbuf.Common.{
  ℕ, zero, suc, ◌+◌, ◌-◌, ◌≤◌, ◌<◌, ◌≡◌, refl, ◌∙◌, true, ℤ, is_zero, success, failure, arith, ok,
  ◌==◌, ◌>>=◌, Bool-cases, inl, inr, sub64,
}
use native.Mathlib.Decide.{dec_lt}
use mathlib.Core.Path.{subst}
use zerocopy_ringbuf.Paging.{Paging}
use zerocopy_ringbuf.Ringbufs.Pages.{
  page_va, top_va, search_pages, search, find_contiguous_pages, va_at,
}
use zerocopy_ringbuf.Ringbufs.Calls.{book_va}

-- `num` unmapped pages under the base: from the base itself on, where nothing mapped was met
-- (`edge` 0), or from the page below it on, where the base is the last mapped page met (`edge` 1).
pub record IsGap (tr : ℕ → ℕ) (num base edge : ℕ) : Type 0 where
  pub top : ℕ
  pub base_eq : base ≡ page_va top
  pub small : edge ≤ 1
  pub room : num + edge ≤ top
  pub high : top ≤ search_pages + 1
  pub unmapped : (j : ℕ) → edge ≤ j → j < num + edge → tr (page_va (top - j)) ≡ 0

-- The state of the search at page `n`: the `count` pages above it are unmapped.
record IsRun (tr : ℕ → ℕ) (n count base edge : ℕ) : Type 0 where
  base_eq : base ≡ page_va (n + count + edge)
  small : edge ≤ 1
  high : n + count + edge ≤ search_pages + 1
  unmapped : (j : ℕ) → n < j → j ≤ n + count → tr (page_va j) ≡ 0

module _ {S : Type 0} (vm : Paging S) (pt : ℕ) (tr : ℕ → ℕ) (s : S)
    (reads : (va : ℕ) → vm.walkaddr pt va s ≡ ok (tr va, s)) where
  search-IsGap :
      (num n count base edge : ℕ)
      → IsRun tr n count base edge
      → (r : ℤ × ℕ) × (search vm pt num n count base s ≡ ok (r, s))
        × (is_zero r.0 ≡ true → (e : ℕ) × IsGap tr num r.1 e)
  unfolding search
  search-IsGap num zero count base edge run = ((failure, base), refl, λ e. absurd (cc))
  search-IsGap num (suc n) count base edge run = elim (Bool-cases (tr (page_va (suc n)) == 0)) [
    | inl free ↦ elim (Bool-cases (count + 1 == num)) [
      | inl last ↦ (
        (success, base),
        rw (reads, ◌>>=◌) (rw (free, last)),
        λ _. (
          edge,
          record {
            top = suc n + count + edge;
            base_eq = run.base_eq;
            small = run.small;
            room = ground arith;
            high = run.high;
            unmapped = λ j lo hi. elim (dec_lt (suc n) (suc n + count + edge - j)) [
              | yes above ↦ run.unmapped (suc n + count + edge - j) above (omega arith)
              | no here ↦
                  let e : suc n + count + edge - j ≡ suc n = ground arith in rw e (ground arith)
            ];
          },
        ),
      )
      | inr more ↦
          let next_run : IsRun tr n (count + 1) base edge = record {
            base_eq = run.base_eq ∙ omega arith;
            small = run.small;
            high = omega (arith, run.high);
            unmapped = λ j lo hi. elim (dec_lt (suc n) j) [
              | yes above ↦ run.unmapped j above (omega arith)
              | no here ↦ let e : j ≡ suc n = omega arith in rw e (ground arith)
            ];
          } in
          let (r, runs, gap) = search-IsGap num n (count + 1) base edge next_run in
          (r, rw (reads, ◌>>=◌) (rw (free, more) runs), gap)
    ]
    | inr taken ↦
        let reset_run : IsRun tr n 0 (page_va (suc n)) 1 = record {
          base_eq = omega arith;
          small = omega arith;
          high = omega (arith, run.high);
          unmapped = λ j lo hi. absurd (omega arith);
        } in
        let (r, runs, gap) = search-IsGap num n 0 (page_va (suc n)) 1 reset_run in
        (r, rw (reads, ◌>>=◌) (rw taken runs), gap)
  ]

  -- Where walkaddr returns and changes nothing, find_contiguous_pages returns and changes nothing,
  -- and if it returns 0 then the asked number of pages under the base that it reports is unmapped:
  -- from the base on where no mapped page was met, and from the page below it on otherwise.
  pub find_contiguous_pages-IsGap :
      (num : ℕ)
      → (r : ℤ × ℕ) × (find_contiguous_pages vm pt num s ≡ ok (r, s))
        × (is_zero r.0 ≡ true → (e : ℕ) × IsGap tr num r.1 e)
  unfolding find_contiguous_pages
  find_contiguous_pages-IsGap num = search-IsGap num search_pages 0 top_va 0 (record {
    base_eq = omega arith;
    small = omega arith;
    high = omega arith;
    unmapped = λ j lo hi. absurd (omega arith);
  })

-- The 32 pages and the book page that create_ringbuf maps under the base of a gap of 34 pages are
-- unmapped.
create-unmapped :
    (tr : ℕ → ℕ) (base edge : ℕ)
    → IsGap tr 34 base edge
    → ((i : ℕ) → i < 32 → tr (va_at (sub64 base 4096) i) ≡ 0) × (tr (book_va (sub64 base 4096)) ≡ 0)
create-unmapped tr base edge g = (
  λ i lt.
      subst (λ a. tr a ≡ 0) (omega (arith, g.base_eq))
        (g.unmapped (i + 1) (omega arith) (omega arith)),
  subst (λ a. tr a ≡ 0) (omega (arith, g.base_eq)) (g.unmapped 33 (omega arith) (omega arith)),
)

-- The 32 pages that append_ringbuf maps under the base of a gap of 34 pages are unmapped, and its
-- book page is unmapped where the search met a mapped page at the base.
append-unmapped :
    (tr : ℕ → ℕ) (base edge : ℕ)
    → IsGap tr 34 base edge
    → ((i : ℕ) → i < 32 → tr (va_at (sub64 (sub64 base 4096) 4096) i) ≡ 0)
      × (edge ≡ 1 → tr (book_va (sub64 (sub64 base 4096) 4096)) ≡ 0)
append-unmapped tr base edge g = (
  λ i lt.
      subst (λ a. tr a ≡ 0) (omega (arith, g.base_eq))
        (g.unmapped (i + 2) (omega arith) (omega arith)),
  λ e. subst (λ a. tr a ≡ 0) (omega (arith, g.base_eq)) (g.unmapped 34 (omega arith) (omega arith)),
)
