-- ===== src/Ringbufs/Keeping.antt =====
-- The mapping functions of kernel/ringbuf.c change a ring in its pages alone.
use zerocopy_ringbuf.Common.{
  ℕ, zero, suc, ◌+◌, ◌%◌, refl, true, false, Option, none, some, ℤ, pos, is_zero, is_neg, success,
  failure, ltb, ◌==◌, Cmd, pure, ◌>>=◌, Ensures, Ensures-bind, Ensures-mono, Bool-cases, inl, inr,
  sub64,
}
use zerocopy_ringbuf.Kstring.{Chars, strncpy}
use zerocopy_ringbuf.Paging.{Paging}
use zerocopy_ringbuf.Ringbufs.{Ringbuf, pgsize}
use zerocopy_ringbuf.Ringbufs.Pages.{
  va_at, page_for, map_new, map_again, no_page, give_up, mappages_to_proc, mappage_to_book,
  new_book, old_book, validate_pages, copyout_user_addr, find_contiguous_pages, user_page,
}
use zerocopy_ringbuf.Ringbufs.Calls.{book_va, check, create_pages}
use zerocopy_ringbuf.Ringbufs.Rules.{Ensures-elim, Ensures-true}
use zerocopy_ringbuf.Ringbufs.SameRing.{
  SameRing, SameRing-refl, SameRing-trans, Keeping, bind-Keeping, then-Keeping, elim-Keeping,
  if-Keeping, pure-Keeping,
}

module _ {S : Type 0} (vm : Paging S) where
  no_page-Keeping : (pt va : ℕ) (rb : Ringbuf) → Keeping rb (no_page vm pt va rb)
  unfolding no_page
  no_page-Keeping pt va rb =
      bind-Keeping rb (vm.uvmdealloc pt va 4096) _
        (λ _. pure-Keeping rb rb failure (SameRing-refl rb))

  give_up-Keeping : (pt pa va : ℕ) (rb : Ringbuf) → Keeping rb (give_up vm pt pa va rb)
  unfolding give_up
  give_up-Keeping pt pa va rb = bind-Keeping rb (vm.kfree pa) _ (λ _.
      bind-Keeping rb (vm.uvmdealloc pt va 4096) _
        (λ _. pure-Keeping rb rb failure (SameRing-refl rb)))

  map_again-Keeping : (pt base n i : ℕ) (rb : Ringbuf) → Keeping rb (map_again vm pt base n i rb)
  unfolding map_again
  map_again-Keeping pt base zero i rb = pure-Keeping rb rb success (SameRing-refl rb)
  map_again-Keeping pt base (suc n) i rb =
      bind-Keeping rb (vm.mappages pt (va_at base i) 4096 (rb.buf (i % 16)) user_page) _ (λ rc.
        elim-Keeping rb (is_zero rc) _ _ (map_again-Keeping pt base n (i + 1) rb)
          (give_up-Keeping pt _ _ rb))

  abbrev PageSame : Ringbuf → Option (ℕ × Ringbuf) → S → Type 0
  PageSame rb none s = Unit
  PageSame rb (some (pa, rb')) s = SameRing rb rb'

  page_for-SameRing : (i : ℕ) (rb : Ringbuf) (s : S) → Ensures (PageSame rb) (page_for vm rb i s)
  unfolding page_for
  page_for-SameRing i rb s = elim (Bool-cases (ltb i 16)) [
    | inl small ↦ rw small (
        Ensures-bind (λ _ _. Unit {0}) (PageSame rb) vm.kalloc _ s
          (Ensures-true _ (vm.kalloc s) (λ _ _. tt))
          (λ mem s1 _.
            Ensures-elim (PageSame rb) (mem == 0) _ _ s1 (λ _. tt)
              (λ _.
                Ensures-bind (λ _ _. Unit {0}) (PageSame rb) (vm.memset mem 0 4096) _ s1
                  (Ensures-true _ (vm.memset mem 0 4096 s1) (λ _ _. tt))
                  (λ _ _ _. record { refs = refl; named = refl }))))
    | inr large ↦ rw large (SameRing-refl rb)
  ]

  map_new-Keeping : (pt base n i : ℕ) (rb : Ringbuf) → Keeping rb (map_new vm pt base n i rb)
  unfolding map_new
  map_new-Keeping pt base zero i rb s = SameRing-refl rb
  map_new-Keeping pt base (suc n) i rb s =
      Ensures-bind (PageSame rb) Goal (page_for vm rb i) _ s (page_for-SameRing i rb s)
        (chosen (λ rb'. map_new-Keeping pt base n (i + 1) rb'))
    where
      Goal : ℤ × Ringbuf → S → Type 0
      Goal r _ = SameRing rb r.1

      chosen :
          ((rb' : Ringbuf) → Keeping rb' (map_new vm pt base n (i + 1) rb'))
          → (page : Option (ℕ × Ringbuf)) (s1 : S) → PageSame rb page s1
          → Ensures Goal (
              (elim page as (λ _. Cmd S (ℤ × Ringbuf)) [
                | none ↦ no_page vm pt (va_at base i) rb
                | some (pa, rb') ↦ do
                  rc ← vm.mappages pt (va_at base i) pgsize pa user_page
                  elim (is_zero rc) [
                    | true ↦ map_new vm pt base n (i + 1) rb'
                    | false ↦ give_up vm pt pa (va_at base i) rb'
                  ]
              ])
                s1)
      chosen again none s1 r = no_page-Keeping pt (va_at base i) rb s1
      chosen again (some (pa, rb')) s1 r =
          Ensures-mono (λ (_, rb'') _. SameRing rb' rb'') Goal _
            (bind-Keeping rb' (vm.mappages pt (va_at base i) pgsize pa user_page) _
              (λ rc.
                elim-Keeping rb' (is_zero rc) _ _ (again rb')
                  (give_up-Keeping pt pa (va_at base i) rb'))
              s1)
            (λ _ _ q. SameRing-trans r q)

  mappages_to_proc-Keeping :
      (pt : ℕ) (rb : Ringbuf) (base num : ℕ) → Keeping rb (mappages_to_proc vm pt rb base num)
  unfolding mappages_to_proc
  mappages_to_proc-Keeping pt rb base num =
      if-Keeping rb (is_neg rb.refcount) _ _ (pure-Keeping rb rb failure (SameRing-refl rb)) (
        if-Keeping rb (is_zero rb.refcount) _ _ (map_new-Keeping pt base num 0 rb)
          (map_again-Keeping pt base num 0 rb))

  mappage_to_book-Keeping :
      (pt : ℕ) (rb : Ringbuf) (va : ℕ) → Keeping rb (mappage_to_book vm pt rb va)
  unfolding mappage_to_book new_book old_book
  mappage_to_book-Keeping pt rb va =
      if-Keeping rb (is_zero rb.refcount) _ _
        (bind-Keeping rb vm.kalloc _ (λ mem.
          elim-Keeping rb (mem == 0) _ _ (no_page-Keeping pt va rb) (
            bind-Keeping rb (vm.memset mem 0 4096) _ (λ _.
              bind-Keeping rb (vm.mappages pt va 4096 mem user_page) _ (λ rc.
                elim-Keeping rb (is_zero rc) _ _
                  (pure-Keeping rb (record rb { book = mem }) success
                    (record { refs = refl; named = refl }))
                  (give_up-Keeping pt mem va rb))))))
        (bind-Keeping rb (vm.mappages pt va 4096 rb.book user_page) _ (λ rc.
          elim-Keeping rb (is_zero rc) _ _ (pure-Keeping rb rb success (SameRing-refl rb))
            (give_up-Keeping pt rb.book va rb)))

  -- `create_pages` returns the ring with no process counted and with the name given.
  pub create_pages-SameRing :
      (junk : Ringbuf) (pt : ℕ) (name : Chars) (addr : ℕ) (s : S)
      → Ensures
          (λ (_, rb) _.
            SameRing (record junk { refcount = pos 0; name = strncpy junk.name name 16 }) rb)
          (create_pages vm junk pt name addr s)
  unfolding create_pages
  create_pages-SameRing junk pt name addr =
      bind-Keeping new (find_contiguous_pages vm pt 34) _ (λ (rc, guard). check-Keeping rc new _ (
        let base = sub64 guard pgsize in
        then-Keeping new (mappages_to_proc vm pt new base 32) _
          (mappages_to_proc-Keeping pt new base 32)
          (λ rc rb. check-Keeping rc rb _ (
            bind-Keeping rb (validate_pages vm pt base) _ (λ rc. check-Keeping rc rb _ (
              then-Keeping rb (mappage_to_book vm pt rb (book_va base)) _
                (mappage_to_book-Keeping pt rb (book_va base))
                (λ rc rb. check-Keeping rc rb _ (
                  bind-Keeping rb (validate_pages vm pt (book_va base)) _ (λ rc.
                    check-Keeping rc rb _ (
                      bind-Keeping rb (copyout_user_addr vm pt base addr) _ (λ rc.
                        check-Keeping rc rb _
                          (pure-Keeping rb rb success (SameRing-refl rb)))))))))))))
    where
      new : Ringbuf
      new = record junk { refcount = pos 0; name = strncpy junk.name name 16 }

      check-Keeping :
          (rc : ℤ) (rb : Ringbuf) (rest : Cmd S (ℤ × Ringbuf))
          → Keeping rb rest
          → Keeping rb (check vm junk rc rb rest)
      check-Keeping rc rb rest h =
          elim-Keeping rb (is_zero rc) rest (pure (failure, rb)) h
            (pure-Keeping rb rb failure (SameRing-refl rb))
