-- ===== src/Ringbufs/Rules.antt =====
-- Rules for the steps of the mapping functions of kernel/ringbuf.c, and their failing ends.
use zerocopy_ringbuf.Common.{
  ℕ, ◌≡◌, refl, Bool, true, false, ℤ, is_zero, Outcome, Cmd, Ensures, Ensures-bind, Ensures-mono,
}
use zerocopy_ringbuf.Paging.{Paging}
use zerocopy_ringbuf.Ringbufs.{Ringbuf}
use zerocopy_ringbuf.Ringbufs.Pages.{no_page, give_up}

module _ {S : Type 0} where
  -- What a result of 0 says.
  abbrev pub Succeeds : (Ringbuf → S → Type 0) → ℤ × Ringbuf → S → Type 0
  Succeeds Q r s = is_zero r.0 ≡ true → Q r.1 s

  pub Ensures-elim :
      {A : Type 0} (R : A → S → Type 0) (b : Bool) (x y : Cmd S A) (s : S)
      → (b ≡ true → Ensures R (x s))
      → (b ≡ false → Ensures R (y s))
      → Ensures R ((elim b as (λ _. Cmd S A) [ true ↦ x | false ↦ y ]) s)
  Ensures-elim R true x y s h g = h refl
  Ensures-elim R false x y s h g = g refl

  pub Ensures-true :
      {A : Type 0} (R : A → S → Type 0) (o : Outcome (A × S))
      → ((a : A) (s : S) → R a s)
      → Ensures R o
  Ensures-true {A} R o h = Ensures-mono (λ _ _. Unit {0}) R o (trivial o) (λ a s _. h a s)
    where
      trivial : (r : Outcome (A × S)) → Ensures (λ _ _. Unit {0}) r
      trivial (Outcome.ok (a, s')) = tt
      trivial Outcome.panic = tt
      trivial (Outcome.exit n) = tt
      trivial Outcome.fault = tt

  module _ (vm : Paging S) (Q : Ringbuf → S → Type 0) where
    pub no_page-Succeeds :
        (pt va : ℕ) (rb : Ringbuf) (s : S) → Ensures (Succeeds Q) (no_page vm pt va rb s)
    unfolding no_page
    no_page-Succeeds pt va rb s =
        Ensures-bind (λ _ _. Unit {0}) (Succeeds Q) (vm.uvmdealloc pt va 4096) _ s
          (Ensures-true _ _ (λ _ _. tt)) (λ _ s' _ e. absurd (cc))

    pub give_up-Succeeds :
        (pt pa va : ℕ) (rb : Ringbuf) (s : S) → Ensures (Succeeds Q) (give_up vm pt pa va rb s)
    unfolding give_up
    give_up-Succeeds pt pa va rb s =
        Ensures-bind (λ _ _. Unit {0}) (Succeeds Q) (vm.kfree pa) _ s (Ensures-true _ _ (λ _ _. tt))
          (λ _ s' _.
            Ensures-bind (λ _ _. Unit {0}) (Succeeds Q) (vm.uvmdealloc pt va 4096) _ s'
              (Ensures-true _ _ (λ _ _. tt)) (λ _ s'' _ e. absurd (cc)))
