-- ===== src/Ringbufs/SameRing.antt =====
-- Commands that change a ring in its pages alone, and rules for them.
use zerocopy_ringbuf.Common.{
  ◌≡◌, refl, ◌∙◌, Bool, true, false, ℤ, if◌then◌else◌, Cmd, pure, ◌>>=◌, Ensures, Ensures-bind,
  Ensures-mono,
}
use zerocopy_ringbuf.Ringbufs.{Ringbuf}
use zerocopy_ringbuf.Ringbufs.Rules.{Ensures-true}

-- Only the pages of a ring differ.
pub record SameRing (rb rb' : Ringbuf) : Type 0 where
  pub refs : rb'.refcount ≡ rb.refcount
  pub named : rb'.name ≡ rb.name

pub SameRing-refl : (rb : Ringbuf) → SameRing rb rb
SameRing-refl rb = record { refs = refl; named = refl }

pub SameRing-trans : {a b c : Ringbuf} → SameRing a b → SameRing b c → SameRing a c
SameRing-trans p q = record { refs = q.refs ∙ p.refs; named = q.named ∙ p.named }

module _ {S : Type 0} where
  -- A command that changes a ring in its pages alone.
  abbrev pub Keeping : Ringbuf → Cmd S (ℤ × Ringbuf) → Type 0
  Keeping rb c = (s : S) → Ensures (λ (_, rb') _. SameRing rb rb') (c s)

  pub bind-Keeping :
      {A : Type 0} (rb : Ringbuf) (m : Cmd S A) (f : A → Cmd S (ℤ × Ringbuf))
      → ((a : A) → Keeping rb (f a))
      → Keeping rb (m >>= f)
  bind-Keeping rb m f h s =
      Ensures-bind (λ _ _. Unit {0}) (λ (_, rb') _. SameRing rb rb') m f s
        (Ensures-true _ (m s) (λ _ _. tt)) (λ a s' _. h a s')

  pub then-Keeping :
      (rb : Ringbuf) (m : Cmd S (ℤ × Ringbuf)) (f : ℤ × Ringbuf → Cmd S (ℤ × Ringbuf))
      → Keeping rb m
      → ((rc : ℤ) (rb' : Ringbuf) → Keeping rb' (f (rc, rb')))
      → Keeping rb (m >>= f)
  then-Keeping rb m f h g s =
      Ensures-bind (λ (_, rb') _. SameRing rb rb') (λ (_, rb') _. SameRing rb rb') m f s (h s)
        (λ (rc, rb') s' p.
          Ensures-mono (λ (_, rb'') _. SameRing rb' rb'') (λ (_, rb'') _. SameRing rb rb'')
            (f (rc, rb') s') (g rc rb' s') (λ _ _ q. SameRing-trans p q))

  pub elim-Keeping :
      (rb : Ringbuf) (b : Bool) (x y : Cmd S (ℤ × Ringbuf))
      → Keeping rb x
      → Keeping rb y
      → Keeping rb (elim b as (λ _. Cmd S (ℤ × Ringbuf)) [ true ↦ x | false ↦ y ])
  elim-Keeping rb true x y h g = h
  elim-Keeping rb false x y h g = g

  pub if-Keeping :
      (rb : Ringbuf) (b : Bool) (x y : Cmd S (ℤ × Ringbuf))
      → Keeping rb x
      → Keeping rb y
      → Keeping rb (if b then x else y)
  if-Keeping rb true x y h g = h
  if-Keeping rb false x y h g = g

  pub pure-Keeping : (rb rb' : Ringbuf) (rc : ℤ) → SameRing rb rb' → Keeping rb (pure (rc, rb'))
  pure-Keeping rb rb' rc h s = h
