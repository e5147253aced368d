-- ===== src/Common/Outcomes.antt =====
-- What a call of the program can come to, and sequencing over it.
use Prim.Native.Nat.{ℕ}

-- `panic` is the kernel's panic(), `exit` a process's exit(), and `fault` an access to memory or to
-- an array outside of what is there.
pub data Outcome {ℓ} (A : Type ℓ) : Type ℓ where
  ok : A → Outcome A
  panic : Outcome A
  exit : ℕ → Outcome A
  fault : Outcome A

-- A command on a state `S` that returns an `A`.
abbrev pub Cmd : Type 0 → Type 0 → Type 0
Cmd S A = S → Outcome (A × S)

module _ {S : Type 0} where
  abbrev pub pure : {A : Type 0} → A → Cmd S A
  pure a s = ok (a, s)

  infixl 5 ◌>>=◌ ◌>>◌
  abbrev pub ◌>>=◌ : {A B : Type 0} → Cmd S A → (A → Cmd S B) → Cmd S B
  ◌>>=◌ m f s = elim (m s) [ ok (a, s') ↦ f a s' | panic ↦ panic | exit n ↦ exit n | fault ↦ fault ]

  abbrev pub ◌>>◌ : {B : Type 0} → Cmd S (Unit {0}) → Cmd S B → Cmd S B
  m >> k = m >>= λ _. k

-- The postcondition of the runs that return.
abbrev pub Ensures : {A S : Type 0} → (A → S → Type 0) → Outcome (A × S) → Type 0
Ensures P (ok (a, s)) = P a s
Ensures P _ = Unit

-- The rule for a sequence: what the first part ensures, the rest starts from.
pub Ensures-bind :
    {A B S : Type 0} (P : A → S → Type 0) (Q : B → S → Type 0) (m : Cmd S A) (f : A → Cmd S B)
    (s : S)
    → Ensures P (m s)
    → ((a : A) (s' : S) → P a s' → Ensures Q (f a s'))
    → Ensures Q ((m >>= f) s)
Ensures-bind {A} {B} {S} P Q m f s h k = go (m s) h
  where
    go :
        (o : Outcome (A × S))
        → Ensures P o
        → Ensures Q
            (elim o [ ok (a, s') ↦ f a s' | panic ↦ panic | exit n ↦ exit n | fault ↦ fault ])
    go (ok (a, s')) h = k a s' h
    go panic h = tt
    go (exit n) h = tt
    go fault h = tt

pub Ensures-mono :
    {A S : Type 0} (P Q : A → S → Type 0) (o : Outcome (A × S))
    → Ensures P o
    → ((a : A) (s : S) → P a s → Q a s)
    → Ensures Q o
Ensures-mono P Q (ok (a, s)) h k = k a s h
Ensures-mono P Q panic h k = tt
Ensures-mono P Q (exit n) h k = tt
Ensures-mono P Q fault h k = tt
