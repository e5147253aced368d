-- ===== src/Ringbufs/Entry.antt =====
-- Changes of one entry of the kernel's table, and of the memory beside it.
use zerocopy_ringbuf.Common.{
  ℕ, zero, suc, ◌<◌, ◌≡◌, ◌≢◌, refl, sym, ap, ◌∙◌, Option, none, some, List, [], ◌∷◌, arith,
  Outcome, ok, panic, exit, fault, Cmd, Ensures, get_elem?, set, length, get_elem?-set_self,
  get_elem?-set_ne,
}
use mathlib.Core.Path.{subst}
use zerocopy_ringbuf.Ringbufs.{Ringbuf, Kernel, get_ringbuf_index, put_ringbuf, ringbuf_at, lift}

-- Entry `i` of the table becomes `rb`, and no other entry changes.
pub record Entry {S : Type 0} (i : ℕ) (k : Kernel S) (rb : Ringbuf) (k' : Kernel S) : Type 0 where
  pub entry : get_elem? k'.ringbufs i ≡ some rb
  pub others : (j : ℕ) → i ≢ j → get_elem? k'.ringbufs j ≡ get_elem? k.ringbufs j

get_elem?-lt : {A : Type 0} (xs : List A) (i : ℕ) {x : A} → get_elem? xs i ≡ some x → i < length xs
get_elem?-lt [] i h = absurd (cc)
get_elem?-lt (x ∷ xs) zero h = omega arith
get_elem?-lt (x ∷ xs) (suc i) h = omega (arith, get_elem?-lt xs i h)

module _ {S : Type 0} where
  pub lift-Ensures :
      {A : Type 0} (P : A → S → Type 0) (c : Cmd S A) (k : Kernel S)
      → Ensures P (c k.machine)
      → Ensures (λ a k'. P a k'.machine × (k'.ringbufs ≡ k.ringbufs)) (lift c k)
  unfolding lift
  lift-Ensures {A} P c k h = go (c k.machine) h
    where
      go :
          (o : Outcome (A × S))
          → Ensures P o
          → Ensures
              (λ a k'. P a k'.machine × (k'.ringbufs ≡ k.ringbufs))
              (elim o [
                | ok (a, s) ↦ ok (a, record k { machine = s })
                | panic ↦ panic
                | exit n ↦ exit n
                | fault ↦ fault
              ])
      go (ok (a, s)) p = (p, refl)
      go panic p = tt
      go (exit n) p = tt
      go fault p = tt

  pub put_ringbuf-Entry :
      (i : ℕ) (rb : Ringbuf) (k : Kernel S) → Ensures (λ _ k'. Entry i k rb k') (put_ringbuf i rb k)
  unfolding put_ringbuf
  put_ringbuf-Entry i rb k = go (get_elem? k.ringbufs i) refl
    where
      go :
          (o : Option Ringbuf)
          → get_elem? k.ringbufs i ≡ o
          → Ensures
              (λ _ k'. Entry i k rb k')
              (elim o [
                | none ↦ fault
                | some _ ↦ ok (tt {0}, record k { ringbufs = set k.ringbufs i rb })
              ])
      go none e = tt
      go (some old) e = record {
        entry = get_elem?-set_self k.ringbufs i rb (get_elem?-lt k.ringbufs i e);
        others = λ j ne. get_elem?-set_ne k.ringbufs rb ne;
      }

  pub ringbuf_at-some :
      (i : ℕ) (rb : Ringbuf) (k : Kernel S)
      → get_elem? k.ringbufs i ≡ some rb
      → ringbuf_at i k ≡ ok (rb, k)
  unfolding ringbuf_at
  ringbuf_at-some i rb k h = ground arith

  pub Entry-at :
      {k k1 k' : Kernel S} {rb : Ringbuf}
      → k1.ringbufs ≡ k.ringbufs
      → Entry (get_ringbuf_index k1.ringbufs) k1 rb k'
      → Entry (get_ringbuf_index k.ringbufs) k rb k'
  Entry-at {k' = k'} {rb = rb} e h = record {
    entry = subst (λ r. get_elem? k'.ringbufs (get_ringbuf_index r) ≡ some rb) e h.entry;
    others = λ j ne.
        h.others j (subst (λ r. get_ringbuf_index r ≢ j) (sym e) ne) ∙ ap (λ r. get_elem? r j) e;
  }

  -- The table is read from the state before or after a change of the memory.
  pub Entry-after :
      {i : ℕ} {k k1 k2 : Kernel S} {rb : Ringbuf}
      → k2.ringbufs ≡ k1.ringbufs
      → Entry i k rb k1
      → Entry i k rb k2
  Entry-after {i} e h = record {
    entry = ap (λ r. get_elem? r i) e ∙ h.entry;
    others = λ j ne. ap (λ r. get_elem? r j) e ∙ h.others j ne;
  }

  pub Entry-trans :
      {i : ℕ} {k k1 k2 : Kernel S} {a b : Ringbuf}
      → Entry i k a k1
      → Entry i k1 b k2
      → Entry i k b k2
  Entry-trans p q = record { entry = q.entry; others = λ j ne. q.others j ne ∙ p.others j ne }
