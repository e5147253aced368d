-- ===== src/Spinlock/Nesting.antt =====
-- push_off and pop_off of kernel/spinlock.c in matched pairs.
use zerocopy_ringbuf.Common.{
  ℕ, zero, suc, ◌+◌, ◌-◌, ◌≤◌, ◌≡◌, ◌≢◌, Bool, false, ok, Cmd, pure, ◌>>=◌, ◌>>◌, ◌==◌, ◌&&◌,
  if◌then◌else◌, arith, Bool-cases, inl, inr, refl, ◌∙◌,
}
use zerocopy_ringbuf.Spinlock.{Cpu, push_off, pop_off}

-- A command a number of times.
pub times : ℕ → Cmd Cpu (Unit {0}) → Cmd Cpu (Unit {0})
times zero f = pure tt
times (suc n) f = do f; times n f

-- The CPU behind `n + 1` calls of push_off.
abbrev pushed : ℕ → Cpu → Cpu
pushed n c = record {
  noff = c.noff + suc n;
  intena = if c.noff == 0 then c.interrupts else c.intena;
  interrupts = false;
}

abbrev once : Cpu → Cpu
once c = record {
  noff = suc c.noff;
  intena = if c.noff == 0 then c.interrupts else c.intena;
  interrupts = false;
}

times-push_off : (n : ℕ) (c : Cpu) → times (suc n) push_off c ≡ ok (tt, pushed n c)
unfolding times push_off
times-push_off zero c = ground arith
times-push_off (suc n) c = times-push_off n (once c) ∙ ground arith

times-pop_off :
    (m k : ℕ) (e : Bool)
    → times (suc m) pop_off (record { noff = k + suc m; intena = e; interrupts = false })
      ≡ ok (tt, record { noff = k; intena = e; interrupts = k == 0 && e })
unfolding times pop_off
times-pop_off zero k e = ground arith
times-pop_off (suc m) k e =
    let counts : k + suc (suc m) ≡ suc (k + suc m) = omega arith in
    let more : (k + suc m == 0) ≡ false = ground arith in
    rw (counts) (rw (more) (times-pop_off m k e))

restored :
    (noff n m : ℕ) (interrupts intena : Bool)
    → m ≤ n
    → (noff ≢ 0 → interrupts ≡ false)
    → (noff + (n - m) == 0 && (if noff == 0 then interrupts else intena))
      ≡ (if n == m then interrupts else false)
restored noff n m interrupts intena le off = elim (Bool-cases (noff == 0)) [
  | inl outer ↦ ground arith
  | inr inner ↦ let on : interrupts ≡ false = off (ground arith) in ground arith
]

-- For a CPU on which interrupts are off where its noff is not 0: n + 1 calls of push_off and then
-- m + 1 calls of pop_off, at most as many, return; noff has grown by the difference, and
-- interrupts are as they were before if the difference is 0 and off otherwise.
times-push_off-pop_off :
    (n m : ℕ) (c : Cpu)
    → (c.noff ≢ 0 → c.interrupts ≡ false)
    → m ≤ n
    → (c' : Cpu) × ((do times (suc n) push_off; times (suc m) pop_off) c ≡ ok (tt, c'))
      × (c'.noff ≡ c.noff + (n - m))
      × (c'.interrupts ≡ (if n == m then c.interrupts else false))
times-push_off-pop_off n m c off le =
    let k = c.noff + (n - m) in
    let e = if c.noff == 0 then c.interrupts else c.intena in
    let split : c.noff + suc n ≡ k + suc m = omega arith in
    (
      record { noff = k; intena = e; interrupts = k == 0 && e },
      rw (times-push_off n c, ◌>>=◌) (rw split (times-pop_off m k e)),
      refl,
      restored c.noff n m c.interrupts c.intena le off,
    )
