-- ===== src/Spinlock.antt =====
-- kernel/spinlock.c: push_off and pop_off on the state of one CPU, and the atomic steps of acquire
-- and release by any number of CPUs on one lock. A CPU is its number.
pub mod Exclusion
pub mod Nesting
mod Tests
use zerocopy_ringbuf.Common.{
  ℕ, suc, zero, ◌≡◌, Bool, true, false, Option, none, some, ◌==◌, ◌&&◌, if◌then◌else◌, ok, panic,
  Cmd,
}

-- `struct cpu` as far as these functions use it, and whether interrupts are on.
pub record Cpu : Type 0 where
  pub noff : ℕ
  pub intena : Bool
  pub interrupts : Bool

unfoldable pub push_off : Cmd Cpu (Unit {0})
push_off c = ok (
  tt,
  record {
    noff = suc c.noff;
    intena = if c.noff == 0 then c.interrupts else c.intena;
    interrupts = false;
  },
)

unfoldable pub pop_off : Cmd Cpu (Unit {0})
pop_off c = if c.interrupts then panic else elim c.noff [
  | zero ↦ panic
  | suc n ↦ ok (tt, record { noff = n; intena = c.intena; interrupts = n == 0 && c.intena })
]

-- Where a CPU is: `spinning` is in the loop of acquire, `taken` is behind it with `lk->cpu` not yet
-- set, and `leaving` is in release with `lk->cpu` reset and the lock still locked.
pub data Place : Type 0 where
  outside : Place
  spinning : Place
  taken : Place
  inside : Place
  leaving : Place

pub record Spinlock : Type 0 where
  pub locked : Bool
  pub cpu : Option ℕ
  pub place : ℕ → Place

abbrev pub is_cpu : Option ℕ → ℕ → Bool
is_cpu none i = false
is_cpu (some c) i = c == i

abbrev pub holding : Spinlock → ℕ → Bool
holding lk i = lk.locked && is_cpu lk.cpu i

abbrev pub moved : ℕ → Place → (ℕ → Place) → ℕ → Place
moved i p place j = if j == i then p else place j

abbrev pub initlock : Spinlock
initlock = record { locked = false; cpu = none; place = λ _. outside }

pub data Step (lk : Spinlock) : Spinlock → Type 0 where
  acquire_start :
      (i : ℕ)
      → lk.place i ≡ outside
      → holding lk i ≡ false
      → Step lk (record lk { place = moved i spinning lk.place })
  acquire_spin :
      (i : ℕ) → lk.place i ≡ spinning → lk.locked ≡ true → Step lk (record lk { locked = true })
  acquire_swap :
      (i : ℕ)
      → lk.place i ≡ spinning
      → lk.locked ≡ false
      → Step lk (record lk { locked = true; place = moved i taken lk.place })
  acquire_end :
      (i : ℕ)
      → lk.place i ≡ taken
      → Step lk (record lk { cpu = some i; place = moved i inside lk.place })
  release_start :
      (i : ℕ)
      → lk.place i ≡ inside
      → holding lk i ≡ true
      → Step lk (record lk { cpu = none; place = moved i leaving lk.place })
  release_end :
      (i : ℕ)
      → lk.place i ≡ leaving
      → Step lk (record lk { locked = false; place = moved i outside lk.place })

pub data Reach (lk : Spinlock) : Spinlock → Type 0 where
  here : Reach lk lk
  next : {m n : Spinlock} → Reach lk m → Step m n → Reach lk n
