-- ===== src/Spinlock/Tests.antt =====
-- Tests of kernel/spinlock.c: CPU 0 takes the lock while CPU 1 waits for it.
use zerocopy_ringbuf.Common.{ℕ, ◌≡◌, refl, true, false, some, ok}
use zerocopy_ringbuf.Spinlock.{
  Cpu, push_off, pop_off, Place, outside, spinning, taken, inside, Spinlock, moved, initlock, Reach,
  here, next, acquire_start, acquire_spin, acquire_swap, acquire_end,
}
use zerocopy_ringbuf.Spinlock.Exclusion.{IsExclusive, Reach-IsExclusive}

abbrev waiting : ℕ → Place
waiting = moved 1 spinning (moved 0 spinning (λ _. outside))

abbrev contended : Spinlock
contended = record { locked = true; cpu = some 0; place = moved 0 inside (moved 0 taken waiting) }

contended-Reach : Reach initlock contended
contended-Reach =
    next
      (next
        (next (next (next here (acquire_start 0 refl refl)) (acquire_start 1 refl refl))
          (acquire_swap 0 refl refl))
        (acquire_spin 1 refl refl))
      (acquire_end 0 refl)

Reach-IsExclusive_example : IsExclusive contended
Reach-IsExclusive_example = Reach-IsExclusive contended-Reach

abbrev fresh_cpu : Cpu
fresh_cpu = record { noff = 0; intena = false; interrupts = true }

push_first : push_off fresh_cpu ≡ ok (tt, record { noff = 1; intena = true; interrupts = false })
unfolding push_off
push_first = refl

pop_last :
    pop_off (record { noff = 1; intena = true; interrupts = false })
    ≡ ok (tt, record { noff = 0; intena = true; interrupts = true })
unfolding pop_off
pop_last = refl
