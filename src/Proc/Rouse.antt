-- ===== src/Proc/Rouse.antt =====
-- What wakeup and kill of kernel/proc.c do to each process.
use zerocopy_ringbuf.Common.{
  ℕ, zero, suc, ◌+◌, ◌<◌, ◌≡◌, ◌≢◌, ◌⊎◌, inl, inr, refl, ap, ◌∙◌, true, ◌&&◌, ◌==◌, ◌!=◌, leb, ltb,
  if◌then◌else◌, arith, Bool-cases,
}
use zerocopy_ringbuf.Proc.{
  Proc, Procs, ProcState, unused, used, sleeping, runnable, running, zombie, nproc, put,
  is_sleeping, roused, wakeup_from, wakeup, victim, kill_from, kill,
}

pub wakeup_from-at :
    (n i me chan : ℕ) (ps : Procs) (j : ℕ)
    → wakeup_from n i me chan ps j
      ≡ (if (leb i j && ltb j (i + n)) && (j != me) then roused chan (ps j) else ps j)
unfolding wakeup_from
wakeup_from-at zero i me chan ps j = ground arith
wakeup_from-at (suc n) i me chan ps j =
    let ps' : Procs = if i != me then put ps i (roused chan (ps i)) else ps in
    ground (arith, wakeup_from-at n (i + 1) me chan ps' j)

-- wakeup makes exactly the other processes runnable that sleep on the channel.
pub wakeup-at :
    (me chan : ℕ) (ps : Procs) (j : ℕ)
    → wakeup me chan ps j ≡ (if ltb j nproc && (j != me) then roused chan (ps j) else ps j)
unfolding wakeup
wakeup-at me chan ps j =
    let all : (leb 0 j && ltb j (0 + nproc)) ≡ ltb j nproc = ground arith in
    wakeup_from-at nproc 0 me chan ps j
    ∙ ap (λ b. if b && (j != me) then roused chan (ps j) else ps j) all

is_sleeping-eq : (s : ProcState) → is_sleeping s ≡ true → s ≡ sleeping
is_sleeping-eq unused e = cc
is_sleeping-eq used e = cc
is_sleeping-eq sleeping e = refl
is_sleeping-eq runnable e = cc
is_sleeping-eq running e = cc
is_sleeping-eq zombie e = cc

-- A process as it was, or killed, or made runnable from its sleep.
pub record Roused (p q : Proc) : Type 0 where
  pub same_pid : q.pid ≡ p.pid
  pub same_chan : q.chan ≡ p.chan
  pub state_kept : (q.state ≡ p.state) ⊎ ((p.state ≡ sleeping) × (q.state ≡ runnable))

pub Roused-self : (p : Proc) → Roused p p
Roused-self p = record { same_pid = refl; same_chan = refl; state_kept = inl refl }

roused-Roused : (chan : ℕ) (p : Proc) → Roused p (roused chan p)
unfolding roused
roused-Roused chan p = elim (Bool-cases (is_sleeping p.state && (p.chan == chan))) [
  | inl hit ↦ rw hit (record {
    same_pid = refl;
    same_chan = refl;
    state_kept = inr (is_sleeping-eq p.state (ground (arith, hit)), refl);
  })
  | inr miss ↦ rw miss (Roused-self p)
]

pub victim-Roused : (p : Proc) → Roused p (victim p)
unfolding victim
victim-Roused p = elim (Bool-cases (is_sleeping p.state)) [
  | inl hit ↦ rw hit (record {
    same_pid = refl;
    same_chan = refl;
    state_kept = inr (is_sleeping-eq p.state hit, refl);
  })
  | inr miss ↦ rw miss (record { same_pid = refl; same_chan = refl; state_kept = inl refl })
]

pub wakeup-Roused : (me chan : ℕ) (ps : Procs) (j : ℕ) → Roused (ps j) (wakeup me chan ps j)
wakeup-Roused me chan ps j = elim (Bool-cases (ltb j nproc && (j != me))) [
  | inl other ↦ rw (wakeup-at me chan ps j, other) (roused-Roused chan (ps j))
  | inr miss ↦ rw (wakeup-at me chan ps j, miss) (Roused-self (ps j))
]

-- After wakeup no other process of the table is asleep on the channel.
pub wakeup-awake :
    (me chan : ℕ) (ps : Procs) (j : ℕ)
    → j < nproc
    → j ≢ me
    → (wakeup me chan ps j).chan ≡ chan
    → (wakeup me chan ps j).state ≢ sleeping
unfolding roused
wakeup-awake me chan ps j lt ne =
    let other : (ltb j nproc && (j != me)) ≡ true = ground arith in
    elim (Bool-cases (is_sleeping (ps j).state && ((ps j).chan == chan))) [
      | inl hit ↦ rw (wakeup-at me chan ps j, other) (rw hit (λ c e. cc))
      | inr miss ↦
          rw (wakeup-at me chan ps j, other)
            (rw miss (λ c e.
              let s : is_sleeping (ps j).state ≡ true = ap is_sleeping e in
              ground (arith, s, miss, c)))
    ]

pub kill_from-Roused :
    (n i pid : ℕ) (ps : Procs) (j : ℕ) → Roused (ps j) ((kill_from n i pid ps).1 j)
unfolding kill_from
kill_from-Roused zero i pid ps j = Roused-self (ps j)
kill_from-Roused (suc n) i pid ps j = elim (Bool-cases ((ps i).pid == pid)) [
  | inl found ↦ elim (Bool-cases (j == i)) [
    | inl at ↦
        let e : j ≡ i = ground arith in rw (found, kill_from) (rw at (rw e (victim-Roused (ps i))))
    | inr off ↦ rw (found, kill_from) (rw off (Roused-self (ps j)))
  ]
  | inr miss ↦ rw (miss, kill_from) (kill_from-Roused n (i + 1) pid ps j)
]

pub kill-Roused : (pid : ℕ) (ps : Procs) (j : ℕ) → Roused (ps j) ((kill pid ps).1 j)
unfolding kill
kill-Roused pid ps j = kill_from-Roused nproc 0 pid ps j
