-- ===== src/Ringbufs/Flat.antt =====
-- A small memory management that meets the laws which the ring buffers rely on: pages are handed out
-- in order and never reused, and a page table is a function. For tests and witnesses only.
use zerocopy_ringbuf.Common.{
  ℕ, zero, suc, ◌+◌, ◌*◌, ◌%◌, ◌/◌, ◌≤◌, ◌<◌, ◌≡◌, refl, true, ◌&&◌, ℤ, is_zero, success, failure,
  arith, ltb, ◌==◌, if◌then◌else◌, ok, panic, Cmd, Bool-cases, inl, inr, pure, Ensures,
}
use zerocopy_ringbuf.Paging.{Paging}
use zerocopy_ringbuf.Paging.Laws.{Allocated, Mapped, IsPaging}

-- `next` is the number of the first page that was never handed out; page 0 is none.
pub record Flat : Type 0 where
  pub next : ℕ
  pub limit : ℕ
  pub table : ℕ → ℕ → ℕ
  pub words : ℕ → ℕ

abbrev kalloc : Cmd Flat ℕ
kalloc s =
    if ltb s.next s.limit then ok (s.next * 4096, record s { next = s.next + 1 }) else ok (0, s)

abbrev enter : ℕ → ℕ → ℕ → Flat → Flat
enter pt page pa s = record s { table = λ p i. if p == pt && i == page then pa else s.table p i }

abbrev mappages : ℕ → ℕ → ℕ → Cmd Flat ℤ
mappages pt va pa s =
    if s.table pt (va / 4096) == 0 then ok (success, enter pt (va / 4096) pa s) else panic

abbrev uvmunmap : ℕ → ℕ → ℕ → Cmd Flat (Unit {0})
uvmunmap pt page zero s = ok (tt, s)
uvmunmap pt page (suc n) s =
    let rest = uvmunmap pt (page + 1) n (enter pt page 0 s) in
    if s.table pt page == 0 then panic else rest

abbrev copyout : ℕ → ℕ → ℕ → Cmd Flat ℤ
copyout pt dst v s =
    if s.table pt (dst / 4096) == 0
    then ok (failure, s)
    else ok (
      success,
      record s { words = λ a. if a == s.table pt (dst / 4096) + dst % 4096 then v else s.words a },
    )

abbrev pub flat : Paging Flat
flat = record {
  kalloc = kalloc;
  kfree = λ pa. pure tt;
  memset = λ dst c n. pure tt;
  walkaddr = λ pt va s. ok (s.table pt (va / 4096), s);
  mappages = λ pt va size pa perm. mappages pt va pa;
  uvmunmap = λ pt va n free. uvmunmap pt (va / 4096) n;
  uvmdealloc = λ pt old new. pure new;
  copyout = copyout;
  load = λ pa s. ok (s.words pa, s);
}

abbrev pub tr : ℕ → Flat → ℕ → ℕ
tr pt s va = s.table pt (va / 4096)

abbrev pub Valid : Flat → Type 0
Valid s = 1 ≤ s.next

abbrev pub IsPage : Flat → ℕ → Type 0
IsPage s pa = pa < s.next * 4096

kalloc-Allocated :
    (pt : ℕ) (s : Flat)
    → Valid s
    → Ensures (λ mem s'. Allocated (tr pt) Valid IsPage s mem s') (kalloc s)
kalloc-Allocated pt s v = elim (Bool-cases (ltb s.next s.limit)) [
  | inl more ↦ rw more (record {
    kept = record { valid = omega arith; same = λ va. refl; pages = λ pa q. omega arith };
    page = λ ne. omega arith;
    fresh = λ ne. omega arith;
  })
  | inr out ↦ rw out (record {
    kept = record { valid = v; same = λ va. refl; pages = λ pa q. q };
    page = λ ne. absurd (ne refl);
    fresh = λ ne. absurd (ne refl);
  })
]

mappages-Mapped :
    (pt va pa : ℕ) (s : Flat)
    → Valid s
    → Ensures
        (λ rc s'. is_zero rc ≡ true → Mapped (tr pt) Valid IsPage s va pa s')
        (mappages pt va pa s)
mappages-Mapped pt va pa s v = elim (Bool-cases (s.table pt (va / 4096) == 0)) [
  | inl free ↦ rw free (λ _. record {
    valid = v;
    pages = λ p q. q;
    here = ground arith;
    others = λ w ne. ground arith;
  })
  | inr taken ↦ rw taken tt
]

pub flat-IsPaging : (pt : ℕ) → IsPaging (tr pt) Valid IsPage flat pt
flat-IsPaging pt = record {
  walkaddr_reads = λ va s v. refl;
  kalloc_allocates = λ s v. kalloc-Allocated pt s v;
  memset_keeps = λ mem s v p. record { valid = v; same = λ va. refl; pages = λ pa q. q };
  mappages_maps = λ va pa s v p a b. mappages-Mapped pt va pa s v;
}
