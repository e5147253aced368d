-- ===== src/UserRing/Table.antt =====
-- The table of a process's ring buffers: descriptors, `ringbuf_open` and `ringbuf_close`.
use zerocopy_ringbuf.Common.{
  Outcome, ◌⊎◌, ap, ◌∙◌, ℕ, zero, suc, ◌+◌, ◌*◌, ◌^◌, ◌≤◌, ◌<◌, ◌≡◌, ◌≢◌, ◌↔◌, refl, sym, ℤ, pos,
  negsuc, none, some, List, [], ◌∷◌, success, failure, sub64, add64, ◌!=◌, get_elem?,
  get_elem?-set_self, get_elem?-set_ne, set, Bool-cases, inl, inr, length, ok, fault, arith, ◌>>=◌,
}
use zerocopy_ringbuf.UserRing.{
  UserRingBuf, Process, Syscall, is_rd_valid, ring_at, free_entry, enter, fill, put_ring, clear,
  ringbuf_open, ringbuf_close,
}
use zerocopy_ringbuf.UserRing.Counters.{IsOpen, checked-open}

get_elem?-none : {A : Type 0} (xs : List A) (i : ℕ) → (get_elem? xs i ≡ none) ↔ (length xs ≤ i)
get_elem?-none [] i = (λ h. omega arith, λ h. refl)
get_elem?-none (x ∷ xs) zero = (λ h. cc, λ h. elim h [ ])
get_elem?-none (x ∷ xs) (suc i) =
    let ih = get_elem?-none xs i in (λ h. omega (arith, ih.0 h), λ h. ih.1 (omega arith))

-- With a table of ten entries is_rd_valid reads past its end exactly for the descriptor 10.
pub is_rd_valid-fault_iff :
    (rd : ℤ) (s : Process)
    → length s.user_ring_bufs ≡ 10
    → (is_rd_valid rd s ≡ fault) ↔ (rd ≡ pos 10)
unfolding is_rd_valid ring_at
is_rd_valid-fault_iff (negsuc n) s h = (λ e. cc, λ e. cc)
is_rd_valid-fault_iff (pos n) s h = (
  λ e. ground (arith, get_elem?-none s.user_ring_bufs n),
  λ e. ground (arith, get_elem?-none s.user_ring_bufs n),
)

-- Entry `i` of a table is the first that is not in use.
pub record IsFirstFree (rbs : List UserRingBuf) (i : ℕ) : Type 0 where
  pub entry : UserRingBuf
  pub there : get_elem? rbs i ≡ some entry
  pub unused : entry.exists ≢ 1
  pub before : (k : ℕ) (rb : UserRingBuf) → k < i → get_elem? rbs k ≡ some rb → rb.exists ≡ 1

abbrev pub IsFull : List UserRingBuf → Type 0
IsFull rbs = (k : ℕ) (rb : UserRingBuf) → get_elem? rbs k ≡ some rb → rb.exists ≡ 1

free_entry-cases :
    (rbs : List UserRingBuf) (i : ℕ)
    → ((j : ℕ) × IsFirstFree rbs j × (free_entry rbs i ≡ some (i + j)))
      ⊎ (IsFull rbs × (free_entry rbs i ≡ none))
unfolding free_entry
free_entry-cases [] i = inr (λ k rb e. absurd (cc), refl)
free_entry-cases (r ∷ rbs) i = elim (Bool-cases (r.exists != 1)) [
  | inl free ↦
      let z : i ≡ i + 0 = omega arith in
      inl (
        0,
        record {
          entry = r;
          there = refl;
          unused = ground (arith, free);
          before = λ k rb lt e. absurd (omega (arith, lt));
        },
        rw free (ap some z),
      )
  | inr taken ↦
      let in_use : r.exists ≡ 1 = ground (arith, taken) in
      elim (free_entry-cases rbs (i + 1)) [
        | inl (j, f, e) ↦
            let at : i + 1 + j ≡ i + suc j = omega arith in
            inl (
              suc j,
              record {
                entry = f.entry;
                there = f.there;
                unused = f.unused;
                before = λ k rb lt g.
                    behind_used r rbs (suc j) in_use
                      (λ m rb' lt' g'. f.before m rb' (omega (arith, lt')) g') k rb lt g;
              },
              rw taken (e ∙ ap some at),
            )
        | inr (all, e) ↦ inr (
          λ k rb g.
              behind_used r rbs (suc k) in_use (λ m rb' lt g'. all m rb' g') k rb (omega arith) g,
          rw taken e,
        )
      ]
]
  where
    behind_used :
        (r : UserRingBuf) (rbs : List UserRingBuf) (n : ℕ)
        → r.exists ≡ 1
        → ((m : ℕ) (rb : UserRingBuf) → suc m < n → get_elem? rbs m ≡ some rb → rb.exists ≡ 1)
        → (k : ℕ) (rb : UserRingBuf) → k < n
        → get_elem? (r ∷ rbs) k ≡ some rb
        → rb.exists ≡ 1
    behind_used r rbs n e h zero rb lt g = ground (arith, e, g)
    behind_used r rbs n e h (suc k) rb lt g = h k rb lt g

get_elem?-inside :
    (xs : List UserRingBuf) (i : ℕ) (x : UserRingBuf) → get_elem? xs i ≡ some x → i < length xs
get_elem?-inside [] i x e = absurd (cc)
get_elem?-inside (y ∷ xs) zero x e = omega arith
get_elem?-inside (y ∷ xs) (suc i) x e = omega (arith, get_elem?-inside xs i x e)

-- The ring at an address that the kernel gave.
abbrev pub opened : ℕ → UserRingBuf
opened addr = record {
  buf = sub64 addr (31 * 4096);
  book = sub64 (sub64 addr (31 * 4096)) 4096;
  exists = 1;
}

module _ (ringbuf : Syscall) {s t : Process} (name : ℕ → ℕ) (addr0 addr : ℕ)
    (call : ringbuf name (pos 1) addr0 s ≡ ok ((success, addr), t)) where
  -- With a table of ten entries after a system call that succeeds: ringbuf_open returns the number
  -- of the first entry that is not in use and enters a ring there with the buffer 31 pages below
  -- the kernel's address and the book a page lower, and no other entry changes; or every entry is
  -- in use, and it returns -1 and changes nothing, although the kernel has mapped the ring.
  pub ringbuf_open-IsOpen :
      length t.user_ring_bufs ≡ 10
      → ((i : ℕ) × (s' : Process) × IsFirstFree t.user_ring_bufs i
          × (ringbuf_open ringbuf name addr0 s ≡ ok (pos i, s'))
          × IsOpen s' i (opened addr)
          × ((j : ℕ) → i ≢ j → get_elem? s'.user_ring_bufs j ≡ get_elem? t.user_ring_bufs j))
        ⊎ (IsFull t.user_ring_bufs × (ringbuf_open ringbuf name addr0 s ≡ ok (failure, t)))
  unfolding ringbuf_open enter fill put_ring
  ringbuf_open-IsOpen full = elim (free_entry-cases t.user_ring_bufs 0) [
    | inr (all, e) ↦ inr (all, rw (call, ◌>>=◌) (ground (arith, e)))
    | inl (i, f, e0) ↦
        let z : 0 + i ≡ i = omega arith in
        let e : free_entry t.user_ring_bufs 0 ≡ some i = e0 ∙ ap some z in
        inl (
          i,
          record t { user_ring_bufs = set t.user_ring_bufs i (opened addr) },
          f,
          rw (call, ◌>>=◌) (ground (arith, e)),
          record {
            in_table = omega (arith, full, get_elem?-inside t.user_ring_bufs i f.entry f.there);
            entry =
                get_elem?-set_self t.user_ring_bufs i (opened addr)
                  (get_elem?-inside t.user_ring_bufs i f.entry f.there);
            in_use = refl;
          },
          λ j ne. get_elem?-set_ne t.user_ring_bufs (opened addr) ne,
        )
  ]

  -- The ring of a call that returned a descriptor is that of the kernel's address.
  ringbuf_open-opened :
      {i : ℕ} {s' : Process} {ring : UserRingBuf}
      → length t.user_ring_bufs ≡ 10
      → ringbuf_open ringbuf name addr0 s ≡ ok (pos i, s')
      → get_elem? s'.user_ring_bufs i ≡ some ring
      → ring ≡ opened addr
  ringbuf_open-opened {i} {s'} {ring} full run e = elim (ringbuf_open-IsOpen full) [
    | inl (j, s2, _, run2, o, _) ↦
        let same : ◌≡◌ {A = Outcome (ℤ × Process)} (ok (pos i, s')) (ok (pos j, s2)) =
          sym run ∙ run2 in
        let ei : i ≡ j = cc (same) in
        let es : s' ≡ s2 = cc (same) in
        let e2 : get_elem? s2.user_ring_bufs j ≡ some ring = rw (ei, es) at e in cc (e2, o.entry)
    | inr (_, failed) ↦ absurd (cc (sym run ∙ failed))
  ]

-- `ring` was entered by a call of ringbuf_open, of which the kernel answered `addr`.
pub record IsOpenedAt (addr : ℕ) (ring : UserRingBuf) : Type 0 where
  pub syscall : Syscall
  pub name : ℕ → ℕ
  pub asked : ℕ
  pub before : Process
  pub between : Process
  pub after : Process
  pub rd : ℕ
  pub ten : length between.user_ring_bufs ≡ 10
  pub call : syscall name (pos 1) asked before ≡ ok ((success, addr), between)
  pub run : ringbuf_open syscall name asked before ≡ ok (pos rd, after)
  pub entry : get_elem? after.user_ring_bufs rd ≡ some ring

pub IsOpenedAt-opened : (addr : ℕ) (ring : UserRingBuf) → IsOpenedAt addr ring → ring ≡ opened addr
IsOpenedAt-opened addr ring o =
    ringbuf_open-opened o.syscall o.name o.asked addr o.call o.ten o.run o.entry

-- For an open ring whose buffer is 31 pages below an address, and a system call that succeeds on
-- that address: ringbuf_close passes that address to the kernel, returns 0 and empties the entry,
-- and nothing else of what the system call left changes.
pub ringbuf_close_lem :
    (ringbuf : Syscall) {s t : Process} (name : ℕ → ℕ) (rd addr a : ℕ) {rb : UserRingBuf}
    → addr < 2 ^ 64
    → IsOpen s rd rb
    → rb.buf ≡ sub64 addr (31 * 4096)
    → ringbuf name (pos 0) addr s ≡ ok ((success, a), t)
    → ringbuf_close ringbuf (pos rd) name s
      ≡ ok (
        success,
        record t {
          user_ring_bufs = set t.user_ring_bufs rd (record { buf = 0; book = 0; exists = 0 });
        },
      )
unfolding ringbuf_close clear put_ring
ringbuf_close_lem ringbuf name rd addr a {rb} small o e call =
    let same : add64 rb.buf (31 * 4096) ≡ addr = omega arith in
    rw (checked-open o, ◌>>=◌) (rw same (rw (call, ◌>>=◌)))
