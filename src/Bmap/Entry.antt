-- ===== src/Bmap/Entry.antt =====
-- map_entry of an inode's indirect block fills a slot.
use zerocopy_ringbuf.Common.{
  ℕ, ◌+◌, ◌-◌, ◌/◌, ◌%◌, ◌^◌, ◌≡◌, ◌≢◌, ◌<◌, refl, sym, ap, ◌∙◌, false, ltb, ◌==◌, arith,
  Bool-cases, inl, inr,
}
use mathlib.Core.Path.{subst}
use zerocopy_ringbuf.Blocks.{Bytes, Data, bpb, bblock, bit, balloc, write_block}
use zerocopy_ringbuf.Blocks.Used.{put-at, put-off}
use zerocopy_ringbuf.Blocks.Alloc.{Allocated, balloc_lem}
use zerocopy_ringbuf.Bmap.{Inode, ndirect, uint_at, put_uint, map_entry}
use zerocopy_ringbuf.Bmap.Words.{uint_at-put_uint, uint_at-put_uint_off}
use zerocopy_ringbuf.Bmap.Slots.{slot, IsInode, Added, fresh-slot}
use zerocopy_ringbuf.Bmap.Filled.{Filled, unchanged, added, some_block}

-- The indirect block with a fresh block for one of its entries.
entry-Added :
    (i r : ℕ) (ip : Inode) (d d1 : Data)
    → IsInode ip d
    → i < 256
    → ip.addrs ndirect ≢ 0
    → Allocated d r d1
    → Added
        (13 + i)
        r
        ip
        d
        ip
        (write_block (ip.addrs ndirect) (put_uint (d1.block (ip.addrs ndirect)) i r) d1)
unfolding write_block
entry-Added i r ip d d1 v low there al =
    let ind : ℕ = ip.addrs ndirect in
    let some_ind : (ind == 0) ≡ false = ground (arith, there) in
    let entries : Bytes = put_uint (d1.block ind) i r in
    let d' : Data = write_block ind entries d1 in
    let shown : d'.block ind ≡ entries = put-at d1.block ind ind entries refl in
    let old : d1.block ind ≡ d.block ind =
      al.others ind (fresh-slot ip d r ndirect v al.free (omega arith) there)
        (v.off_map ndirect r (omega arith) there al.below) in
    record {
      at =
          let b : ltb (13 + i) 13 ≡ false = ground arith in
          let e : 13 + i - 13 ≡ i = omega arith in
          let small : r < 2 ^ 32 = omega (arith, al.below, v.small) in
          rw (b, some_ind, e)
            (ap (λ w. uint_at w i) shown ∙ uint_at-put_uint (d1.block ind) i r small);
      off = λ k lk ne. elim (Bool-cases (ltb k 13)) [
        | inl b ↦ rw b refl
        | inr b ↦
            let ne' : k - 13 ≢ i = ground (arith, b, ne) in
            rw (b, some_ind)
              (ap (λ w. uint_at w (k - 13)) shown
                ∙ uint_at-put_uint_off (d1.block ind) i r (k - 13) ne'
                ∙ ap (λ w. uint_at w (k - 13)) old)
      ];
      uses = λ j lj.
          let e : bblock j d1 ≡ bblock j d = ap (λ m. j / bpb + m) al.same_map in
          let ne : bblock j d1 ≢ ind =
            λ q. v.off_map ndirect j (omega arith) there lj (sym q ∙ e) in
          ap (λ (w : Bytes). bit (j % bpb % 8) (w (j % bpb / 8)))
            (put-off d1.block ind (bblock j d1) entries ne)
          ∙ al.marked j lj;
      same_size = al.same_size;
      same_map = al.same_map;
    }

pub map_entry-Filled :
    (i : ℕ) (ip : Inode) (d : Data)
    → IsInode ip d
    → i < 256
    → ip.addrs ndirect ≢ 0
    → Filled
        (13 + i)
        ip
        d
        (map_entry (ip.addrs ndirect) i d).0
        ip
        (map_entry (ip.addrs ndirect) i d).1
unfolding map_entry write_block
map_entry-Filled i ip d v low there =
    let ind : ℕ = ip.addrs ndirect in
    let b : ltb (13 + i) 13 ≡ false = ground arith in
    let some_ind : (ind == 0) ≡ false = ground (arith, there) in
    let at : 13 + i - 13 ≡ i = omega arith in
    let here : slot (13 + i) ip d ≡ uint_at (d.block ind) i = rw (b, some_ind, at) refl in
    elim (Bool-cases (uint_at (d.block ind) i == 0)) [
      | inr nz ↦ rw nz (
          subst (λ a. Filled (13 + i) ip d a ip d) here
            (unchanged (13 + i) ip d v (λ z. absurd (ground (arith, nz, here, z)))))
      | inl z ↦
          let empty : uint_at (d.block ind) i ≡ 0 = ground (arith, z) in
          elim (balloc_lem d v.mapped) [
            | inr (all, none_left) ↦
                rw (z, none_left)
                  (subst (λ a. Filled (13 + i) ip d a ip d) (here ∙ empty)
                    (unchanged (13 + i) ip d v (λ _. all)))
            | inl al ↦
                let nz : ((balloc d).0 == 0) ≡ false = some_block ip d (balloc d).0 v al.free in
                rw (z, nz)
                  (added (13 + i) (balloc d).0 ip d (balloc d).1 ip
                    (write_block ind (put_uint ((balloc d).1.block ind) i (balloc d).0)
                      (balloc d).1)
                    v (here ∙ empty) al
                    (entry-Added i (balloc d).0 ip d (balloc d).1 v low there al)
                    (λ c ne.
                      put-off (balloc d).1.block ind c
                        (put_uint ((balloc d).1.block ind) i (balloc d).0) ne))
          ]
    ]
