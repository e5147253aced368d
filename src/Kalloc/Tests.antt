-- ===== src/Kalloc/Tests.antt =====
-- Tests of kernel/kalloc.c on a memory of zeros with one free page or none.
use zerocopy_ringbuf.Common.{ℕ, ◌≡◌, ◌↔◌, refl, List, [], ◌∷◌, true, false, ok, arith}
use zerocopy_ringbuf.Kstring.Memory.{within}
use zerocopy_ringbuf.Words.{load_word}
use zerocopy_ringbuf.Kalloc.{Kmem, kalloc, kfree, kinit}
use zerocopy_ringbuf.Kalloc.FreeList.{has, IsPage, IsFree, kalloc_lem, kfree_lem}
use zerocopy_ringbuf.Kalloc.Init.{kinit-IsFree}

abbrev kernel_end : ℕ
kernel_end = 0x8002_2000

abbrev page : ℕ
page = 0x8010_0000

abbrev one_free : Kmem
one_free = record { mem = λ _. 0; lock = false; freelist = page }

abbrev none_free : Kmem
none_free = record { mem = λ _. 0; lock = false; freelist = 0 }

one_free-IsFree : IsFree kernel_end one_free (page ∷ [])
unfolding load_word
one_free-IsFree = record { unlocked = refl; chain = (refl, omega arith, refl, refl) }

none_free-IsFree : IsFree kernel_end none_free []
none_free-IsFree = record { unlocked = refl; chain = refl }

kalloc_lem_example :
    (k' : Kmem) × (kalloc one_free ≡ ok (page, k'))
    × IsFree kernel_end k' []
    × ((a : ℕ) → within page 4096 a ≡ false → k'.mem a ≡ 0)
kalloc_lem_example = kalloc_lem kernel_end one_free (page ∷ []) one_free-IsFree

kfree_lem_example :
    (k' : Kmem) × (kfree kernel_end page none_free ≡ ok (tt, k'))
    × IsFree kernel_end k' (page ∷ [])
    × ((a : ℕ) → within page 4096 a ≡ false → k'.mem a ≡ 0)
kfree_lem_example = kfree_lem kernel_end none_free page [] none_free-IsFree (omega arith) refl

kinit-IsFree_example :
    (k' : Kmem) × (xs : List ℕ) × (kinit kernel_end none_free ≡ ok (tt, k'))
    × IsFree kernel_end k' xs
    × ((a : ℕ) → (has a xs ≡ true) ↔ IsPage kernel_end a)
kinit-IsFree_example = kinit-IsFree kernel_end none_free (omega arith) (omega arith) refl
