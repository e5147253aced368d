-- ===== src/Vm/Tests.antt =====
-- Tests of kernel/vm.c on a page table with one user page, at address 0.
use zerocopy_ringbuf.Common.{
  ℕ, ◌+◌, ◌-◌, ◌<◌, ◌≡◌, refl, ◌∙◌, [], ◌∷◌, false, ok, success, if◌then◌else◌, arith,
}
use zerocopy_ringbuf.Paging.Laws.{IsPaging}
use zerocopy_ringbuf.Kstring.{Mem}
use zerocopy_ringbuf.Kstring.Memory.{within}
use zerocopy_ringbuf.Words.{load_word, store_word, load_word-same}
use zerocopy_ringbuf.Kalloc.{Kmem}
use zerocopy_ringbuf.Kalloc.FreeList.{IsFree}
use zerocopy_ringbuf.Vm.{entry, pg_round_down}
use zerocopy_ringbuf.Vm.Copy.{copyin}
use zerocopy_ringbuf.Vm.Walk.{leaf, user_page_at, physical}
use zerocopy_ringbuf.Vm.Copyin.{IsApart, copyin-at}
use zerocopy_ringbuf.Vm.Valid.{tr, IsValid, IsData}
use zerocopy_ringbuf.Vm.Interface.{paging, paging-IsPaging}

abbrev kernel_end : ℕ
kernel_end = 0x8002_2000

abbrev root : ℕ
root = 0x8010_0000

abbrev middle : ℕ
middle = 0x8010_1000

abbrev last : ℕ
last = 0x8010_2000

abbrev page : ℕ
page = 0x8010_3000

abbrev buffer : ℕ
buffer = 0x8020_0000

tables : Mem
tables =
    store_word (store_word (store_word (λ _. 7) root (entry middle 0)) middle (entry last 0)) last
      (entry page 30)

abbrev mapped : Kmem
mapped = record { mem = tables; lock = false; freelist = 0 }

root_entry : load_word tables root ≡ entry middle 0
unfolding tables load_word store_word
root_entry = refl

middle_entry : load_word tables middle ≡ entry last 0
unfolding tables load_word store_word
middle_entry = refl

last_entry : load_word tables last ≡ entry page 30
unfolding tables load_word store_word
last_entry = refl

-- Any memory with these three entries maps address 0 to the page.
user_page_at-entries :
    (m : Mem)
    → load_word m root ≡ entry middle 0
    → load_word m middle ≡ entry last 0
    → load_word m last ≡ entry page 30
    → user_page_at m root 0 ≡ page
unfolding user_page_at leaf
user_page_at-entries m a b c = rw a (rw b (rw c refl))

user_page_at-tables : user_page_at tables root 0 ≡ page
user_page_at-tables = user_page_at-entries tables root_entry middle_entry last_entry

first_page : (x : ℕ) → x < 3 → pg_round_down (5 + x) ≡ 0
first_page x h = omega arith

tables-IsApart : IsApart tables root buffer 5 3
tables-IsApart = record {
  mapped = λ x h. rw (first_page x h, user_page_at-tables) (omega arith);
  bytes = λ x h. rw (first_page x h, user_page_at-tables) (ground arith);
  tables = λ m' same x h.
      rw (first_page x h, user_page_at-tables)
        (user_page_at-entries m'
          (load_word-same m' tables root (λ b w. same b (ground arith)) ∙ root_entry)
          (load_word-same m' tables middle (λ b w. same b (ground arith)) ∙ middle_entry)
          (load_word-same m' tables last (λ b w. same b (ground arith)) ∙ last_entry));
}

copyin-at_example :
    (k' : Kmem) × (copyin root buffer 5 3 mapped ≡ ok (success, k'))
    × ((a : ℕ)
        → k'.mem a ≡ (
            if within buffer 3 a
            then tables (physical tables root (5 + (a - buffer)))
            else tables a))
copyin-at_example = copyin-at root buffer 5 3 mapped tables-IsApart

abbrev one_free : Kmem
one_free = record { mem = λ _. 0; lock = false; freelist = root }

one_free-IsFree : IsFree kernel_end one_free (root ∷ [])
unfolding load_word
one_free-IsFree = record { unlocked = refl; chain = (refl, omega arith, refl, refl) }

paging-IsPaging_example :
    IsPaging
      (tr kernel_end root)
      (IsValid kernel_end root)
      (IsData kernel_end root)
      (paging kernel_end 0x8000_9000)
      root
paging-IsPaging_example = paging-IsPaging kernel_end 0x8000_9000 root
