-- ===== src/Buddy/Tests.antt =====
-- Runs of an allocator with one free page of order 3, and the theorems on it.
use nite_os_project.Common.{
  ℕ, ◌+◌, ◌*◌, ◌^◌, ◌<◌, ◌≤◌, ◌≡◌, refl, ap, arith, false, inr, ◌==◌, if◌then◌else◌,
}
use native.Mathlib.Decide.{ℕ_discrete}
use nite_os_project.Links.{empty_entry}
use nite_os_project.Buddy.{
  PageInfo, Infos, flagged_free, split, split_offset, PageList, BuddyAlloc, allocate,
}
use nite_os_project.Buddy.Search.{Serves}
use nite_os_project.Buddy.Allocate.{allocate-block, allocate-null}

abbrev free_page : PageInfo
free_page = record { order = 3; flags = 1; address = 0x200000 }

abbrev free_list : PageList
free_list = record { head = 4096; tail = 4096; size = 1 }

abbrev no_list : PageList
no_list = record { head = 0; tail = 0; size = 0 }

abbrev one_free : BuddyAlloc
one_free = record {
  links = λ a. empty_entry;
  info = λ a. free_page;
  lists = λ i. if i == 3 then free_list else no_list;
}

none_below : (i : ℕ) → i < 3 → ¬ Serves one_free.lists (2 ^ 1) i
none_below i h (a, b) = ground arith

allocate-block_example :
    ((allocate one_free 2).0 ≡ 4096)
    × (((allocate one_free 2).1.info 4096).order ≡ 1)
    × (flagged_free ((allocate one_free 2).1.info 4096) ≡ false)
allocate-block_example =
    allocate-block one_free 2 1 3 (omega arith) (omega arith) (omega arith) (omega arith)
      (omega arith) (omega arith) none_below (omega arith) refl refl

none_fit : (i : ℕ) → i ≤ 10 → ¬ Serves one_free.lists (2 ^ 4) i
none_fit i h (a, b) = elim (ℕ_discrete i 3) [
  | yes e ↦ let eight : 2 ^ i ≡ 2 ^ 3 = ap (λ (t : ℕ). 2 ^ t) e in absurd (omega arith)
  | no n ↦ absurd (b (ground arith))
]

allocate-null_example : allocate one_free 9 ≡ (0, one_free)
allocate-null_example =
    allocate-null one_free 9 4 (inr (inr (omega arith, omega arith, omega arith, none_fit)))

abbrev split_infos : Infos
split_infos a = free_page

abbrev pair : Infos
pair a =
    if a == 64
    then record { order = 1; flags = 1; address = 0x4000 }
    else record { order = 1; flags = 1; address = 0x6000 }

-- The second half of a page of order 3 is listed 56 times as far away as the first half is long.
second_half :
    ((split split_infos 4096).1 (split split_infos 4096).0).address ≡ 0x200000 + 56 * 4 * 4096
unfolding split split_offset
second_half = refl
