-- ===== src/Buddy.antt =====
-- The buddy allocator: `BuddyAlloc` of Kernel/src/siberix/mem/page_alloc.cpp with `Page4K` of
-- Kernel/src/siberix/mem/page.cpp and Kernel/inc/siberix/mem/buddy.h. The members `_next` and
-- `_previous` of the pages are in `links`, the others in `info`. Shifts are those of orders below
-- 31, where an `int` holds them.
pub mod Page
pub mod Search
pub mod Allocate
mod Tests
use nite_os_project.Common.{
  ℕ, zero, suc, ◌+◌, ◌-◌, ◌*◌, ◌%◌, ◌^◌, bit_and, ◌==◌, if◌then◌else◌, Bool, ◌&&◌, ◌||◌, not, ltb,
  leb,
}
use nite_os_project.Common.Words.{add64, sub64, mul64}
use nite_os_project.Align.{align_two_exponent}
use nite_os_project.Links.{Store}
use nite_os_project.PageQueue.{PageQueue, push, pop}

pub record PageInfo : Type 0 where
  pub order : ℕ
  pub flags : ℕ
  pub address : ℕ

abbrev pub Infos : Type 0
Infos = ℕ → PageInfo

abbrev pub put_info : Infos → ℕ → PageInfo → Infos
put_info m page i x = if x == page then i else m x

-- `PAGE_FLAG_FREE`
abbrev pub flagged_free : PageInfo → Bool
flagged_free i = not (bit_and i.flags 1 == 0)

pub size_of : PageInfo → ℕ
size_of i = mul64 (2 ^ i.order) 4096

-- `sizeof(Page4K)`
abbrev pub size_of_page4k : ℕ
size_of_page4k = 56

-- The offset of `split`, from the order that it has just made one less.
pub split_offset : ℕ → ℕ
split_offset order = mul64 (2 ^ order) size_of_page4k

-- `Page4K::split()`: the new page, 0 when there is none, and the pages left.
pub split : Infos → ℕ → ℕ × Infos
split m page =
    let order = ((m page).order + 2 ^ 8 - 1) % 2 ^ 8 in
    let new = add64 page (mul64 (split_offset order) size_of_page4k) in
    let half : PageInfo = record {
      order = order;
      flags = 0;
      address = add64 (m page).address (mul64 (split_offset order) 4096);
    } in
    if flagged_free (m page)
    then (new, put_info (put_info m page (record (m page) { order = order })) new half)
    else (0, m)

-- `Page4K::merge(Page4K*)`. `abs` leaves its unsigned argument as it is.
pub merge : Infos → ℕ → ℕ → ℕ × Infos
merge m this page =
    let result = if (m this).address % mul64 (size_of (m this)) 2 == 0 then page else this in
    if not (flagged_free (m this) && flagged_free (m page))
      || not (sub64 (m this).address (m page).address == size_of (m this))
    then (0, m)
    else (result, put_info m result (record (m result) { order = ((m result).order + 1) % 2 ^ 8 }))

-- `buddyIsAligned`, `buddyOffset` and `buddyFixSize`
pub buddy_is_aligned : ℕ → ℕ → Bool
buddy_is_aligned address order = address % mul64 (2 ^ order) 4096 == 0

pub buddy_offset : ℕ → ℕ
buddy_offset order = mul64 (2 ^ order) 4096

pub buddy_fix_size : ℕ → ℕ
buddy_fix_size size = align_two_exponent size

-- One of `m_pageLists`, without the pages' links.
pub record PageList : Type 0 where
  pub head : ℕ
  pub tail : ℕ
  pub size : ℕ

pub record BuddyAlloc : Type 0 where
  pub links : Store
  pub info : Infos
  pub lists : ℕ → PageList

abbrev pub queue_at : BuddyAlloc → ℕ → PageQueue
queue_at s ord = record {
  links = s.links;
  head = (s.lists ord).head;
  tail = (s.lists ord).tail;
  size = (s.lists ord).size;
}

abbrev pub put_queue : BuddyAlloc → ℕ → PageQueue → BuddyAlloc
put_queue s ord q = record s {
  links = q.links;
  lists =
      λ i. if i == ord then record { head = q.head; tail = q.tail; size = q.size } else s.lists i;
}

abbrev pub buddy_bound_upper : ℕ
buddy_bound_upper = 10

-- The loop over `ord`, with the rounds left before it meets the bound.
pub find_order : ℕ → ℕ → ℕ → (ℕ → PageList) → ℕ
find_order zero ord amount lists = ord
find_order (suc left) ord amount lists =
    let rest = find_order left (suc ord) amount lists in
    if leb amount (2 ^ ord) && not ((lists ord).size == 0) then ord else rest

-- `m_pageLists[ord].push(page->split())`
pub push_half : BuddyAlloc → ℕ → ℕ → BuddyAlloc
push_half s ord page =
    let (new, info) = split s.info page in
    let s1 : BuddyAlloc = record s { info = info } in put_queue s1 ord (push (queue_at s1 ord) new)

-- The loop that halves the page; the amount is 1 at least, so that it stops at order 0.
pub halve : ℕ → ℕ → BuddyAlloc → ℕ → BuddyAlloc
halve zero amount s page = s
halve (suc ord) amount s page =
    let rest = halve ord amount (push_half s ord page) page in
    if ltb amount (2 ^ suc ord) then rest else s

-- `page->_flags &= ~PAGE_FLAG_FREE`
abbrev pub take_page : BuddyAlloc → ℕ → BuddyAlloc
take_page s page = record s {
  info = put_info s.info page (record (s.info page) { flags = bit_and (s.info page).flags 0xFE });
}

-- `allocatePhysMemory4KPages`, from the rounded amount and the order that was found.
pub allocate_from : BuddyAlloc → ℕ → ℕ → ℕ × BuddyAlloc
allocate_from s amount ord =
    let (page, q) = pop (queue_at s ord) in
    if (s.lists ord).size == 0
    then (0, s)
    else (page, take_page (halve ord amount (put_queue s ord q) page) page)

pub allocate : BuddyAlloc → ℕ → ℕ × BuddyAlloc
allocate s amount =
    let fixed = buddy_fix_size amount in
    if amount == 0 || ltb (2 ^ buddy_bound_upper) amount
    then (0, s)
    else allocate_from s fixed (find_order buddy_bound_upper 0 fixed s.lists)
