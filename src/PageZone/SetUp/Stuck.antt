-- ===== src/PageZone/SetUp/Stuck.antt =====
-- The blocks of a range in the zone, and two allocations of whole blocks.
use nite_os_project.Common.{
  ℕ, zero, suc, ◌+◌, ◌-◌, ◌*◌, ◌^◌, ◌<◌, ◌≤◌, ◌≡◌, ◌≢◌, refl, ap, ◌∙◌, arith, ltb, ◌==◌, true,
  false, bit_and, none, some, update,
}
use nite_os_project.Common.Words.{add64, sub64}
use nite_os_project.PageZone.{Zone, expand_loop, find_order, take_page, allocate_ordered}
use nite_os_project.PageZone.SetUp.{
  page_max_size, block_down, block_up, page_of, init_block, init_loop, init_range,
}
use nite_os_project.PageZone.SetUp.Blocks.{IsLinked, IsEnd, first_block, further_block}
use nite_os_project.PageZone.Lost.{extract-IsPair}
use native.Mathlib.Nat.{mul-le-mul_right}

init_loop_round :
    (size fuel pages finish current : ℕ) (sections : ℕ → ℕ) (z s : Zone)
    → page_of size sections current ≡ pages
    → pages ≢ 0
    → current + page_max_size < finish
    → finish < 2 ^ 64
    → init_block size z pages current ≡ some s
    → init_loop size (suc fuel) sections z finish current
      ≡ init_loop size fuel sections s finish (current + page_max_size)
unfolding init_loop
init_loop_round size fuel pages finish current sections z s at given more small block =
    let a : (pages == 0) ≡ false = ground arith in
    let b : ltb current (sub64 finish page_max_size) ≡ true = ground arith in
    let c : ltb page_max_size finish ≡ true = ground arith in
    let d : add64 current page_max_size ≡ current + page_max_size = omega arith in
    rw (at, a, block, b, c, d) refl

init_loop_end :
    (size fuel finish current : ℕ) (sections : ℕ → ℕ) (z : Zone)
    → current + page_max_size ≡ finish
    → finish < 2 ^ 64
    → init_loop size (suc fuel) sections z finish current ≡ some z
unfolding init_loop
init_loop_end size fuel finish current sections z last small =
    let b : ltb current (sub64 finish page_max_size) ≡ false = ground arith in rw b refl

-- The records of the `n` blocks from `start` on lie one after another from `base` on, and the
-- range ends with one block more.
abbrev pub IsRegular : ℕ → (ℕ → ℕ) → ℕ → ℕ → ℕ → Type 0
IsRegular size sections base start n =
    (0 < size)
    × (0 < base)
    × (base + n * (1024 * size) < 2 ^ 64)
    × (start + n * page_max_size + page_max_size < 2 ^ 64)
    × ((i : ℕ)
        → i < n
        → page_of size sections (start + i * page_max_size) ≡ base + i * (1024 * size))

-- The rounds from the block `i` on, of which `r` are left.
init_loop-IsLinked :
    (size base start n r i fuel y : ℕ) (sections : ℕ → ℕ) (z : Zone)
    → IsRegular size sections base start n
    → i + r ≡ n
    → 0 < i
    → n < 2 ^ 32
    → r < fuel
    → IsLinked z base y i
    → IsEnd z base y
    → (s : Zone) × (w : ℕ) × (init_loop size fuel sections z
          (start + n * page_max_size + page_max_size)
          (start + i * page_max_size)
        ≡ some s)
      × IsLinked s base w n
      × IsEnd s base w
init_loop-IsLinked size base start n r i zero y sections z regular is pos few enough linked end =
    absurd (omega arith)
init_loop-IsLinked size base start n zero i (suc fuel) y sections z (a, b, c, d, at) is pos few
      enough (front, back, count, rest, next) end =
    let all : i ≡ n = omega arith in
    (
      z,
      y,
      init_loop_end size fuel _ _ sections z (omega arith) d,
      (front, back, omega (arith, count), rest, next),
      end,
    )
init_loop-IsLinked size base start n (suc r) i (suc fuel) y sections z (a, b, c, d, at) is pos few
      enough linked end =
    let pages : ℕ = base + i * (1024 * size) in
    let least : 1 * (1024 * size) ≤ i * (1024 * size) = mul-le-mul_right (1024 * size) pos in
    let most : suc i * (1024 * size) ≤ n * (1024 * size) =
      mul-le-mul_right (1024 * size) (omega arith) in
    let (s, e, longer, ends) =
      further_block size z pages (start + i * page_max_size) base y i a b (omega arith)
        (omega arith) linked pos (omega arith) in
    let round =
      init_loop_round size fuel pages (start + n * page_max_size + page_max_size)
        (start + i * page_max_size) sections z s (at i (omega arith)) (omega arith) (omega arith) d
        e in
    let here : start + i * page_max_size + page_max_size ≡ start + (i + 1) * page_max_size =
      omega arith in
    let (t, w, f, all, last) =
      init_loop-IsLinked size base start n r (i + 1) fuel pages sections s (a, b, c, d, at)
        (omega arith) (omega arith) few (omega arith) longer ends in
    (t, w, round ∙ rw here f, all, last)

block_up_lem :
    (a : ℕ)
    → a * page_max_size + page_max_size < 2 ^ 64
    → block_up (a * page_max_size) ≡ a * page_max_size
unfolding block_up block_down
block_up_lem a small = omega arith

block_down_lem : (a : ℕ) → block_down (a * page_max_size) ≡ a * page_max_size
unfolding block_down
block_down_lem a = omega arith

-- The blocks of the range from the block `a` on, when they number two or more.
init_range-IsLinked :
    (size fuel base a n : ℕ) (sections : ℕ → ℕ) (z : Zone)
    → IsRegular size sections base (a * page_max_size) n
    → 1 < n
    → n < 2 ^ 32
    → n < fuel
    → (z.page_list 10).count ≡ 0
    → (s : Zone) × (w : ℕ) × (init_range size fuel sections z
          (a * page_max_size)
          ((a + n + 1) * page_max_size)
        ≡ some s)
      × IsLinked s base w n
      × IsEnd s base w
init_range-IsLinked size zero base a n sections z regular many few enough empty =
    absurd (omega arith)
init_range-IsLinked size (suc zero) base a n sections z regular many few enough empty =
    absurd (omega arith)
init_range-IsLinked size (suc (suc fuel)) base a n sections z (p, b, c, d, at) many few enough
      empty =
    let start : ℕ = a * page_max_size in
    let finish : ℕ = start + n * page_max_size + page_max_size in
    let ends : (a + n + 1) * page_max_size ≡ finish = omega arith in
    let down = block_down_lem (a + n + 1) ∙ ends in
    let up = block_up_lem a (omega arith) in
    let most : 2 * (1024 * size) ≤ n * (1024 * size) = mul-le-mul_right (1024 * size) many in
    let first_at : page_of size sections start ≡ base =
      ap (page_of size sections) (omega arith) ∙ at 0 (omega arith) ∙ omega arith in
    let second_at : page_of size sections (start + page_max_size) ≡ base + 1024 * size =
      ap (page_of size sections) (omega arith) ∙ at 1 many ∙ omega arith in
    let (s, e, one) = first_block size z base start p (omega arith) (omega arith) empty in
    let (t, f, two, end) =
      further_block size s (base + 1024 * size) (start + page_max_size) base 0 1 p b (omega arith)
        (omega arith) one (omega arith) (omega arith) in
    let round =
      init_loop_round size (suc fuel) base finish start sections z s first_at (omega arith)
        (omega arith) d e in
    let round2 =
      init_loop_round size fuel (base + 1024 * size) finish (start + page_max_size) sections s t
        second_at (omega arith) (omega arith) d f in
    let third : start + page_max_size + page_max_size ≡ start + 2 * page_max_size = omega arith in
    let (u, w, g, all, last) =
      init_loop-IsLinked size base start n (n - 2) 2 fuel (base + 1024 * size) sections t
        (p, b, c, d, at) (omega arith) (omega arith) few (omega arith) two end in
    let rounds = round ∙ round2 ∙ ap (init_loop size fuel sections t finish) third ∙ g in
    (
      u,
      w,
      ap (λ (q : ℕ). init_loop size (suc (suc fuel)) sections z q (block_up start)) down
          ∙ ap (init_loop size (suc (suc fuel)) sections z finish) up
          ∙ rounds,
      all,
      last,
    )

-- When `BuddyInit` has set up a zone without blocks of order 10, on fuel for more rounds than blocks,
-- from a range of three or more blocks and one block more, less than 2^32 of them, of which the
-- records lie one after another below 2^64, then the first allocation of order 10 gives the first
-- block, and the second writes through the null pointer.
pub allocate_ordered-init_range :
    (size fuel deep base a n : ℕ) (sections : ℕ → ℕ) (z : Zone)
    → IsRegular size sections base (a * page_max_size) n
    → 2 < n
    → n < 2 ^ 32
    → n < fuel
    → (z.page_list 10).count ≡ 0
    → (s : Zone) × (t : Zone) × (init_range size fuel sections z
          (a * page_max_size)
          ((a + n + 1) * page_max_size)
        ≡ some s)
      × (allocate_ordered size deep s 10 ≡ some (t, base))
      × (allocate_ordered size deep t 10 ≡ none)
unfolding allocate_ordered find_order take_page expand_loop
allocate_ordered-init_range size fuel deep base a n sections z regular many few enough empty =
    let (s, w, e, linked, (given, other, end)) =
      init_range-IsLinked size fuel base a n sections z regular (omega arith) few enough empty in
    let (front, back, count, exists, next) = linked in
    let (x, taken, node, left, fails) =
      extract-IsPair s.links (s.page_list 10) base w n linked many few given other end in
    let full : ((s.page_list 10).count == 0) ≡ false = ground (arith, count) in
    let full2 : (x.list.count == 0) ≡ false = ground (arith, left) in
    let given_too : (base == 0) ≡ false = ground arith in
    let t : Zone = record s {
      links = x.links;
      page_list = update s.page_list 10 x.list;
      flags = update s.flags base (bit_and (s.flags base) 254);
    } in
    (s, t, e, rw (full, taken, node, given_too) refl, rw (full2, fails) refl)
