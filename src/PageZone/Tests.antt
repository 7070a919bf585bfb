-- ===== src/PageZone/Tests.antt =====
-- Zones with one block, with halves of it, and without blocks.
use nite_os_project.Common.{
  ℕ, zero, suc, ◌+◌, ◌*◌, ◌^◌, ◌<◌, ◌≤◌, ◌≡◌, ◌≢◌, refl, ap, arith, bit_and, ◌||◌, ◌==◌,
  if◌then◌else◌, ◌>>=◌, none, some, [], ◌∷◌, update, update-miss,
}
use nite_os_project.Links.{Store, empty_entry}
use nite_os_project.VirtualMemory.Space.{align_page}
use nite_os_project.PageZone.{
  NodeList, Extracted, extract, page_order, Zone, half, other_page, allocate_ordered,
  allocate_pages, combine_page, add_node, order_loop, expand_page, expand_loop, find_order,
  take_page, split_page, remove_node, contains_node,
}
use nite_os_project.PageZone.Lost.{add_all, extract-add_all}
use nite_os_project.PageZone.Orders.{page_order-align_page}
use nite_os_project.PageZone.Split.{IsSplit}
use nite_os_project.PageZone.Split.Rounds.{IsWhole, allocate_ordered-IsWhole}
use nite_os_project.PageZone.Apart.{combine_page-half}
use nite_os_project.PageZone.SetUp.{page_max_size, init_range, page_of}
use nite_os_project.PageZone.SetUp.Stuck.{allocate_ordered-init_range}

abbrev cleared : Store
cleared a = empty_entry

abbrev no_nodes : NodeList
no_nodes = record { front = 0; back = 0; count = 0 }

abbrev bare : Zone
bare = record {
  links = cleared;
  page_list = λ j. no_nodes;
  order = λ q. 0;
  flags = λ q. 1;
  first_page = λ q. 0;
  address = λ q. 0;
}

abbrev only : ℕ → NodeList
only x = record { front = x; back = x; count = 1 }

abbrev whole : Zone
whole = record bare {
  page_list = update (λ j. no_nodes) 10 (only 4096);
  order = update (λ q. 0) 4096 10;
}

-- The block at 4096 with the order 9, the other half in the list, and all pages marked as free.
abbrev in_halves : Zone
in_halves = record bare {
  page_list = update (λ j. no_nodes) 9 (only 36864);
  order = λ q. if (q == 4096) || (q == 36864) then 9 else 0;
}

extract-add_all_example :
    (s : Store) × (k : NodeList) × (e : Extracted) × (add_all cleared no_nodes (1 ∷ 2 ∷ 3 ∷ [])
      ≡ some (s, k))
    × (extract s k ≡ some e)
    × (e.node ≡ 1)
    × (extract e.links e.list ≡ none)
extract-add_all_example =
    extract-add_all cleared no_nodes 1 2 3 [] refl (omega arith)
      ((omega arith, omega arith), ((omega arith, omega arith), tt)) (omega arith) refl

page_order_example :
    (k : ℕ) × (page_order (align_page 3000) ≡ some k)
    × (k ≤ 10)
    × ((j : ℕ) → 3000 ≤ 2 ^ j → k ≤ j)
    × (3000 ≤ 1024 → 3000 ≤ 2 ^ k)
    × (1024 < 3000 → (k ≡ 10) × (2 ^ k < 3000))
page_order_example = page_order-align_page 3000 (omega arith) (omega arith)

whole-IsWhole : IsWhole 64 whole 4096
whole-IsWhole = (
  (omega arith, omega arith, omega arith),
  (refl, refl, refl),
  (λ j less.
      let other : j ≢ 10 = omega arith in
      ap (λ (l : NodeList). l.count) (update-miss (λ i. no_nodes) 10 (only 4096) j other)),
  refl,
  refl,
  refl,
)

allocate_ordered_example :
    (s : Zone) × (allocate_ordered 64 1 whole 9 ≡ some (s, 4096))
    × (s.flags 4096 ≡ bit_and (whole.flags 4096) 254)
    × IsSplit 64 s 4096 9
allocate_ordered_example = allocate_ordered-IsWhole 64 0 whole 4096 9 whole-IsWhole (omega arith)

in_halves-IsSplit : IsSplit 64 in_halves 4096 9
in_halves-IsSplit = (
  refl,
  refl,
  (λ j less.
      let other : j ≢ 9 = omega arith in
      ap (λ (l : NodeList). l.count) (update-miss (λ i. no_nodes) 9 (only 36864) j other)),
  (λ j le less. let nine : j ≡ 9 = omega arith in rw nine ((refl, refl, refl), refl)),
  refl,
)

combine_page_example :
    (s : Zone) × (result : ℕ) × (other_page 64 in_halves 4096 ≡ 4096 + 2 ^ 9 * 64 * 64)
    × (other_page 64 in_halves 4096 ≢ half 64 4096 9)
    × (combine_page 64 1 in_halves 4096 ≡ some (s, result))
    × ((s.page_list 9).front ≡ half 64 4096 9)
    × ((bit_and (in_halves.flags (4096 + 2 ^ 9 * 64 * 64)) 1 ≢ 0)
        → (result ≡ 4096) × (s.order 4096 ≡ 9 + 1))
combine_page_example =
    combine_page-half 64 0 in_halves 4096 9 (omega arith, omega arith, omega arith) (omega arith)
      (omega arith) in_halves-IsSplit (omega arith) (omega arith) refl refl (omega arith)
      (omega arith)

places :
    (i : ℕ)
    → i < 3
    → page_of 64 (λ sid. 4096) (0 * page_max_size + i * page_max_size) ≡ 4096 + i * (1024 * 64)
unfolding page_of
places zero h = refl
places (suc zero) h = refl
places (suc (suc zero)) h = refl
places (suc (suc (suc i))) h = absurd (omega arith)

init_range_example :
    (s : Zone) × (t : Zone) × (init_range 64 4
        (λ sid. 4096)
        bare
        (0 * page_max_size)
        ((0 + 3 + 1) * page_max_size)
      ≡ some s)
    × (allocate_ordered 64 1 s 10 ≡ some (t, 4096))
    × (allocate_ordered 64 1 t 10 ≡ none)
init_range_example =
    allocate_ordered-init_range 64 4 1 4096 0 3 (λ sid. 4096) bare
      (omega arith, omega arith, omega arith, omega arith, places) (omega arith) (omega arith)
      (omega arith) refl

-- An amount of three pages gets four.
allocate_pages_three :
    (allocate_pages 64 2 whole 3 >>= λ r. some ((r.0.page_list 2).count)) ≡ some 1
unfolding allocate_pages allocate_ordered take_page expand_loop expand_page split_page find_order
    extract align_page order_loop remove_node contains_node add_node
allocate_pages_three = refl
