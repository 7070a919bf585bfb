-- ===== src/VirtualMemory/Space/Endless.antt =====
-- The loop of `KernelAddressSpace::Allocate4KPages` that maps the pages runs on to the end of the
-- tables.
use nite_os_project.Common.{
  ℕ, zero, suc, ◌+◌, ◌-◌, ◌*◌, ◌<◌, ◌≤◌, ◌≡◌, ◌≢◌, ◌⊎◌, inl, inr, refl, subst, arith, false, ltb,
  leb, ◌==◌, Bool-cases, some,
}
use nite_os_project.VirtualMemory.{Tables, is_present}
use nite_os_project.VirtualMemory.Heap.{
  Run, Search, going, found, heap_entry, search_page, search_table, no_run, heap_address,
}
use nite_os_project.VirtualMemory.Space.{
  gave, outside, search_all, map_run, take_pages, align_page, space_allocate,
}

-- A run that is found has pages.
abbrev HasPages : Search → Type 0
HasPages (going run) = Unit
HasPages (found run) = 0 < run.counter

HasPages-next :
    (r : Search) (next : Run → Search)
    → HasPages r
    → ((run : Run) → HasPages (next run))
    → HasPages (elim r as (λ t. Search) [ found run ↦ found run | going run ↦ next run ])
HasPages-next (found run) next h k = h
HasPages-next (going run) next h k = k run

Search-cases : (r : Search) → ((run : Run) × (r ≡ found run)) ⊎ ((run : Run) × (r ≡ going run))
Search-cases (found run) = inl (run, refl)
Search-cases (going run) = inr (run, refl)

module _ (heap_at : ℕ) (s : Tables) (amount : ℕ) where
  search_page-HasPages : (i j : ℕ) (run : Run) → HasPages (search_page heap_at s amount i j run)
  unfolding search_page
  search_page-HasPages i j run = elim (Bool-cases (is_present (heap_entry heap_at s i j))) [
    | inl used ↦ rw used tt
    | inr unused ↦ elim (Bool-cases (leb amount (run.counter + 1))) [
      | inl long ↦ rw (unused, long) (omega arith)
      | inr short ↦ rw (unused, short) tt
    ]
  ]

  search_table-HasPages :
      (i left : ℕ) (run : Run) → HasPages (search_table heap_at s amount i left run)
  unfolding search_table
  search_table-HasPages i zero run = tt
  search_table-HasPages i (suc left) run =
      HasPages-next (search_page heap_at s amount i (511 - left) run) _
        (search_page-HasPages i (511 - left) run) (λ r. search_table-HasPages i left r)

  search_all-HasPages : (left : ℕ) (run : Run) → HasPages (search_all heap_at s amount left run)
  unfolding search_all
  search_all-HasPages zero run = tt
  search_all-HasPages (suc left) run =
      HasPages-next (search_table heap_at s amount (511 - left) 512 run) _
        (search_table-HasPages (511 - left) 512 run) (λ r. search_all-HasPages left r)

-- The rounds from a place in the tables on, as many as there are pages behind it.
map_run-outside :
    (heap_at fuel place : ℕ) (t : Tables) (phys address : ℕ) (run : Run)
    → run.counter ≢ 0
    → place ≤ run.offset
    → place ≤ 512
    → 512 * 512 < fuel + (run.dir * 512 + place)
    → 0 < fuel
    → map_run heap_at fuel t phys address run ≡ outside
unfolding map_run
map_run-outside heap_at zero place t phys address run pos at small enough some_left =
    absurd (omega arith)
map_run-outside heap_at (suc fuel) place t phys address run pos at small enough some_left =
    let more : (run.counter == 0) ≡ false = ground (arith, pos) in
    elim (Bool-cases (leb 512 run.offset)) [
      | inl full ↦ elim (Bool-cases (ltb (run.dir + 1) 512)) [
        | inl next ↦
            let inside : run.dir + 1 < 512 = ground arith in
            rw (more, full, next)
              (map_run-outside heap_at fuel 1 _ phys address _ pos (omega arith) (omega arith)
                (omega arith) (omega arith))
        | inr behind ↦ rw (more, full, behind) refl
      ]
      | inr room ↦ elim (Bool-cases (ltb run.dir 512)) [
        | inl here ↦
            let less : run.offset < 512 = ground arith in
            let inside : run.dir < 512 = ground arith in
            rw (more, room, here)
              (map_run-outside heap_at fuel (place + 1) _ phys address _ pos (omega arith)
                (omega arith) (omega arith) (omega arith))
        | inr behind ↦ rw (more, room, behind) refl
      ]
    ]

-- `KernelAddressSpace::Allocate4KPages` never gives pages, when it has got physical ones. On fuel for
-- more rounds than the heap has pages: where the search finds a run, the loop that maps it
-- goes on until it writes behind the 512 tables, and where the search finds none, the answer is 0
-- and the tables are unchanged.
pub space_allocate-outside :
    (heap_at fuel : ℕ) (s : Tables) (phys amount : ℕ)
    → 512 * 512 < fuel
    → ((run : Run) × (search_all heap_at s (align_page amount) 512 no_run ≡ found run)
        × (space_allocate heap_at fuel s (some phys) amount ≡ outside))
      ⊎ ((run : Run) × (search_all heap_at s (align_page amount) 512 no_run ≡ going run)
          × (space_allocate heap_at fuel s (some phys) amount ≡ gave s 0))
unfolding space_allocate take_pages
space_allocate-outside heap_at fuel s phys amount enough =
    let pages = align_page amount in
    let has = search_all-HasPages heap_at s pages 512 no_run in
    elim (Search-cases (search_all heap_at s pages 512 no_run)) [
      | inl (run, e) ↦
          let some_pages = subst HasPages e has in
          inl (
            run,
            e,
            rw e (
                map_run-outside heap_at fuel 0 s phys (heap_address run) run (omega arith)
                  (omega arith) (omega arith) (omega arith) (omega arith)),
          )
      | inr (run, e) ↦ inr (run, e, rw e refl)
    ]
