-- ===== src/MemRange/Tests.antt =====
-- The search in a concrete memory: a place, a place at 0, and none.
use nite_os_project.Common.{ℕ, zero, suc, ◌≡◌, refl, arith, List, [], ◌∷◌}
use nite_os_project.MemRange.{range_of, find, find_loop, match_loop}
use nite_os_project.MemRange.Search.{First, find-First}

abbrev bytes : List ℕ → ℕ → ℕ
bytes [] a = 0
bytes (b ∷ bs) zero = b
bytes (b ∷ bs) (suc a) = bytes bs a

abbrev memory : ℕ → ℕ
memory = bytes (9 ∷ 5 ∷ 7 ∷ 9 ∷ 5 ∷ 8 ∷ [])

find_second : find memory (range_of 1 5) (bytes (9 ∷ 5 ∷ [])) 2 ≡ 2
unfolding find find_loop match_loop
find_second = refl

-- A place at the start and none give the same.
find_start :
    find memory (range_of 0 5) (bytes (9 ∷ 5 ∷ [])) 2
    ≡ find memory (range_of 0 5) (bytes (3 ∷ [])) 1
unfolding find find_loop match_loop
find_start = refl

find-First_example :
    First memory
      (range_of 1 5)
      (bytes (9 ∷ 5 ∷ []))
      2
      0
      5
      (find memory (range_of 1 5) (bytes (9 ∷ 5 ∷ [])) 2)
find-First_example = find-First memory (range_of 1 5) (bytes (9 ∷ 5 ∷ [])) 2 (omega arith)
