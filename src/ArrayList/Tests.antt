-- ===== src/ArrayList/Tests.antt =====
-- Array lists at concrete pointers: `add` in a full array and in one that may not grow.
use nite_os_project.Common.{
  ◌≡◌, refl, arith, ◌≢◌, ◌^◌, ◌<◌, ◌*◌, ℕ, Bool, true, false, none, some, [], ◌∷◌,
}
use nite_os_project.ArrayList.{
  ArrayList, new_list, add, remove_index, remove_value, remove_last, clear, grow, put_last,
  copy_loop,
}
use nite_os_project.ArrayList.Grow.{Holds}
use nite_os_project.ArrayList.Owned.{Steps, start, next, added, Owned, Steps-Owned, Steps-returns}

abbrev full : ArrayList ℕ
full = record { pointers = 5 ∷ 7 ∷ []; size = 2; capacity = 2; increment = true; freed = [] }

full-Holds : Holds full (5 ∷ 7 ∷ [])
full-Holds = record {
  rest = [];
  cells = refl;
  size_eq = refl;
  capacity_eq = refl;
  bound = omega arith;
}

abbrev after : ArrayList ℕ
after = record {
  pointers = 5 ∷ 7 ∷ 9 ∷ 0 ∷ [];
  size = 3;
  capacity = 4;
  increment = true;
  freed = [];
}

full-add : add 0 full 9 ≡ some after
unfolding add grow put_last copy_loop
full-add = refl

-- Without `m_increment` the array is written outside of its bounds.
fixed-add : add 0 (record full { increment = false }) 9 ≡ none
unfolding add put_last
fixed-add = refl

abbrev one_pointer : ArrayList ℕ
one_pointer = record { pointers = 7 ∷ []; size = 1; capacity = 1; increment = true; freed = [] }

abbrev empty_list : ArrayList ℕ
empty_list = new_list 0 1 true

full-run : Steps {P = ℕ} 0 1 (7 ∷ []) one_pointer
unfolding new_list add put_last
full-run = next start (added 7 (omega arith) refl)

Steps-Owned_example : Owned {P = ℕ} (7 ∷ []) one_pointer
Steps-Owned_example = Steps-Owned 0 1 (7 ∷ []) one_pointer (omega arith) (omega arith) full-run

Steps-returns_example :
    ((i : ℕ) → remove_index empty_list i ≢ none)
    × ((matches : ℕ → Bool) → remove_value matches empty_list ≢ none)
    × (remove_last empty_list ≢ none)
    × (clear empty_list ≢ none)
    × (empty_list.capacity * 2 < 2 ^ 64 → (p : ℕ) → add 0 empty_list p ≢ none)
Steps-returns_example = Steps-returns 0 1 [] empty_list (omega arith) (omega arith) start
