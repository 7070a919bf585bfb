-- ===== src/LinkedList/Tests.antt =====
-- Runs of a list of the entries at 16, 32 and 48, and the theorems on it.
use nite_os_project.Common.{◌≡◌, refl, arith, [], ◌∷◌, ◌++◌}
use nite_os_project.Links.{empty_entry}
use nite_os_project.Links.Ends.{Ends-empty}
use nite_os_project.LinkedList.{LinkedList, new_list, add, remove_at, take_first}
use nite_os_project.LinkedList.Order.{Holds, add-Holds, remove_at-Holds}

abbrev none_listed : LinkedList
none_listed = new_list (λ a. empty_entry)

abbrev one_listed : LinkedList
one_listed = add none_listed 16

abbrev two_listed : LinkedList
two_listed = add one_listed 32

abbrev three_listed : LinkedList
three_listed = add two_listed 48

none_held : Holds none_listed []
none_held = record { ends = Ends-empty (λ a. empty_entry); size_eq = refl; bound = omega arith }

one_held : Holds one_listed (16 ∷ [])
one_held = add-Holds none_listed [] 16 none_held (omega arith) tt refl refl (omega arith)

two_held : Holds two_listed (16 ∷ 32 ∷ [])
unfolding add
two_held =
    add-Holds one_listed (16 ∷ []) 32 one_held (omega arith) (omega arith, tt) refl refl
      (omega arith)

three_held : Holds three_listed (16 ∷ 32 ∷ 48 ∷ [])
unfolding add
three_held =
    add-Holds two_listed (16 ∷ 32 ∷ []) 48 two_held (omega arith) (omega arith, (omega arith, tt))
      refl refl (omega arith)

remove_at-Holds_example :
    Holds (remove_at three_listed 1) (16 ∷ 48 ∷ [])
    × ((remove_at three_listed 1).freed ≡ three_listed.freed ++ 32 ∷ [])
remove_at-Holds_example = remove_at-Holds three_listed (16 ∷ []) (48 ∷ []) 32 three_held

-- A list that was taken from while empty counts 2^64 - 1 entries.
wrapped : (take_first none_listed).1.size ≡ 0xFFFFFFFFFFFFFFFF
unfolding take_first
wrapped = refl
