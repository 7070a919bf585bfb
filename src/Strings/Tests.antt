-- ===== src/Strings/Tests.antt =====
-- Strings made of concrete bytes.
use nite_os_project.Common.{◌≡◌, ◌↔◌, refl, arith, ℕ, Bool, true, false, none, some, List, [], ◌∷◌}
use nite_os_project.Strings.{
  Str, new_string, equals, equals_ignore_case, find_nul, equals_stored, equals_loop,
}
use nite_os_project.Strings.Equal.{Holds, equals-Holds, equals_ignore_case-Holds}

abbrev hi : Str
hi = record { storage = some (104 ∷ 105 ∷ 0 ∷ []); length = 2 }

abbrev ho : Str
ho = record { storage = some (104 ∷ 111 ∷ 0 ∷ []); length = 2 }

hi-Holds : Holds hi (104 ∷ 105 ∷ [])
hi-Holds = record { rest = 0 ∷ []; stored = refl; length_eq = refl }

ho-Holds : Holds ho (104 ∷ 111 ∷ [])
ho-Holds = record { rest = 0 ∷ []; stored = refl; length_eq = refl }

hi-new : new_string (104 ∷ 105 ∷ 0 ∷ []) ≡ some hi
unfolding new_string find_nul
hi-new = refl

hi-ho : equals hi ho ≡ some false
unfolding equals equals_stored equals_loop
hi-ho = refl

-- A null pointer equals no string.
null-equals : equals (record hi { storage = none }) hi ≡ some false
unfolding equals equals_stored
null-equals = refl

-- Strings that differ are equal where case is ignored.
hi-ignore_case : equals_ignore_case hi ho ≡ true
hi-ignore_case =
    equals_ignore_case-Holds hi ho (104 ∷ 105 ∷ []) (104 ∷ 111 ∷ []) hi-Holds ho-Holds refl

equals-Holds_example :
    (r : Bool) × (equals hi ho ≡ some r)
    × ((r ≡ true) ↔ ◌≡◌ {A = List ℕ} (104 ∷ 105 ∷ []) (104 ∷ 111 ∷ []))
equals-Holds_example =
    equals-Holds hi ho (104 ∷ 105 ∷ []) (104 ∷ 111 ∷ []) hi-Holds ho-Holds (omega arith)
