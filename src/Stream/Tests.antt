-- ===== src/Stream/Tests.antt =====
-- Runs of a stream of four numbers, and the theorems on it.
use nite_os_project.Common.{ℕ, ◌≡◌, refl, arith, Bool, true, ltb, some, [], ◌∷◌}
use nite_os_project.Stream.{Stream, of_buffer, any_match, limit, any_loop}
use nite_os_project.Stream.Match.{window}
use nite_os_project.Stream.Ends.{IsWindow}

abbrev four : Stream ℕ
four = of_buffer (7 ∷ 20 ∷ 3 ∷ 40 ∷ [])

four_left : IsWindow four
four_left = record { offset_le = omega arith; end_le = omega arith; bound = omega arith }

abbrev above_ten : ℕ → Bool
above_ten = ltb 10

-- After the last element is taken, `anyMatch` still finds it, for it goes on up to the size.
taken_is_matched : any_match (record four { end = 3 }) (ltb 30) ≡ some true
unfolding any_match any_loop
taken_is_matched = refl

-- `limit` changes the size, and so not what is left.
limited : window (limit four 1) ≡ 7 ∷ 20 ∷ 3 ∷ 40 ∷ []
unfolding limit
limited = refl
