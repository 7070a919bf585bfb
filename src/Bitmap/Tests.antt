-- ===== src/Bitmap/Tests.antt =====
-- Runs of a bitmap of four words, and the theorems on it.
use nite_os_project.Common.{zero, suc, inl, inr, ◌≡◌, refl, arith, none, some, [], ◌∷◌}
use nite_os_project.Bitmap.{find_free, found_run, double_index, mask, set_bit, set_all, ones}
use nite_os_project.Bitmap.FindFree.{WholeWords, IsFirst, find_free-IsFirst}

-- Setting bit 31 of a word sets the bits above it as well; bit 32 has no result.
sign_spreads : set_bit (0 ∷ []) 31 ≡ some (0xFFFFFFFF80000000 ∷ [])
unfolding set_bit mask
sign_spreads = refl

beyond_int : set_bit (0 ∷ []) 32 ≡ none
unfolding set_bit mask
beyond_int = refl

-- A full bitmap and one with a run at its start give the same position.
none_free : find_free 5 (ones ∷ ones ∷ []) 128 8 0 0 ≡ some (0, ones ∷ ones ∷ [])
unfolding find_free found_run
none_free = refl

free_at_start : find_free 5 (ones ∷ 0 ∷ []) 128 64 0 0 ≡ some (64, ones ∷ ones ∷ [])
unfolding find_free found_run set_all
free_at_start = refl

-- With 2048 words in a row, the first two words of the map stand in the same place.
shared_word : double_index 2048 1024 64 ≡ double_index 2048 1024 0
unfolding double_index
shared_word = refl

-- A full word, two free ones, and a full one.
some_free_IsWhole : WholeWords (ones ∷ 0 ∷ 0 ∷ ones ∷ [])
some_free_IsWhole zero h = inr refl
some_free_IsWhole (suc zero) h = inl refl
some_free_IsWhole (suc (suc zero)) h = inl refl
some_free_IsWhole (suc (suc (suc zero))) h = inr refl
some_free_IsWhole (suc (suc (suc (suc j)))) h = absurd (omega arith)

find_free-IsFirst_example :
    IsFirst (ones ∷ 0 ∷ 0 ∷ ones ∷ []) 2 (find_free 5 (ones ∷ 0 ∷ 0 ∷ ones ∷ []) 256 128 0 0)
find_free-IsFirst_example =
    find_free-IsFirst (ones ∷ 0 ∷ 0 ∷ ones ∷ []) 2 (omega arith) some_free_IsWhole (omega arith)
