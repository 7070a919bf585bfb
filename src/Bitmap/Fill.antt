-- ===== src/Bitmap/Fill.antt =====
-- The loops of `setAll` and `clearAll`: whole words, and the amounts at which the second never ends.
use nite_os_project.Common.{
  ℕ, zero, suc, ◌-◌, ◌*◌, ◌/◌, ◌%◌, ◌^◌, ◌<◌, ◌≤◌, ◌≡◌, refl, sym, ap, ◌∙◌, arith, true, false,
  ◌==◌, ◌>>=◌, Option, none, some, List, [], ◌∷◌, ◌++◌, length, length-append, get_elem?,
  get_elem?-middle, set, replicate,
}
use mathlib.Core.List.{append_assoc}
use nite_os_project.Common.Words.{add64}
use nite_os_project.Bitmap.{ones, clear_bit, set_all, clear_all, whole}

clear_all-bit :
    (fuel : ℕ) (words : List ℕ) (pos amount : ℕ)
    → 0 < amount
    → amount < 64
    → clear_all (suc fuel) words pos amount
      ≡ (clear_bit words pos >>= λ d. clear_all fuel d (add64 pos 1) amount)
unfolding clear_all
clear_all-bit fuel words pos amount h b = ground arith

bind_none :
    (o : Option (List ℕ)) (f : List ℕ → Option (List ℕ))
    → ((d : List ℕ) → f d ≡ none)
    → (o >>= f) ≡ none
bind_none none f h = refl
bind_none (some d) f h = h d

-- `clearAll` of 1 to 63 bits never ends with a result, however long it runs.
pub clear_all-none :
    (fuel : ℕ) (words : List ℕ) (pos amount : ℕ)
    → 0 < amount
    → amount < 64
    → clear_all fuel words pos amount ≡ none
unfolding clear_all
clear_all-none zero words pos amount h b = refl
clear_all-none (suc fuel) words pos amount h b =
    clear_all-bit fuel words pos amount h b
    ∙ bind_none (clear_bit words pos) _ (λ d. clear_all-none fuel d (add64 pos 1) amount h b)

set_all-done : (fuel : ℕ) (words : List ℕ) (pos : ℕ) → set_all (suc fuel) words pos 0 ≡ some words
unfolding set_all
set_all-done fuel words pos = refl

set-middle : (xs ys : List ℕ) (y z : ℕ) → set (xs ++ y ∷ ys) (length xs) z ≡ xs ++ z ∷ ys
set-middle [] ys y z = refl
set-middle (x ∷ xs) ys y z = ap (λ t. x ∷ t) (set-middle xs ys y z)

set_all-word :
    (fuel : ℕ) (words : List ℕ) (pos amount old : ℕ)
    → pos % 64 ≡ 0
    → 64 ≤ amount
    → get_elem? words (pos / 64) ≡ some old
    → set_all (suc fuel) words pos amount
      ≡ set_all fuel (set words (pos / 64) ones) (add64 pos 64) (amount - 64)
unfolding set_all
set_all-word fuel words pos amount old h b e =
    let some_left : (amount == 0) ≡ false = ground arith in
    let all_word : whole pos amount ≡ true = ground arith in rw (some_left, all_word, e) refl

-- `setAll` of whole words, from the start of a word on, fills these words with ones and leaves the
-- others, where the positions stay below 2^64; it takes a round for each word.
pub set_all-words :
    (fuel : ℕ) (xs ys zs : List ℕ)
    → length ys < fuel
    → 64 * length (xs ++ (ys ++ zs)) < 2 ^ 64
    → set_all fuel (xs ++ (ys ++ zs)) (64 * length xs) (64 * length ys)
      ≡ some (xs ++ (replicate (length ys) ones ++ zs))
set_all-words zero xs ys zs l h = absurd (omega arith)
set_all-words (suc fuel) xs [] zs l h = set_all-done fuel (xs ++ zs) (64 * length xs)
set_all-words (suc fuel) xs (y ∷ ys) zs l h =
    let n = length xs in
    let more = xs ++ ones ∷ [] in
    let long = length-append xs (y ∷ (ys ++ zs)) in
    let longer = length-append more (ys ++ zs) in
    let grown = length-append xs (ones ∷ []) in
    let start : 64 * n % 64 ≡ 0 = omega arith in
    let place : 64 * n / 64 ≡ n = omega arith in
    let enough : 64 ≤ 64 * suc (length ys) = omega arith in
    let found = ap (get_elem? (xs ++ y ∷ (ys ++ zs))) place ∙ get_elem?-middle xs y (ys ++ zs) in
    let written : set (xs ++ y ∷ (ys ++ zs)) (64 * n / 64) ones ≡ more ++ (ys ++ zs) =
      ap (λ (i : ℕ). set (xs ++ y ∷ (ys ++ zs)) i ones) place
      ∙ set-middle xs (ys ++ zs) y ones
      ∙ sym (append_assoc xs (ones ∷ []) (ys ++ zs)) in
    let moved : add64 (64 * n) 64 ≡ 64 * length more = omega arith in
    let left : 64 * suc (length ys) - 64 ≡ 64 * length ys = omega arith in
    set_all-word fuel (xs ++ y ∷ (ys ++ zs)) (64 * n) (64 * suc (length ys)) y start enough found
    ∙ rw (written, moved, left) (set_all-words fuel more ys zs (omega arith) (omega arith))
    ∙ ap some (append_assoc xs (ones ∷ []) (replicate (length ys) ones ++ zs))
