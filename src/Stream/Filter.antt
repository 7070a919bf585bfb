-- ===== src/Stream/Filter.antt =====
-- `filter` leaves the elements that pass the test, in their order.
use nite_os_project.Common.{
  ℕ, zero, suc, ◌+◌, ◌-◌, ◌≤◌, ◌<◌, ◌≡◌, refl, sym, ap, ◌∙◌, arith, Bool, true, false,
  if◌then◌else◌, ◌>>=◌, some, List, [], ◌∷◌, ◌++◌, length, take, drop, set, length-set, length-take,
}
use mathlib.Core.List.{append-nil, append_assoc}
use nite_os_project.Stream.{Stream, keep_loop, write_back, filter}
use nite_os_project.Stream.Match.{up_to_size, window, drop-get_elem?}

module _ {ℓ} {A : Type ℓ} where
  abbrev pub kept : (A → Bool) → List A → List A
  kept p [] = []
  kept p (x ∷ xs) = if p x then x ∷ kept p xs else kept p xs

  keep_loop-kept :
      (n i : ℕ) (xs : List A) (p : A → Bool)
      → i + n ≤ length xs
      → keep_loop n i xs p ≡ some (kept p (take n (drop i xs)))
  unfolding keep_loop
  keep_loop-kept zero i xs p h = refl
  keep_loop-kept (suc n) i xs p h =
      let (x, e, d) = drop-get_elem? xs i (omega arith) in
      rw (e, d, keep_loop-kept n (suc i) xs p (omega arith)) refl

  kept_le :
      (b : Bool) (x : A) (ys xs : List A)
      → length ys ≤ length xs
      → length (if b then x ∷ ys else ys) ≤ suc (length xs)
  kept_le true x ys xs h = omega arith
  kept_le false x ys xs h = omega arith

  length-kept : (p : A → Bool) (xs : List A) → length (kept p xs) ≤ length xs
  length-kept p [] = omega arith
  length-kept p (x ∷ xs) = kept_le (p x) x (kept p xs) xs (length-kept p xs)

  take-set :
      (xs : List A) (i : ℕ) (y : A)
      → i < length xs
      → take (suc i) (set xs i y) ≡ take i xs ++ y ∷ []
  take-set [] i y h = absurd (omega arith)
  take-set (x ∷ xs) zero y h = refl
  take-set (x ∷ xs) (suc i) y h = ap (λ k. x ∷ k) (take-set xs i y (omega arith))

  take-write_back :
      (ys : List A) (i : ℕ) (xs : List A)
      → i + length ys ≤ length xs
      → take (i + length ys) (write_back ys i xs) ≡ take i xs ++ ys
  unfolding write_back
  take-write_back [] i xs h =
      let none_more : i + 0 ≡ i = omega arith in
      ap (λ (k : ℕ). take k xs) none_more ∙ sym (append-nil (take i xs))
  take-write_back (y ∷ ys) i xs h =
      let shifted : i + suc (length ys) ≡ suc i + length ys = omega arith in
      let kept_length = length-set xs i y in
      ap (λ (k : ℕ). take k (write_back ys (suc i) (set xs i y))) shifted
      ∙ take-write_back ys (suc i) (set xs i y) (omega arith)
      ∙ ap (λ t. t ++ ys) (take-set xs i y (omega arith))
      ∙ append_assoc (take i xs) (y ∷ []) ys

  -- `filter` succeeds where the buffer has the size, and what is left are the elements from the
  -- offset up to the size that pass the test, in their order.
  pub filter-kept :
      (s : Stream A) (p : A → Bool)
      → s.offset ≤ s.size
      → s.size ≤ length s.buffer
      → (left : Stream A) × (filter s p ≡ some left)
        × (window left ≡ kept p (up_to_size s))
        × (left.size ≡ s.size)
  unfolding filter
  filter-kept s p h b =
      let n = s.size - s.offset in
      let buf = kept p (up_to_size s) in
      let short = length-kept p (up_to_size s) in
      let taken = length-take n (drop s.offset s.buffer) in
      let all_kept : length buf - 0 ≡ 0 + length buf = omega arith in
      (
        record s { buffer = write_back buf 0 s.buffer; end = length buf; offset = 0 },
        ap
            (λ o. o >>= λ k.
              some (record s { buffer = write_back k 0 s.buffer; end = length k; offset = 0 }))
            (keep_loop-kept n s.offset s.buffer p (omega arith)),
        ap (λ (k : ℕ). take k (write_back buf 0 s.buffer)) all_kept
            ∙ take-write_back buf 0 s.buffer (omega arith),
        refl,
      )
