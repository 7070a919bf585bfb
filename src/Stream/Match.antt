-- ===== src/Stream/Match.antt =====
-- The tests of a stream against the same tests on the list of the elements that they read.
use nite_os_project.Common.{
  ℕ, zero, suc, ◌+◌, ◌-◌, ◌≤◌, ◌<◌, ◌≡◌, refl, ap, ◌∙◌, arith, Bool, true, false, not,
  if◌then◌else◌, ◌>>=◌, Option, none, some, List, [], ◌∷◌, length, get_elem?, take, drop,
}
use mathlib.Core.Option
use nite_os_project.Stream.{Stream, all_loop, any_loop, none_loop, all_match, any_match, none_match}

pub some_if {ℓ} :
    {B : Type ℓ} (b : Bool) (x y : B) → (if b then some x else some y) ≡ some (if b then x else y)
some_if true x y = refl
some_if false x y = refl

not_if :
    (b : Bool) (rest : Option Bool)
    → (if b then some false else Option.map not rest)
      ≡ Option.map not (if b then some true else rest)
not_if true rest = refl
not_if false rest = refl

module _ {ℓ} {A : Type ℓ} where
  none_step :
      (p : A → Bool) (o : Option A) (rest : Option Bool)
      → (o >>= λ x. if p x then some false else Option.map not rest)
        ≡ Option.map not (o >>= λ x. if p x then some true else rest)
  none_step p none rest = refl
  none_step p (some x) rest = not_if (p x) rest

  abbrev pub all : (A → Bool) → List A → Bool
  all p [] = true
  all p (x ∷ xs) = if p x then all p xs else false

  abbrev pub any : (A → Bool) → List A → Bool
  any p [] = false
  any p (x ∷ xs) = if p x then true else any p xs

  -- The elements from the offset up to the size, whatever the end.
  abbrev pub up_to_size : Stream A → List A
  up_to_size s = take (s.size - s.offset) (drop s.offset s.buffer)

  -- The elements from the offset up to the end: those that are left.
  abbrev pub window : Stream A → List A
  window s = take (s.end - s.offset) (drop s.offset s.buffer)

  pub drop-get_elem? :
      (xs : List A) (i : ℕ)
      → i < length xs
      → (x : A) × (get_elem? xs i ≡ some x) × (drop i xs ≡ x ∷ drop (suc i) xs)
  drop-get_elem? [] i h = absurd (omega arith)
  drop-get_elem? (x ∷ xs) zero h = (x, refl, refl)
  drop-get_elem? (x ∷ xs) (suc i) h = drop-get_elem? xs i (omega arith)

  all_loop-all :
      (n i : ℕ) (xs : List A) (p : A → Bool)
      → i + n ≤ length xs
      → all_loop n i xs p ≡ some (all p (take n (drop i xs)))
  unfolding all_loop
  all_loop-all zero i xs p h = refl
  all_loop-all (suc n) i xs p h =
      let (x, e, d) = drop-get_elem? xs i (omega arith) in
      rw (e, d, all_loop-all n (suc i) xs p (omega arith)) (some_if (p x) _ _)

  any_loop-any :
      (n i : ℕ) (xs : List A) (p : A → Bool)
      → i + n ≤ length xs
      → any_loop n i xs p ≡ some (any p (take n (drop i xs)))
  unfolding any_loop
  any_loop-any zero i xs p h = refl
  any_loop-any (suc n) i xs p h =
      let (x, e, d) = drop-get_elem? xs i (omega arith) in
      rw (e, d, any_loop-any n (suc i) xs p (omega arith)) (some_if (p x) _ _)

  -- The loops of `noneMatch` and `anyMatch` read the same, and answer the opposite.
  none_loop-any_loop :
      (n i : ℕ) (xs : List A) (p : A → Bool)
      → none_loop n i xs p ≡ Option.map not (any_loop n i xs p)
  unfolding none_loop any_loop
  none_loop-any_loop zero i xs p = refl
  none_loop-any_loop (suc n) i xs p =
      rw (none_loop-any_loop n (suc i) xs p)
        (none_step p (get_elem? xs i) (any_loop n (suc i) xs p))

  -- Where the buffer has the size, `allMatch`, `anyMatch` and `noneMatch` test the elements from the
  -- offset up to the size; `noneMatch` is the opposite of `anyMatch`.
  pub match_lem :
      (s : Stream A) (p : A → Bool)
      → s.offset ≤ s.size
      → s.size ≤ length s.buffer
      → (all_match s p ≡ some (all p (up_to_size s)))
        × (any_match s p ≡ some (any p (up_to_size s)))
        × (none_match s p ≡ some (not (any p (up_to_size s))))
  unfolding all_match any_match none_match
  match_lem s p h b =
      let n = s.size - s.offset in
      let found = any_loop-any n s.offset s.buffer p (omega arith) in
      (
        all_loop-all n s.offset s.buffer p (omega arith),
        found,
        none_loop-any_loop n s.offset s.buffer p ∙ ap (Option.map not) found,
      )
