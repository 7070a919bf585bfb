-- ===== src/Stream/Ends.antt =====
-- `findFirst` and `findLast` take elements from the two ends of what is left of a stream.
use nite_os_project.Common.{
  ℕ, zero, suc, ◌+◌, ◌-◌, ◌^◌, ◌≤◌, ◌<◌, ◌≡◌, ◌≢◌, refl, sym, ap, ◌∙◌, arith, true, false, none,
  some, List, [], ◌∷◌, ◌++◌, length, get_elem?, take, drop, ltb, ◌==◌, ◌⊎◌, inl, inr,
}
use mathlib.Core.Option.{none-ne-some, some-injective}
use native.Mathlib.Decide.{dec_le, ℕ_discrete}
use nite_os_project.Common.Words.{add64}
use nite_os_project.Stream.{Stream, length_of, find_first, find_last}
use nite_os_project.Stream.Match.{window, drop-get_elem?}

module _ {ℓ} {A : Type ℓ} where
  pub record IsWindow (s : Stream A) : Type 0 where
    pub offset_le : s.offset ≤ s.end
    pub end_le : s.end ≤ length s.buffer
    pub bound : length s.buffer < 2 ^ 63

  find_first-some :
      (s : Stream A) (x : A)
      → length_of s ≢ 0
      → get_elem? s.buffer s.offset ≡ some x
      → find_first s ≡ some (some x, record s { offset = add64 s.offset 1 })
  unfolding find_first
  find_first-some s x h e =
      let some_left : (length_of s == 0) ≡ false = ground arith in rw (some_left, e) refl

  find_first-none : (s : Stream A) → length_of s ≡ 0 → find_first s ≡ some (none, s)
  unfolding find_first
  find_first-none s h = rw h refl

  -- On a stream whose offset, end and buffer are in that order, `findFirst` returns the first element that is left and leaves those behind it; where none is
  -- left it is empty and changes nothing.
  pub find_first-window :
      (s : Stream A)
      → IsWindow s
      → ((window s ≡ []) × (find_first s ≡ some (none, s)))
        ⊎ ((x : A) × (left : Stream A) × (find_first s ≡ some (some x, left))
            × (window s ≡ x ∷ window left)
            × IsWindow left)
  find_first-window s h = elim (ℕ_discrete (length_of s) 0) [
    | yes z ↦
        let empty : s.end - s.offset ≡ 0 = omega (arith, h.offset_le, h.end_le, h.bound) in
        inl (ap (λ (k : ℕ). take k (drop s.offset s.buffer)) empty, find_first-none s z)
    | no n ↦
        let inside : s.offset < length s.buffer = omega (arith, h.offset_le, h.end_le, h.bound) in
        let (x, e, d) = drop-get_elem? s.buffer s.offset inside in
        let moved : add64 s.offset 1 ≡ suc s.offset = omega (arith, h.bound) in
        let more : s.end - s.offset ≡ suc (s.end - suc s.offset) =
          omega (arith, h.offset_le, h.end_le, h.bound) in
        let result = find_first-some s x n e in
        inr (
          x,
          record s { offset = suc s.offset },
          result ∙ ap (λ (k : ℕ). some (some x, record s { offset = k })) moved,
          ap (λ (k : ℕ). take k (drop s.offset s.buffer)) more
              ∙ ap (λ ys. take (suc (s.end - suc s.offset)) ys) d,
          record {
            offset_le = omega (arith, h.offset_le, h.end_le, h.bound);
            end_le = h.end_le;
            bound = h.bound;
          },
        )
  ]

  get_elem?-drop : (xs : List A) (o k : ℕ) → get_elem? (drop o xs) k ≡ get_elem? xs (o + k)
  get_elem?-drop xs zero k = let plain : k ≡ 0 + k = omega arith in ap (get_elem? xs) plain
  get_elem?-drop [] (suc o) k = refl
  get_elem?-drop (x ∷ xs) (suc o) k =
      let shifted : suc o + k ≡ suc (o + k) = omega arith in
      get_elem?-drop xs o k ∙ ap (get_elem? (x ∷ xs)) (sym shifted)

  take-suc :
      (xs : List A) (k : ℕ) (x : A)
      → get_elem? xs k ≡ some x
      → take (suc k) xs ≡ take k xs ++ x ∷ []
  take-suc [] k x e = absurd (none-ne-some x e)
  take-suc (y ∷ xs) zero x e = ap (λ t. t ∷ []) (some-injective y x e)
  take-suc (y ∷ xs) (suc k) x e = ap (λ t. y ∷ t) (take-suc xs k x e)

  find_last-some :
      (s : Stream A) (x : A)
      → s.offset < s.end
      → get_elem? s.buffer (s.end - 1) ≡ some x
      → find_last s ≡ some (some x, record s { end = s.end - 1 })
  unfolding find_last
  find_last-some s x h e =
      let some_left : ltb s.offset s.end ≡ true = ground arith in rw (some_left, e) refl

  find_last-none : (s : Stream A) → s.end ≤ s.offset → find_last s ≡ some (none, s)
  unfolding find_last
  find_last-none s h =
      let none_left : ltb s.offset s.end ≡ false = ground arith in rw none_left refl

  -- On a stream whose offset, end and buffer are in that order, `findLast` returns the last element that is left and leaves those before it; where none is left
  -- it is empty and changes nothing.
  pub find_last-window :
      (s : Stream A)
      → IsWindow s
      → ((window s ≡ []) × (find_last s ≡ some (none, s)))
        ⊎ ((x : A) × (left : Stream A) × (find_last s ≡ some (some x, left))
            × (window s ≡ window left ++ x ∷ [])
            × IsWindow left)
  find_last-window s h = elim (dec_le s.end s.offset) [
    | yes z ↦
        let empty : s.end - s.offset ≡ 0 = omega arith in
        inl (ap (λ (k : ℕ). take k (drop s.offset s.buffer)) empty, find_last-none s z)
    | no n ↦
        let k = s.end - 1 - s.offset in
        let (x, e, d) = drop-get_elem? s.buffer (s.end - 1) (omega (arith, h.end_le)) in
        let place : s.offset + k ≡ s.end - 1 = omega arith in
        let more : s.end - s.offset ≡ suc k = omega arith in
        let last = get_elem?-drop s.buffer s.offset k ∙ ap (get_elem? s.buffer) place ∙ e in
        inr (
          x,
          record s { end = s.end - 1 },
          find_last-some s x (omega arith) e,
          ap (λ (j : ℕ). take j (drop s.offset s.buffer)) more
              ∙ take-suc (drop s.offset s.buffer) k x last,
          record { offset_le = omega arith; end_le = omega (arith, h.end_le); bound = h.bound },
        )
  ]
