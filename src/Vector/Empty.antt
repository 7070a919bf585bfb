-- ===== src/Vector/Empty.antt =====
-- No element is ever put into a vector.
use nite_os_project.Common.{ℕ, ◌≡◌, refl, ap, ◌∙◌, arith, Bool, false, some}
use nite_os_project.Vector.{
  Vector, new_vector, reserve, shrink, insert, push_front, push_back, pop_back, clear, contains,
  contains_loop, Step, Steps, inserted, pushed_front, pushed_back, popped_back, cleared, reserved,
  shrunk, here, next,
}

module _ {ℓ} {A : Type ℓ} (initial : A) (grown : ℕ → ℕ) where
  insert-full : (v : Vector A) (i : ℕ) (x : A) → v.length ≡ 0 → insert initial grown v i x ≡ v
  unfolding insert
  insert-full v i x h = ground arith

  -- `pushBack` changes nothing, whatever the vector.
  pub push_back-same : (v : Vector A) (x : A) → push_back initial grown v x ≡ v
  unfolding push_back insert
  push_back-same v x = ground arith

  Step-length : {v w : Vector A} → Step initial grown v w → v.length ≡ 0 → w.length ≡ 0
  unfolding push_front pop_back clear reserve shrink
  Step-length (inserted v i x) h = ap (λ (u : Vector A). u.length) (insert-full v i x h) ∙ h
  Step-length (pushed_front v x) h = ap (λ (u : Vector A). u.length) (insert-full v 0 x h) ∙ h
  Step-length (pushed_back v x) h = ap (λ (u : Vector A). u.length) (push_back-same v x) ∙ h
  Step-length (popped_back v) h = ground arith
  Step-length (cleared v) h = refl
  Step-length (reserved v n) h = ground arith
  Step-length (shrunk v) h = ground arith

  Steps-length :
      (n : ℕ) {v : Vector A} → Steps initial grown (new_vector initial n) v → v.length ≡ 0
  Steps-length n here = refl
  Steps-length n (next s t) = Step-length t (Steps-length n s)

  -- Whatever methods are called on a new vector, it keeps the length 0 and contains nothing; and
  -- `pushBack` leaves every vector as it is.
  pub Steps-empty :
      (eq : A → A → Bool) (n : ℕ) (v : Vector A) (x : A)
      → Steps initial grown (new_vector initial n) v
      → (v.length ≡ 0) × (contains eq v x ≡ some false) × (push_back initial grown v x ≡ v)
  unfolding contains contains_loop
  Steps-empty eq n v x s =
      let none_in = Steps-length n s in
      (none_in, ap (λ (k : ℕ). contains_loop eq k 0 v.buffer x) none_in, push_back-same v x)
