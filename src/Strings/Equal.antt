-- ===== src/Strings/Equal.antt =====
-- What a string holds, and that `equals` compares it.
use nite_os_project.Common.{
  ℕ, suc, ◌+◌, ◌^◌, ◌≤◌, ltb, ◌≡◌, ◌≢◌, ◌↔◌, refl, ap, ◌∙◌, subst, arith, Bool, true, false, ◌==◌,
  Bool-cases, if◌then◌else◌, ◌>>=◌, some, List, [], ◌∷◌, ◌++◌, length, get_elem?, snoc_append,
  length-snoc, get_elem?-middle, inl, inr,
}
use mathlib.Core.Path.{ap₂}
use nite_os_project.Strings.{
  Str, find_nul, new_string, equals_loop, equals_stored, equals, equals_ignore_case,
}

-- The string holds the units `xs`, in front of memory `rest`.
pub record Holds (s : Str) (xs : List ℕ) : Type 0 where
  pub rest : List ℕ
  pub stored : s.storage ≡ some (xs ++ rest)
  pub length_eq : s.length ≡ length xs

-- No unit is NUL.
abbrev pub NoNul : List ℕ → Type 0
NoNul [] = Unit
NoNul (x ∷ xs) = (x ≢ 0) × NoNul xs

find_nul_lem :
    (xs rest : List ℕ) (i : ℕ) → NoNul xs → find_nul (xs ++ 0 ∷ rest) i ≡ some (i + length xs)
unfolding find_nul
find_nul_lem [] rest i h = ap some (omega arith)
find_nul_lem (x ∷ xs) rest i (n, h) = ground (arith, find_nul_lem xs rest (suc i) h)

-- From memory with a NUL behind `xs`, where none is in `xs`, the constructor makes the string `xs`.
pub new_string-Holds :
    (xs rest : List ℕ) → NoNul xs → (s : Str) × (new_string (xs ++ 0 ∷ rest) ≡ some s) × Holds s xs
unfolding new_string
new_string-Holds xs rest h = (
  record { storage = some (xs ++ 0 ∷ rest); length = length xs },
  ap (λ o. o >>= λ n. some (record { storage = some (xs ++ 0 ∷ rest); length = n }))
      (find_nul_lem xs rest 0 h ∙ ap some (omega arith)),
  record { rest = 0 ∷ rest; stored = refl; length_eq = refl },
)

-- The comparison of two lists of units, unit by unit.
abbrev same : List ℕ → List ℕ → Bool
same [] [] = true
same [] (y ∷ ys) = false
same (x ∷ xs) [] = false
same (x ∷ xs) (y ∷ ys) = if x == y then same xs ys else false

same_sound : (xs ys : List ℕ) → same xs ys ≡ true → xs ≡ ys
same_sound [] [] h = refl
same_sound [] (y ∷ ys) h = absurd (ground arith)
same_sound (x ∷ xs) [] h = absurd (ground arith)
same_sound (x ∷ xs) (y ∷ ys) h =
    let heads : x ≡ y = ground arith in
    let tails : same xs ys ≡ true = ground arith in
    ap₂ (λ z zs. z ∷ zs) heads (same_sound xs ys tails)

same_refl : (xs : List ℕ) → same xs xs ≡ true
same_refl [] = refl
same_refl (x ∷ xs) = ground (arith, same_refl xs)

equals_loop-same :
    (i : ℕ) (da db xs ys ra rb : List ℕ)
    → i ≡ length da
    → i ≡ length db
    → length xs ≡ length ys
    → i + length xs ≤ 2 ^ 31
    → equals_loop (length xs) i (da ++ (xs ++ ra)) (db ++ (ys ++ rb)) ≡ some (same xs ys)
unfolding equals_loop
equals_loop-same i da db [] [] ra rb p q h fits = refl
equals_loop-same i da db [] (y ∷ ys) ra rb p q h fits = absurd (omega (arith, h))
equals_loop-same i da db (x ∷ xs) [] ra rb p q h fits = absurd (omega (arith, h))
equals_loop-same i da db (x ∷ xs) (y ∷ ys) ra rb p q h fits =
    let inside : ltb i (2 ^ 31) ≡ true = ground arith in
    let ga : get_elem? (da ++ x ∷ (xs ++ ra)) i ≡ some x =
      rw p (get_elem?-middle da x (xs ++ ra)) in
    let gb : get_elem? (db ++ y ∷ (ys ++ rb)) i ≡ some y =
      rw q (get_elem?-middle db y (ys ++ rb)) in
    let more =
      equals_loop-same (suc i) (da ++ x ∷ []) (db ++ y ∷ []) xs ys ra rb
        (omega (arith, length-snoc da x)) (omega (arith, length-snoc db y)) (omega arith)
        (omega arith) in
    let more' = rw (snoc_append da x (xs ++ ra), snoc_append db y (ys ++ rb)) at more in
    rw inside (ground (arith, ga, gb, more'))

-- Two strings that hold `xs` and `ys`, `xs` of at most 2^31 units, are compared inside of their
-- memory, and are equal to `equals` if and only if `xs` and `ys` are the same.
pub equals-Holds :
    (a b : Str) (xs ys : List ℕ)
    → Holds a xs
    → Holds b ys
    → length xs ≤ 2 ^ 31
    → (r : Bool) × (equals a b ≡ some r) × ((r ≡ true) ↔ (xs ≡ ys))
unfolding equals equals_stored
equals-Holds a b xs ys h k fits = elim (Bool-cases (length xs == length ys)) [
  | inl e ↦
      let lengths : length xs ≡ length ys = ground arith in
      let loop = equals_loop-same 0 [] [] xs ys h.rest k.rest refl refl lengths (omega arith) in
      (
        same xs ys,
        rw (h.length_eq, k.length_eq, e, h.stored, k.stored) loop,
        (same_sound xs ys, λ p. subst (λ zs. same xs zs ≡ true) p (same_refl xs)),
      )
  | inr ne ↦ (
    false,
    rw (h.length_eq, k.length_eq, ne) refl,
    (
      λ p. absurd (ground arith),
      λ p. let e : length xs ≡ length ys = ap length p in absurd (ground arith),
    ),
  )
]

-- `equalsIgnoreCase` holds of any two strings of one length.
pub equals_ignore_case-Holds :
    (a b : Str) (xs ys : List ℕ)
    → Holds a xs
    → Holds b ys
    → length xs ≡ length ys
    → equals_ignore_case a b ≡ true
unfolding equals_ignore_case
equals_ignore_case-Holds a b xs ys h k e =
    rw (h.stored, k.stored, h.length_eq, k.length_eq, e) (ground arith)
