-- ===== src/Bitmap/FindFree.antt =====
-- `findFree` on words that are empty or full, as the allocation of whole words leaves them.
use nite_os_project.Common.{
  ℕ, zero, suc, ◌+◌, ◌-◌, ◌*◌, ◌/◌, ◌^◌, ◌<◌, ◌≤◌, ◌≡◌, ◌⊎◌, inl, inr, refl, sym, ap, ◌∙◌, subst,
  arith, true, false, ◌==◌, ◌&&◌, ltb, leb, Bool-cases, Option, none, some, List, ◌++◌,
  get_elem?-beyond, take-drop, length-drop, length, length-take, get_elem?, take, drop, replicate,
}
use nite_os_project.Common.Words.{add64, sub64}
use nite_os_project.Bitmap.{ones, set_all, found_run, find_free}
use nite_os_project.Bitmap.Fill.{set_all-words}

some_not_none : (o : Option ℕ) (x : ℕ) → o ≡ some x → o ≡ none → ⊥
some_not_none o x e n = ground (arith, e, n)

zero_not_ones : (o : Option ℕ) → o ≡ some 0 → o ≡ some ones → ⊥
zero_not_ones o e n = ground (arith, e, n)

-- Every word is empty or full.
abbrev pub WholeWords : List ℕ → Type 0
WholeWords words =
    (j : ℕ) → j < length words → (get_elem? words j ≡ some 0) ⊎ (get_elem? words j ≡ some ones)

module _ (words : List ℕ) (k : ℕ) where
  -- The words `i` to `i + n` are free.
  abbrev pub FreeRun : ℕ → ℕ → Type 0
  FreeRun i n = (j : ℕ) → j < n → get_elem? words (i + j) ≡ some 0

  -- The words with the run of `k` words from `i` on filled.
  abbrev pub filled : ℕ → List ℕ
  filled i = take i words ++ (replicate k ones ++ drop k (drop i words))

  -- The result of `findFree`: the position of the first run of `k` free words, with them filled, or 0.
  abbrev pub IsFirst : Option (ℕ × List ℕ) → Type 0
  IsFirst o =
      ((i : ℕ) × FreeRun i k × ((m : ℕ) → m < i → ¬ FreeRun m k) × (o ≡ some (64 * i, filled i)))
      ⊎ (((m : ℕ) → ¬ FreeRun m k) × (o ≡ some (0, words)))

  -- No run of `k` starts at `m` if a word that is not free lies in it.
  blocked : (m p : ℕ) → m ≤ p → p < m + k → ¬ (get_elem? words p ≡ some 0) → ¬ FreeRun m k
  blocked m p le lt used free =
      let place : m + (p - m) ≡ p = omega arith in
      used (subst (λ (q : ℕ). get_elem? words q ≡ some 0) place (free (p - m) (omega arith)))

  FreeRun-extended : (s f : ℕ) → FreeRun s f → get_elem? words (s + f) ≡ some 0 → FreeRun s (f + 1)
  FreeRun-extended s f free here j b = elim (Bool-cases (j == f)) [
    | inl hit ↦
        (let last : f ≡ j = ground arith in
          subst (λ (q : ℕ). get_elem? words (s + q) ≡ some 0) last here)
    | inr miss ↦ free j (ground arith)
  ]

  find_free-end :
      (n s f : ℕ)
      → s + f ≡ length words
      → find_free (suc n) words (64 * length words) (64 * k) (64 * (s + f)) (64 * f)
        ≡ some (0, words)
  unfolding find_free
  find_free-end n s f e =
      let over : (ltb (64 * f) (64 * k) && ltb (64 * (s + f)) (64 * length words)) ≡ false =
        ground arith in
      rw over refl

  find_free-full :
      (n s f : ℕ)
      → f < k
      → s + f < length words
      → 64 * length words + 64 < 2 ^ 64
      → get_elem? words (s + f) ≡ some ones
      → find_free (suc n) words (64 * length words) (64 * k) (64 * (s + f)) (64 * f)
        ≡ find_free n words (64 * length words) (64 * k) (64 * (s + f + 1)) 0
  unfolding find_free
  find_free-full n s f a b c e =
      let inside : (ltb (64 * f) (64 * k) && ltb (64 * (s + f)) (64 * length words)) ≡ true =
        ground arith in
      let place : 64 * (s + f) / 64 ≡ s + f = omega arith in
      let moved : add64 (64 * (s + f)) 64 ≡ 64 * (s + f + 1) = omega arith in
      rw (inside, place, e, moved) refl

  find_free-empty :
      (n s f : ℕ)
      → f < k
      → s + f < length words
      → 64 * length words + 64 < 2 ^ 64
      → get_elem? words (s + f) ≡ some 0
      → find_free (suc n) words (64 * length words) (64 * k) (64 * (s + f)) (64 * f)
        ≡ found_run
            (find_free n words (64 * length words) (64 * k) (64 * (s + f + 1)) (64 * (f + 1)))
            words
            (64 * k)
            (64 * (s + f + 1))
            (64 * (f + 1))
  unfolding find_free
  find_free-empty n s f a b c e =
      let inside : (ltb (64 * f) (64 * k) && ltb (64 * (s + f)) (64 * length words)) ≡ true =
        ground arith in
      let place : 64 * (s + f) / 64 ≡ s + f = omega arith in
      let moved : add64 (64 * (s + f)) 64 ≡ 64 * (s + f + 1) = omega arith in
      let longer : add64 (64 * f) 64 ≡ 64 * (f + 1) = omega arith in
      rw (inside, place, e, moved, longer) refl

  set_all-filled :
      (i : ℕ)
      → i + k ≤ length words
      → 64 * length words < 2 ^ 64
      → set_all (suc (64 * k)) words (64 * i) (64 * k) ≡ some (filled i)
  set_all-filled i h b =
      let xs = take i words in
      let ys = take k (drop i words) in
      let zs = drop k (drop i words) in
      let whole_words : words ≡ xs ++ (ys ++ zs) =
        take-drop i words ∙ ap (λ t. xs ++ t) (take-drop k (drop i words)) in
      let rest = length-drop i words (omega arith) in
      let lx : length xs ≡ i = omega (arith, length-take i words) in
      let ly : length ys ≡ k = omega (arith, length-take k (drop i words)) in
      let same = ap length whole_words in
      let whole_set = set_all-words (suc (64 * k)) xs ys zs (omega arith) (omega arith) in
      ap (λ t. set_all (suc (64 * k)) t (64 * i) (64 * k)) whole_words
      ∙ ap (λ (n : ℕ). set_all (suc (64 * k)) (xs ++ (ys ++ zs)) (64 * n) (64 * k)) (sym lx)
      ∙ ap (λ (n : ℕ). set_all (suc (64 * k)) (xs ++ (ys ++ zs)) (64 * length xs) (64 * n)) (sym ly)
      ∙ whole_set
      ∙ ap (λ (n : ℕ). some (xs ++ (replicate n ones ++ zs))) ly

  found_run-short :
      (rest : Option (ℕ × List ℕ)) (pos f : ℕ)
      → f < k
      → found_run rest words (64 * k) pos (64 * f) ≡ rest
  unfolding found_run
  found_run-short rest pos f h =
      let short : leb (64 * k) (64 * f) ≡ false = ground arith in rw short refl

  found_run-long :
      (rest : Option (ℕ × List ℕ)) (s f : ℕ)
      → f ≡ k
      → s + f ≤ length words
      → 64 * length words < 2 ^ 64
      → found_run rest words (64 * k) (64 * (s + f)) (64 * f) ≡ some (64 * s, filled s)
  unfolding found_run
  found_run-long rest s f e h b =
      let long : leb (64 * k) (64 * f) ≡ true = ground arith in
      let from : sub64 (64 * (s + f)) (64 * f) ≡ 64 * s = omega arith in
      rw (long, from, set_all-filled s (omega arith) b) refl

  module _ (bound : 64 * length words + 64 < 2 ^ 64) (whole_words : WholeWords words)
      (positive : 0 < k) where
    not_before :
        (s f : ℕ)
        → f < k
        → get_elem? words (s + f) ≡ some ones
        → ((m : ℕ) → m < s → ¬ FreeRun m k)
        → (m : ℕ) → m < s + f + 1
        → ¬ FreeRun m k
    not_before s f lt used before m b = elim (Bool-cases (ltb m s)) [
      | inl early ↦ before m (ground arith)
      | inr late ↦
          blocked m (s + f) (omega arith) (ground arith) (λ free. zero_not_ones _ free used)
    ]

    not_after :
        (s f : ℕ)
        → f < k
        → s + f ≡ length words
        → ((m : ℕ) → m < s → ¬ FreeRun m k)
        → (m : ℕ) → ¬ FreeRun m k
    not_after s f lt e before m run = elim (Bool-cases (ltb m s)) [
      | inl early ↦ before m (ground arith) run
      | inr late ↦
          some_not_none _ 0 (run (k - 1) (omega arith))
            (get_elem?-beyond words (m + (k - 1)) (ground arith))
    ]

    loop-IsFirst :
        (n s f : ℕ)
        → s + f + n ≡ length words
        → f < k
        → FreeRun s f
        → ((m : ℕ) → m < s → ¬ FreeRun m k)
        → IsFirst (find_free (suc n) words (64 * length words) (64 * k) (64 * (s + f)) (64 * f))
    loop-IsFirst zero s f e lt free before =
        let ended = find_free-end zero s f (omega arith) in
        inr (not_after s f lt (omega arith) before, ended)
    loop-IsFirst (suc n) s f e lt free before =
        let rest =
          λ (p g : ℕ). find_free (suc n) words (64 * length words) (64 * k) (64 * p) (64 * g) in
        elim (whole_words (s + f) (omega arith)) [
          | inr used ↦
              let start : s + f + 1 + 0 ≡ s + f + 1 = omega arith in
              let later =
                loop-IsFirst n (s + f + 1) 0 (omega arith) positive (λ j b. absurd (omega arith))
                  (not_before s f lt used before) in
              subst IsFirst (sym (find_free-full (suc n) s f lt (omega arith) bound used))
                (subst (λ (p : ℕ). IsFirst (rest p 0)) start later)
          | inl here ↦
              let step = find_free-empty (suc n) s f lt (omega arith) bound here in
              let longer = FreeRun-extended s f free here in
              let moved : s + (f + 1) ≡ s + f + 1 = omega arith in
              elim (Bool-cases (f + 1 == k)) [
                | inl long ↦
                    let all : f + 1 ≡ k = ground arith in
                    let ended =
                      found_run-long (rest (s + (f + 1)) (f + 1)) s (f + 1) all (omega arith)
                        (omega arith) in
                    inl (
                      s,
                      subst (FreeRun s) all longer,
                      before,
                      step
                          ∙ subst
                              (λ (p : ℕ).
                                found_run (rest p (f + 1)) words (64 * k) (64 * p) (64 * (f + 1))
                                ≡ some (64 * s, filled s))
                              moved ended,
                    )
                | inr short ↦
                    let later =
                      loop-IsFirst n s (f + 1) (omega arith) (ground arith) longer before in
                    subst IsFirst
                      (sym (
                        step
                        ∙ found_run-short (rest (s + f + 1) (f + 1)) (64 * (s + f + 1)) (f + 1)
                            (ground arith)))
                      (subst (λ (p : ℕ). IsFirst (rest p (f + 1))) moved later)
              ]
        ]

    -- `findFree` of a multiple of 64 bits, on words that are empty or full and whose positions stay
    -- below 2^64 - 64, ends: with the position of the first run of as many free words, which it has
    -- filled, leaving the others, or with 0 and the words unchanged where there is no such run.
    pub find_free-IsFirst :
        IsFirst (find_free (suc (length words)) words (64 * length words) (64 * k) 0 0)
    find_free-IsFirst =
        loop-IsFirst (length words) 0 0 (omega arith) positive (λ j b. absurd (omega arith))
          (λ m b. absurd (omega arith))
