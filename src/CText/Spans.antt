-- ===== src/CText/Spans.antt =====
-- What `strspn` and `strcspn` count.
use nite_os_project.Common.{
  ℕ, zero, suc, ◌+◌, ◌%◌, ◌^◌, ◌<◌, ◌≡◌, ◌⊎◌, inl, inr, ap, ◌∙◌, subst, arith, Bool, true, false,
  not, ◌==◌, some, List, [], ◌∷◌, length,
}
use nite_os_project.Bytes.{Memory}
use nite_os_project.CText.{to_int, strchr, strspn, strcspn}
use nite_os_project.CText.Texts.{Chars, IsText, member}
use nite_os_project.CText.Measure.{strchr-member}

-- The test of every one of the characters for being among `ds` gives `b`.
abbrev pub AllAre : Bool → List ℕ → List ℕ → Type 0
AllAre b ds [] = Unit
AllAre b ds (c ∷ cs) = (member c ds ≡ b) × AllAre b ds cs

-- At `p` stands NUL, or a character for which the test gives the other answer.
abbrev pub Ends : Memory → ℕ → Bool → List ℕ → Type 0
Ends m p b ds = (m p ≡ 0) ⊎ ((0 < m p) × (m p < 2 ^ 8) × (member (m p) ds ≡ not b))

to_int_byte : (c : ℕ) → c < 2 ^ 8 → to_int c % 2 ^ 8 ≡ c
to_int_byte c h = ground arith

-- `strchr` among the delimiters, as the spans ask it.
asked :
    (fuel : ℕ) (m : Memory) (delim c : ℕ) (ds : List ℕ)
    → 0 < delim
    → length ds < fuel
    → IsText m delim ds
    → 0 < c
    → c < 2 ^ 8
    → (r : ℕ) × (strchr fuel m delim (to_int c) ≡ some r) × ((r == 0) ≡ not (member c ds))
asked fuel m delim c ds pos h t low high =
    let same = to_int_byte c high in
    let (r, e, b) = strchr-member fuel m delim (to_int c) ds pos h (ground (arith, same)) t in
    (r, e, subst (λ (d : ℕ). (r == 0) ≡ not (member d ds)) same b)

module _ (m : Memory) (delim : ℕ) (ds : List ℕ) (pos : 0 < delim) (delims : IsText m delim ds) where
  pub strspn_lem :
      (fuel p ret : ℕ) (cs : List ℕ)
      → length cs + length ds < fuel
      → Chars m p cs
      → AllAre true ds cs
      → Ends m (p + length cs) true ds
      → strspn (suc fuel) m p delim ret ≡ some (ret + length cs)
  unfolding strspn
  strspn_lem fuel p ret [] h t all end =
      let here : p + 0 ≡ p = omega arith in
      elim (subst (λ (q : ℕ). Ends m q true ds) here end) [
        | inl z ↦ rw z (ap some (omega arith))
        | inr (low, high, other) ↦
            let (r, e, b) = asked fuel m delim (m p) ds pos (omega arith) delims low high in
            let none_found : (r == 0) ≡ true = b ∙ ap not other in
            let more : (m p == 0) ≡ false = ground arith in
            rw (more, e, none_found) (ap some (omega arith))
      ]
  strspn_lem zero p ret (c ∷ cs) h t all end = absurd (omega arith)
  strspn_lem (suc fuel) p ret (c ∷ cs) h ((here, low, high), t) (is, all) end =
      let (r, e, b) = asked (suc fuel) m delim c ds pos (omega arith) delims low high in
      let found : (r == 0) ≡ false = b ∙ ap not is in
      let more : (c == 0) ≡ false = ground arith in
      let next : p + suc (length cs) ≡ p + 1 + length cs = omega arith in
      let rest =
        strspn_lem fuel (p + 1) (ret + 1) cs (omega arith) t all
          (subst (λ (q : ℕ). Ends m q true ds) next end) in
      let sum : ret + 1 + length cs ≡ ret + suc (length cs) = omega arith in
      rw (here, more, e, found) (rest ∙ ap some sum)

  pub strcspn_lem :
      (fuel p ret : ℕ) (cs : List ℕ)
      → length cs + length ds < fuel
      → Chars m p cs
      → AllAre false ds cs
      → Ends m (p + length cs) false ds
      → strcspn (suc fuel) m p delim ret ≡ some (ret + length cs)
  unfolding strcspn
  strcspn_lem fuel p ret [] h t all end =
      let here : p + 0 ≡ p = omega arith in
      elim (subst (λ (q : ℕ). Ends m q false ds) here end) [
        | inl z ↦ rw z (ap some (omega arith))
        | inr (low, high, other) ↦
            let (r, e, b) = asked fuel m delim (m p) ds pos (omega arith) delims low high in
            let found : (r == 0) ≡ false = b ∙ ap not other in
            let more : (m p == 0) ≡ false = ground arith in
            rw (more, e, found) (ap some (omega arith))
      ]
  strcspn_lem zero p ret (c ∷ cs) h t all end = absurd (omega arith)
  strcspn_lem (suc fuel) p ret (c ∷ cs) h ((here, low, high), t) (is, all) end =
      let (r, e, b) = asked (suc fuel) m delim c ds pos (omega arith) delims low high in
      let none_found : (r == 0) ≡ true = b ∙ ap not is in
      let more : (c == 0) ≡ false = ground arith in
      let next : p + suc (length cs) ≡ p + 1 + length cs = omega arith in
      let rest =
        strcspn_lem fuel (p + 1) (ret + 1) cs (omega arith) t all
          (subst (λ (q : ℕ). Ends m q false ds) next end) in
      let sum : ret + 1 + length cs ≡ ret + suc (length cs) = omega arith in
      rw (here, more, e, none_found) (rest ∙ ap some sum)
