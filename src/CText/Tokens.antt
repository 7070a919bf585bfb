-- ===== src/CText/Tokens.antt =====
-- `strtok_r` takes the next token from a text.
use nite_os_project.Common.{
  ℕ, suc, ◌+◌, ◌<◌, ◌≡◌, ◌⊎◌, inl, inr, refl, ap, ◌∙◌, arith, true, false, ◌==◌, if◌then◌else◌,
  some, List, [], ◌∷◌, ◌++◌, length, update, update-hit, update-miss,
}
use nite_os_project.Bytes.{Memory}
use nite_os_project.CText.{Token, next_token, strtok_r}
use nite_os_project.CText.Texts.{
  Chars, IsText, same-Chars, same_text, tail_text, text_parts, member,
}
use nite_os_project.CText.Spans.{AllAre, Ends, strspn_lem, strcspn_lem}

module _ (m : Memory) (delim : ℕ) (ds : List ℕ) (pos : 0 < delim) (delims : IsText m delim ds) where
  -- What follows a token: nothing, or a delimiter.
  abbrev pub Follows : List ℕ → Type 0
  Follows [] = Unit
  Follows (d ∷ rest) = member d ds ≡ true

  -- Where `strtok_r` goes on the next time: nowhere, or at the text behind the delimiter.
  abbrev pub GoesOn : Token → ℕ → List ℕ → Type 0
  GoesOn k q [] = k.save ≡ 0
  GoesOn k q (d ∷ rest) = (k.save ≡ q + 1) × IsText k.memory (q + 1) rest

  Ends-of : (q : ℕ) (rest : List ℕ) → IsText m q rest → Follows rest → Ends m q false ds
  Ends-of q [] (t, e) f = inl (ap m (omega arith) ∙ e)
  Ends-of q (d ∷ rest) (((e, low, high), t), end) f = inr (rw e low, rw e high, rw e f)

  taken :
      (p q : ℕ) (tok rest : List ℕ)
      → p + length tok ≡ q
      → 0 < length tok
      → Chars m p tok
      → IsText m q rest
      → (k : Token) × (some (
            if q == p
            then record { memory = m; save = 0; token = 0 }
            else if m q == 0
            then record { memory = m; save = 0; token = p }
            else record { memory = update m q 0; save = q + 1; token = p })
          ≡ some k)
        × (k.token ≡ p)
        × IsText k.memory p tok
        × GoesOn k q rest
  taken p q tok [] e long t (u, z) =
      let differ : (q == p) ≡ false = ground arith in
      let end : m q ≡ 0 = ap m (omega arith) ∙ z in
      rw (differ, end) (_, refl, refl, (t, ap m e ∙ end), refl)
  taken p q tok (d ∷ rest) e long t (((here, low, high), u), z) =
      let differ : (q == p) ≡ false = ground arith in
      let more : (d == 0) ≡ false = ground arith in
      let cut = update m q 0 in
      rw (differ, here, more)
        (
          _,
          refl,
          refl,
          (
            same-Chars m cut p tok (λ a x y. update-miss m q 0 a (ground arith)) t,
            ap cut e ∙ update-hit m q 0,
          ),
          (
            refl,
            same_text m cut (q + 1) rest (λ a x y. update-miss m q 0 a (ground arith))
                (tail_text m q d rest (((here, low, high), u), z)),
          ),
        )

  next_token_lem :
      (fuel p : ℕ) (skip tok rest : List ℕ)
      → length skip + length tok + length ds < fuel
      → IsText m p (skip ++ (tok ++ rest))
      → AllAre true ds skip
      → AllAre false ds tok
      → 0 < length tok
      → Follows rest
      → (k : Token) × (next_token (suc fuel) m p delim ≡ some k)
        × (k.token ≡ p + length skip)
        × IsText k.memory (p + length skip) tok
        × GoesOn k (p + length skip + length tok) rest
  unfolding next_token
  next_token_lem fuel p skip [] rest h t before inside long f = absurd (omega arith)
  next_token_lem fuel p skip (c ∷ tok) rest h t before inside long f =
      let (front, back) = text_parts m p skip ((c ∷ tok) ++ rest) t in
      let (middle, behind) = text_parts m (p + length skip) (c ∷ tok) rest back in
      let ((here, low, high), others) = middle in
      let stop : Ends m (p + length skip) true ds =
        inr (rw here low, rw here high, rw here inside.0) in
      let skipped =
        strspn_lem m delim ds pos delims fuel p 0 skip (omega arith) front before stop in
      let size =
        strcspn_lem m delim ds pos delims fuel (p + length skip) 0 (c ∷ tok) (omega arith) middle
          inside (Ends-of (p + length skip + suc (length tok)) rest behind f) in
      let a : 0 + length skip ≡ length skip = omega arith in
      let b : 0 + suc (length tok) ≡ suc (length tok) = omega arith in
      rw (skipped, a, size, b)
        (taken (p + length skip) (p + length skip + suc (length tok)) (c ∷ tok) rest refl
          (omega arith) middle behind)

  starts_at :
      (fuel p str save : ℕ)
      → 0 < p
      → (str ≡ p) ⊎ (str ≡ 0) × (save ≡ p)
      → strtok_r fuel m str delim save ≡ next_token fuel m p delim
  unfolding strtok_r
  starts_at fuel p str save low (inl e) =
      let given : (p == 0) ≡ false = ground arith in rw (e, given) refl
  starts_at fuel p str save low (inr (z, e)) =
      let given : (p == 0) ≡ false = ground arith in rw (z, e, given) refl

  -- From the place that it is given, or else from the saved one, `strtok_r` skips delimiters and gives
  -- the place of the token behind them, which it ends with a NUL. It saves the place of the text behind
  -- the delimiter after the token, or the null pointer where the text ends with the token.
  pub strtok_r-token :
      (fuel p str save : ℕ) (skip tok rest : List ℕ)
      → 0 < p
      → (str ≡ p) ⊎ (str ≡ 0) × (save ≡ p)
      → length skip + length tok + length ds < fuel
      → IsText m p (skip ++ (tok ++ rest))
      → AllAre true ds skip
      → AllAre false ds tok
      → 0 < length tok
      → Follows rest
      → (k : Token) × (strtok_r (suc fuel) m str delim save ≡ some k)
        × (k.token ≡ p + length skip)
        × IsText k.memory (p + length skip) tok
        × GoesOn k (p + length skip + length tok) rest
  strtok_r-token fuel p str save skip tok rest low from h t before inside long f =
      rw (starts_at (suc fuel) p str save low from)
        (next_token_lem fuel p skip tok rest h t before inside long f)

  -- Where only delimiters are left, `strtok_r` gives the null pointer and saves it.
  pub strtok_r-none :
      (fuel p str save : ℕ) (skip : List ℕ)
      → 0 < p
      → (str ≡ p) ⊎ (str ≡ 0) × (save ≡ p)
      → length skip + length ds < fuel
      → IsText m p skip
      → AllAre true ds skip
      → strtok_r (suc fuel) m str delim save ≡ some (record { memory = m; save = 0; token = 0 })
  unfolding next_token
  strtok_r-none fuel p str save skip low from h t all =
      let skipped = strspn_lem m delim ds pos delims fuel p 0 skip h t.0 all (inl t.1) in
      let a : 0 + length skip ≡ length skip = omega arith in
      let nothing =
        strcspn_lem m delim ds pos delims fuel (p + length skip) 0 [] (omega arith) tt tt
          (inl (ap m (omega arith) ∙ t.1)) in
      let end : (p + length skip + (0 + 0) == p + length skip) ≡ true = ground arith in
      starts_at (suc fuel) p str save low from ∙ rw (skipped, a, nothing, end) refl
