-- ===== src/CText/Join.antt =====
-- `strcpy` and `strcat` put a text where they are told.
use nite_os_project.Common.{
  ℕ, zero, suc, ◌+◌, ◌<◌, ◌≤◌, ◌≡◌, ◌⊎◌, inl, refl, ap, ◌∙◌, arith, false, ◌==◌, some, List, [],
  ◌∷◌, ◌++◌, length, length-append, update, update-hit, update-miss,
}
use nite_os_project.Bytes.{Memory}
use nite_os_project.CText.{strcpy, strcat}
use nite_os_project.CText.Texts.{IsText, same-Chars, same_text, tail_text, text_append}
use nite_os_project.CText.Measure.{strlen_lem}

-- From `p` on stands the text, and outside of it the memory is as before.
abbrev pub Written : Memory → ℕ → List ℕ → Memory → Type 0
Written m p cs n = IsText n p cs × ((a : ℕ) → (a < p) ⊎ (p + length cs < a) → n a ≡ m a)

-- `strcpy` of a text to a place that is not behind its start, or behind its NUL, ends, with the text
-- there and the memory outside of it as before.
pub strcpy-Written :
    (fuel : ℕ) (m : Memory) (dest src : ℕ) (cs : List ℕ)
    → length cs < fuel
    → IsText m src cs
    → (dest ≤ src) ⊎ (src + length cs < dest)
    → (n : Memory) × (strcpy fuel m dest src ≡ some n) × Written m dest cs n
unfolding strcpy
strcpy-Written zero m dest src cs h t f = absurd (omega arith)
strcpy-Written (suc fuel) m dest src [] h (u, e) f =
    let here : m src ≡ 0 = ap m (omega arith) ∙ e in
    let start : dest + 0 ≡ dest = omega arith in
    rw here (
      update m dest 0,
      refl,
      (
        (tt, ap (update m dest 0) start ∙ update-hit m dest 0),
        (λ a o. update-miss m dest 0 a (ground (arith, o))),
      ),
    )
strcpy-Written (suc fuel) m dest src (c ∷ cs) h t f =
    let ((e, low, high), u) = t.0 in
    let more : (c == 0) ≡ false = ground arith in
    let written = update m dest c in
    let (n, en, ((text, end), others)) =
      strcpy-Written fuel written (dest + 1) (src + 1) cs (omega arith)
        (same_text m written (src + 1) cs (λ a p q. update-miss m dest c a (ground (arith, f)))
          (tail_text m src c cs t))
        (ground (arith, f)) in
    let place : dest + suc (length cs) ≡ dest + 1 + length cs = omega arith in
    let first : n dest ≡ c = others dest (inl (omega arith)) ∙ update-hit m dest c in
    rw (e, more)
      (
        n,
        en,
        (
          (((first, low, high), text), ap n place ∙ end),
          (λ a o. others a (ground (arith, o)) ∙ update-miss m dest c a (ground (arith, o))),
        ),
      )

-- `strcat` of a text to another, whose place with the room behind it the first does not touch, ends
-- with both joined there; the memory before the NUL of the other and behind its new one is as before.
pub strcat-Written :
    (fuel : ℕ) (m : Memory) (dest src : ℕ) (xs ys : List ℕ)
    → length xs < fuel
    → length ys < fuel
    → IsText m dest xs
    → IsText m src ys
    → (dest + length xs ≤ src) ⊎ (src + length ys < dest)
    → (n : Memory) × (strcat fuel m dest src ≡ some n)
      × IsText n dest (xs ++ ys)
      × ((a : ℕ) → (a < dest + length xs) ⊎ (dest + length (xs ++ ys) < a) → n a ≡ m a)
unfolding strcat
strcat-Written fuel m dest src xs ys h k t u f =
    let counted = strlen_lem fuel m dest xs h t in
    let (n, en, (text, others)) =
      strcpy-Written fuel m (dest + length xs) src ys k u (ground (arith, f)) in
    let long = length-append xs ys in
    let kept = same-Chars m n dest xs (λ a p q. others a (inl q)) t.0 in
    (
      n,
      rw counted en,
      text_append n dest xs ys kept text,
      (λ a o. others a (ground (arith, o, long))),
    )
