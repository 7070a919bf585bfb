-- ===== src/CText/Texts.antt =====
-- Characters and texts in the memory.
use nite_os_project.Common.{
  ℕ, suc, ◌+◌, ◌^◌, ◌<◌, ◌≤◌, ◌≡◌, ◌⊎◌, ap, ◌∙◌, subst, arith, Bool, false, ◌||◌, ◌==◌, List, [],
  ◌∷◌, ◌++◌, length, length-append,
}
use nite_os_project.Bytes.{Memory}

-- The characters stand in the memory from `p` on; none of them is NUL.
abbrev pub Chars : Memory → ℕ → List ℕ → Type 0
Chars m p [] = Unit
Chars m p (c ∷ cs) = ((m p ≡ c) × (0 < c) × (c < 2 ^ 8)) × Chars m (p + 1) cs

-- The same, with a NUL behind them.
abbrev pub IsText : Memory → ℕ → List ℕ → Type 0
IsText m p cs = Chars m p cs × (m (p + length cs) ≡ 0)

-- No address of one stretch is one of the other.
abbrev pub IsApart : ℕ → ℕ → ℕ → ℕ → Type 0
IsApart p n q k = (p + n ≤ q) ⊎ (q + k ≤ p)

pub same-Chars :
    (m n : Memory) (p : ℕ) (cs : List ℕ)
    → ((a : ℕ) → p ≤ a → a < p + length cs → n a ≡ m a)
    → Chars m p cs
    → Chars n p cs
same-Chars m n p [] same h = h
same-Chars m n p (c ∷ cs) same ((e, low, high), h) = (
  (same p (omega arith) (omega arith) ∙ e, low, high),
  same-Chars m n (p + 1) cs (λ a u v. same a (omega arith) (omega arith)) h,
)

pub same_text :
    (m n : Memory) (p : ℕ) (cs : List ℕ)
    → ((a : ℕ) → p ≤ a → a ≤ p + length cs → n a ≡ m a)
    → IsText m p cs
    → IsText n p cs
same_text m n p cs same (h, e) = (
  same-Chars m n p cs (λ a u v. same a u (omega arith)) h,
  same (p + length cs) (omega arith) (omega arith) ∙ e,
)

pub tail_text : (m : Memory) (p c : ℕ) (cs : List ℕ) → IsText m p (c ∷ cs) → IsText m (p + 1) cs
tail_text m p c cs ((head, h), e) =
    let end : p + 1 + length cs ≡ p + suc (length cs) = omega arith in (h, ap m end ∙ e)

pub Chars-append :
    (m : Memory) (p : ℕ) (xs ys : List ℕ)
    → Chars m p xs
    → Chars m (p + length xs) ys
    → Chars m p (xs ++ ys)
Chars-append m p [] ys h k =
    let start : p + 0 ≡ p = omega arith in subst (λ (q : ℕ). Chars m q ys) start k
Chars-append m p (x ∷ xs) ys (head, h) k =
    let start : p + suc (length xs) ≡ p + 1 + length xs = omega arith in
    (head, Chars-append m (p + 1) xs ys h (subst (λ (q : ℕ). Chars m q ys) start k))

pub text_append :
    (m : Memory) (p : ℕ) (xs ys : List ℕ)
    → Chars m p xs
    → IsText m (p + length xs) ys
    → IsText m p (xs ++ ys)
text_append m p xs ys h (k, e) =
    let long = length-append xs ys in
    let end : p + length (xs ++ ys) ≡ p + length xs + length ys = omega arith in
    (Chars-append m p xs ys h k, ap m end ∙ e)

-- The text has the character.
abbrev pub member : ℕ → List ℕ → Bool
member c [] = false
member c (d ∷ ds) = (c == d) || member c ds

pub text_parts :
    (m : Memory) (p : ℕ) (xs ys : List ℕ)
    → IsText m p (xs ++ ys)
    → Chars m p xs × IsText m (p + length xs) ys
text_parts m p [] ys t =
    let start : p ≡ p + 0 = omega arith in (tt, subst (λ (q : ℕ). IsText m q ys) start t)
text_parts m p (x ∷ xs) ys ((head, h), e) =
    let next : p + 1 + length xs ≡ p + suc (length xs) = omega arith in
    let (front, back) = text_parts m (p + 1) xs ys (tail_text m p x (xs ++ ys) ((head, h), e)) in
    ((head, front), subst (λ (q : ℕ). IsText m q ys) next back)
