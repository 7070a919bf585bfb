-- ===== src/CText/Measure.antt =====
-- What the functions find that only read.
use nite_os_project.Common.{
  ℕ, zero, suc, ◌+◌, ◌%◌, ◌^◌, ◌<◌, ◌≡◌, ◌≢◌, ◌↔◌, inl, inr, refl, sym, ap, ◌∙◌, subst, arith, true,
  false, not, ◌==◌, Bool-cases, Option, some, List, [], ◌∷◌, length,
}
use nite_os_project.Common.Words.{sub32}
use nite_os_project.Bytes.{Memory}
use nite_os_project.CText.{to_int, strlen, strcmp, strchr}
use nite_os_project.CText.Texts.{IsText, tail_text, member}

strlen_from :
    (fuel : ℕ) (m : Memory) (p i : ℕ) (cs : List ℕ)
    → length cs < fuel
    → IsText m (p + i) cs
    → strlen fuel m p i ≡ some (i + length cs)
unfolding strlen
strlen_from zero m p i cs h t = absurd (omega arith)
strlen_from (suc fuel) m p i [] h (u, e) =
    let end : p + i + 0 ≡ p + i = omega arith in
    let here : m (p + i) ≡ 0 = ap m (sym end) ∙ e in
    let result : i ≡ i + 0 = omega arith in rw here (ap some result)
strlen_from (suc fuel) m p i (c ∷ cs) h t =
    let ((e, low, high), u) = t.0 in
    let more : (m (p + i) == 0) ≡ false = ground (arith, e) in
    let next : p + i + 1 ≡ p + (i + 1) = omega arith in
    let result : i + 1 + length cs ≡ i + suc (length cs) = omega arith in
    rw more (
      strlen_from fuel m p (i + 1) cs (omega arith)
        (subst (λ (q : ℕ). IsText m q cs) next (tail_text m (p + i) c cs t))
      ∙ ap some result)

pub strlen_lem :
    (fuel : ℕ) (m : Memory) (p : ℕ) (cs : List ℕ)
    → length cs < fuel
    → IsText m p cs
    → strlen fuel m p 0 ≡ some (length cs)
strlen_lem fuel m p cs h t =
    let start : p ≡ p + 0 = omega arith in
    let result : 0 + length cs ≡ length cs = omega arith in
    strlen_from fuel m p 0 cs h (subst (λ (q : ℕ). IsText m q cs) start t) ∙ ap some result

to_int-differs : (a b : ℕ) → a < 2 ^ 8 → b < 2 ^ 8 → a ≢ b → sub32 (to_int a) (to_int b) ≢ 0
to_int-differs a b ha hb ne e = ground arith

-- The result of a comparison is 0 just when the texts are the same.
abbrev pub Decides : Option ℕ → List ℕ → List ℕ → Type 0
Decides o xs ys = (r : ℕ) × (o ≡ some r) × ((r ≡ 0) ↔ (xs ≡ ys))

differ :
    (fuel : ℕ) (m : Memory) (a b x y : ℕ) (xs ys : List ℕ)
    → m a ≡ x
    → m b ≡ y
    → x < 2 ^ 8
    → y < 2 ^ 8
    → x ≢ y
    → (xs ≢ ys)
    → Decides (strcmp (suc fuel) m a b) xs ys
unfolding strcmp
differ fuel m a b x y xs ys ex ey hx hy ne other =
    let d : (x == y) ≡ false = ground arith in
    let nonzero = to_int-differs x y hx hy ne in
    rw (ex, ey, d)
      (sub32 (to_int x) (to_int y), refl, ((λ z. absurd (nonzero z)), (λ z. absurd (other z))))

head : List ℕ → ℕ
head [] = 0
head (x ∷ xs) = x

tail : List ℕ → List ℕ
tail [] = []
tail (x ∷ xs) = xs

cons_inj : (x y : ℕ) (xs ys : List ℕ) → (x ∷ xs) ≡ (y ∷ ys) → (x ≡ y) × (xs ≡ ys)
unfolding head tail
cons_inj x y xs ys e = (ap head e, ap tail e)

-- `strcmp` of two texts ends, and answers 0 just when they are the same.
pub strcmp-Decides :
    (fuel : ℕ) (m : Memory) (a b : ℕ) (xs ys : List ℕ)
    → length xs < fuel
    → IsText m a xs
    → IsText m b ys
    → Decides (strcmp fuel m a b) xs ys
unfolding strcmp head
strcmp-Decides zero m a b xs ys h t u = absurd (omega arith)
strcmp-Decides (suc fuel) m a b [] [] h (ht, et) (hu, eu) =
    let here : m a ≡ 0 = ap m (omega arith) ∙ et in
    let there : m b ≡ 0 = ap m (omega arith) ∙ eu in
    rw (here, there) (0, refl, ((λ z. refl), (λ z. refl)))
strcmp-Decides (suc fuel) m a b [] (y ∷ ys) h (ht, et) (((e, low, high), hu), eu) =
    let here : m a ≡ 0 = ap m (omega arith) ∙ et in
    differ fuel m a b 0 y [] (y ∷ ys) here e (omega arith) high (omega arith)
      (λ z. (let l : 0 ≡ suc (length ys) = ap length z in absurd (omega arith)))
strcmp-Decides (suc fuel) m a b (x ∷ xs) [] h (((e, low, high), ht), et) (hu, eu) =
    let there : m b ≡ 0 = ap m (omega arith) ∙ eu in
    differ fuel m a b x 0 (x ∷ xs) [] e there high (omega arith) (omega arith)
      (λ z. (let l : suc (length xs) ≡ 0 = ap length z in absurd (omega arith)))
strcmp-Decides (suc fuel) m a b (x ∷ xs) (y ∷ ys) h t u =
    let ((e, low, high), ht) = t.0 in
    let ((f, low2, high2), hu) = u.0 in
    elim (Bool-cases (x == y)) [
      | inr other ↦
          differ fuel m a b x y (x ∷ xs) (y ∷ ys) e f high high2 (ground arith)
            (λ z. (let c = cons_inj x y xs ys z in absurd (ground (arith, c))))
      | inl same ↦
          let more : (x == 0) ≡ false = ground arith in
          let equal : x ≡ y = ground arith in
          let (r, er, (to, from)) =
            strcmp-Decides fuel m (a + 1) (b + 1) xs ys (omega arith) (tail_text m a x xs t)
              (tail_text m b y ys u) in
          rw (e, f, same, more)
            (
              r,
              er,
              (
                (λ z. ap (λ (c : ℕ). c ∷ xs) equal ∙ ap (λ zs. y ∷ zs) (to z)),
                (λ z. from (cons_inj x y xs ys z).1),
              ),
            )
    ]

-- `strchr` of a text finds a character just when the text has it.
pub strchr-member :
    (fuel : ℕ) (m : Memory) (p c : ℕ) (cs : List ℕ)
    → 0 < p
    → length cs < fuel
    → 0 < c % 2 ^ 8
    → IsText m p cs
    → (r : ℕ) × (strchr fuel m p c ≡ some r) × ((r == 0) ≡ not (member (c % 2 ^ 8) cs))
unfolding strchr
strchr-member zero m p c cs pos h low t = absurd (omega arith)
strchr-member (suc fuel) m p c [] pos h low (u, e) =
    let here : m p ≡ 0 = ap m (omega arith) ∙ e in
    let other : (0 == c % 2 ^ 8) ≡ false = ground arith in rw (here, other) (0, refl, refl)
strchr-member (suc fuel) m p c (d ∷ ds) pos h low t =
    let ((e, low2, high), u) = t.0 in
    elim (Bool-cases (d == c % 2 ^ 8)) [
      | inl hit ↦
          (let found : (c % 2 ^ 8 == d) ≡ true = ground arith in
            let place : (p == 0) ≡ false = ground arith in
            rw (e, hit, found) (p, refl, rw place refl))
      | inr miss ↦
          (let lost : (c % 2 ^ 8 == d) ≡ false = ground arith in
            let more : (d == 0) ≡ false = ground arith in
            rw (e, miss, more, lost)
              (strchr-member fuel m (p + 1) c ds (omega arith) (omega arith) low
                (tail_text m p d ds t)))
    ]
