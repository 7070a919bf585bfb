-- ===== src/Buddy/Search.antt =====
-- The search for the least order of which a page can serve a request.
use nite_os_project.Common.{
  ℕ, zero, suc, ◌+◌, ◌^◌, ◌<◌, ◌≤◌, ◌≡◌, ◌≢◌, refl, sym, arith, Bool, true, false, ◌&&◌, not, leb,
  ◌==◌, Bool-cases, inl, inr, subst, ◌⊎◌,
}
use native.Mathlib.Decide.{dec_le}
use nite_os_project.Buddy.{PageList, find_order}

-- The list of an order has a page, of as many small pages as asked for.
abbrev pub Serves : (ℕ → PageList) → ℕ → ℕ → Type 0
Serves lists amount ord = (amount ≤ 2 ^ ord) × ((lists ord).size ≢ 0)

abbrev serves? : (ℕ → PageList) → ℕ → ℕ → Bool
serves? lists amount ord = leb amount (2 ^ ord) && not ((lists ord).size == 0)

Serves-true :
    (lists : ℕ → PageList) (amount ord : ℕ)
    → serves? lists amount ord ≡ true
    → Serves lists amount ord
Serves-true lists amount ord h = (ground arith, ground arith)

Serves-false :
    (lists : ℕ → PageList) (amount ord : ℕ)
    → serves? lists amount ord ≡ false
    → ¬ Serves lists amount ord
Serves-false lists amount ord h (a, b) = ground arith

-- `r` is the least order from `ord` on that serves, or the bound when there is none below it.
abbrev pub IsLeast : (ℕ → PageList) → ℕ → ℕ → ℕ → ℕ → Type 0
IsLeast lists amount ord bound r =
    ((i : ℕ) → ord ≤ i → i < r → ¬ Serves lists amount i)
    × (r ≤ bound)
    × (r < bound → Serves lists amount r)

find_order-here :
    (left ord amount : ℕ) (lists : ℕ → PageList)
    → serves? lists amount ord ≡ true
    → find_order (suc left) ord amount lists ≡ ord
unfolding find_order
find_order-here left ord amount lists h = rw h refl

find_order-next :
    (left ord amount : ℕ) (lists : ℕ → PageList)
    → serves? lists amount ord ≡ false
    → find_order (suc left) ord amount lists ≡ find_order left (suc ord) amount lists
unfolding find_order
find_order-next left ord amount lists h = rw h refl

-- The search stops at the least order that serves, or at the bound when none below it does.
pub find_order-IsLeast :
    (left ord amount : ℕ) (lists : ℕ → PageList)
    → IsLeast lists amount ord (ord + left) (find_order left ord amount lists)
unfolding find_order
find_order-IsLeast zero ord amount lists =
    ((λ i a b. absurd (omega arith)), omega arith, λ b. absurd (omega arith))
find_order-IsLeast (suc left) ord amount lists = elim (Bool-cases (serves? lists amount ord)) [
  | inl h ↦
      subst (IsLeast lists amount ord (ord + suc left))
        (sym (find_order-here left ord amount lists h))
        ((λ i a b. absurd (omega arith)), omega arith, λ b. Serves-true lists amount ord h)
  | inr h ↦
      let (below, bound, found) = find_order-IsLeast left (suc ord) amount lists in
      subst (IsLeast lists amount ord (ord + suc left))
        (sym (find_order-next left ord amount lists h))
        (
          λ i a b. elim (dec_le (suc ord) i) [
            | yes le ↦ below i le b
            | no gt ↦
                let same : ord ≡ i = omega arith in
                subst (λ (j : ℕ). ¬ Serves lists amount j) same (Serves-false lists amount ord h)
          ],
          omega arith,
          λ b. found (omega arith),
        )
]

-- The one least order below the bound is the order found.
pub find_order_eq :
    (amount ord bound : ℕ) (lists : ℕ → PageList)
    → ord ≤ bound
    → ord ≡ bound ⊎ Serves lists amount ord
    → ((i : ℕ) → i < ord → ¬ Serves lists amount i)
    → find_order bound 0 amount lists ≡ ord
find_order_eq amount ord bound lists b here below =
    let (none_below, within, found) = find_order-IsLeast bound 0 amount lists in
    let r = find_order bound 0 amount lists in
    elim (dec_le ord r) [
      | yes le ↦ elim (dec_le r ord) [
        | yes ge ↦ omega arith
        | no gt ↦ elim here [
          | inl e ↦ absurd (omega arith)
          | inr h ↦ absurd (none_below ord (omega arith) (omega arith) h)
        ]
      ]
      | no lt ↦ absurd (below r (omega arith) (found (omega arith)))
    ]
