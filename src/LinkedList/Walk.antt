-- ===== src/LinkedList/Walk.antt =====
-- `get` and `operator[]` find the same entry, from whichever end they go.
use nite_os_project.Common.{
  ℕ, zero, suc, ◌-◌, ◌/◌, ◌<◌, ◌≤◌, ◌≡◌, refl, ap, ◌∙◌, arith, List, [], ◌∷◌, ◌++◌, length,
  length-append,
}
use native.Mathlib.Decide.{dec_le}
use nite_os_project.Common.Words.{sub64}
use nite_os_project.Links.{Store}
use nite_os_project.Links.Chain.{last, Chain, Chain-split, last-append}
use nite_os_project.LinkedList.{LinkedList, walk_next, walk_previous, get, at}
use nite_os_project.LinkedList.Order.{Holds, walk_next-append}

walk_previous-suc :
    (m : Store) (n t : ℕ) → walk_previous m (suc n) t ≡ (m (walk_previous m n t)).previous
unfolding walk_previous
walk_previous-suc m zero t = refl
walk_previous-suc m (suc n) t = walk_previous-suc m n (m t).previous

-- From the last entry, `length ys` steps back lead over the entries `ys`.
walk_previous-last :
    (m : Store) (p a : ℕ) (ys : List ℕ) (n : ℕ)
    → Chain m p (a ∷ ys) n
    → walk_previous m (length ys) (last a ys) ≡ a
unfolding walk_previous
walk_previous-last m p a [] n c = refl
walk_previous-last m p a (y ∷ ys) n (z, e, g, c) =
    walk_previous-suc m (length ys) (last y ys)
    ∙ ap (λ t. (m t).previous) (walk_previous-last m a y ys n c)
    ∙ c.1

get-walk : (l : LinkedList) (i : ℕ) → i < l.size → get l i ≡ walk_next l.links i l.head
unfolding get
get-walk l i h = ground arith

get-beyond : (l : LinkedList) (i : ℕ) → l.size ≤ i → get l i ≡ 0
unfolding get
get-beyond l i h = ground arith

at-walk_next : (l : LinkedList) (i : ℕ) → i < l.size / 2 → at l i ≡ walk_next l.links i l.head
unfolding at
at-walk_next l i h = ground arith

at-walk_previous :
    (l : LinkedList) (i : ℕ)
    → l.size / 2 ≤ i
    → at l i ≡ walk_previous l.links (sub64 l.size 1 - i) l.tail
unfolding at
at-walk_previous l i h = ground arith

reached_next :
    (l : LinkedList) (xs ys : List ℕ) (a : ℕ)
    → Holds l (xs ++ a ∷ ys)
    → walk_next l.links (length xs) l.head ≡ a
reached_next l xs ys a h =
    ap (walk_next l.links (length xs)) h.ends.head_eq
    ∙ walk_next-append l.links 0 xs ys a 0 h.ends.chain

reached_previous :
    (l : LinkedList) (xs ys : List ℕ) (a : ℕ)
    → Holds l (xs ++ a ∷ ys)
    → walk_previous l.links (length ys) l.tail ≡ a
reached_previous l xs ys a h =
    ap (walk_previous l.links (length ys)) (h.ends.tail_eq ∙ last-append 0 xs (a ∷ ys))
    ∙ walk_previous-last l.links (last 0 xs) a ys 0
        (Chain-split l.links 0 xs (a ∷ ys) 0 h.ends.chain).1

at-reached :
    (l : LinkedList) (xs ys : List ℕ) (a : ℕ) → Holds l (xs ++ a ∷ ys) → at l (length xs) ≡ a
at-reached l xs ys a h =
    let long = length-append xs (a ∷ ys) in
    let steps : sub64 l.size 1 - length xs ≡ length ys = omega (arith, h.size_eq, h.bound) in
    elim (dec_le (l.size / 2) (length xs)) [
      | yes le ↦
          at-walk_previous l (length xs) le
          ∙ ap (λ n. walk_previous l.links n l.tail) steps
          ∙ reached_previous l xs ys a h
      | no gt ↦ at-walk_next l (length xs) (omega arith) ∙ reached_next l xs ys a h
    ]

-- In a list that is linked in order, at an index in range, `get` and `operator[]` both find the entry there, although the second goes
-- from the nearer end; `get` answers null to any greater index.
pub get-at :
    (l : LinkedList) (xs ys : List ℕ) (a : ℕ)
    → Holds l (xs ++ a ∷ ys)
    → (get l (length xs) ≡ a)
      × (at l (length xs) ≡ a)
      × ((i : ℕ) → length (xs ++ a ∷ ys) ≤ i → get l i ≡ 0)
get-at l xs ys a h =
    let long = length-append xs (a ∷ ys) in
    (
      get-walk l (length xs) (omega (arith, h.size_eq)) ∙ reached_next l xs ys a h,
      at-reached l xs ys a h,
      λ i b. get-beyond l i (omega (arith, h.size_eq)),
    )
