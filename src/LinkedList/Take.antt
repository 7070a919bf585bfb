-- ===== src/LinkedList/Take.antt =====
-- `takeFirst` and `takeLast`, on every list: the entry returned, and the list left.
use nite_os_project.Common.{
  ℕ, ◌-◌, ◌^◌, ◌≡◌, ◌≢◌, refl, sym, ap, ◌∙◌, subst, arith, List, [], ◌∷◌, ◌++◌, length-append,
}
use mathlib.Core.List.{append-nil}
use nite_os_project.Common.Words.{sub64}
use nite_os_project.Links.{Store, set_previous}
use nite_os_project.Links.Chain.{
  last, Fresh, Apart-Fresh, Chain-last, Chain-split, Distinct-split, last-append,
  Chain-set_previous, Fresh-last,
}
use nite_os_project.Links.Unlink.{join_before}
use nite_os_project.Links.Ends.{Ends, Ends-empty, Ends-drop_first, Ends-drop_last, Ends-around}
use nite_os_project.LinkedList.{LinkedList, take_first, take_last}
use nite_os_project.LinkedList.Order.{Holds}

take_first-only :
    (l : LinkedList)
    → l.head ≡ l.tail
    → take_first l ≡ (l.head, record l { head = 0; tail = 0; size = sub64 l.size 1 })
unfolding take_first
take_first-only l h = ground arith

take_first-more :
    (l : LinkedList) (y : ℕ)
    → l.head ≢ l.tail
    → (l.links l.head).next ≡ y
    → take_first l
      ≡ (l.head, record l { links = set_previous l.links y 0; head = y; size = sub64 l.size 1 })
unfolding take_first
take_first-more l y h e = ground arith

-- The list of an answer: on an empty list the size wraps around to its greatest value.
abbrev pub Taken : ℕ × LinkedList → ℕ → List ℕ → Type 0
Taken r x xs = (r.0 ≡ x) × Holds r.1 xs

abbrev pub TakenFirst : ℕ × LinkedList → List ℕ → Type 0
TakenFirst r [] = (r.0 ≡ 0) × (r.1.size ≡ 2 ^ 64 - 1)
TakenFirst r (x ∷ xs) = Taken r x xs

-- In a list that is linked in order, `takeFirst` returns the first entry and leaves the others; on an empty list it returns null and
-- the size wraps around to 2^64 - 1.
pub take_first-Holds : (l : LinkedList) (xs : List ℕ) → Holds l xs → TakenFirst (take_first l) xs
take_first-Holds l [] h =
    rw (take_first-only l (h.ends.head_eq ∙ sym h.ends.tail_eq))
      (h.ends.head_eq, omega (arith, h.size_eq))
take_first-Holds l (x ∷ []) h = rw (take_first-only l (h.ends.head_eq ∙ sym h.ends.tail_eq)) (
  h.ends.head_eq,
  record { ends = Ends-empty l.links; size_eq = omega (arith, h.size_eq); bound = omega arith },
)
take_first-Holds l (x ∷ y ∷ ys) h =
    let (k, e, g, c) = h.ends.chain in
    let apart : l.head ≢ l.tail =
      λ i. Fresh-last y ys h.ends.distinct.0 (sym h.ends.head_eq ∙ i ∙ h.ends.tail_eq) in
    rw (take_first-more l y apart (ap (λ a. (l.links a).next) h.ends.head_eq ∙ g)) (
      h.ends.head_eq,
      record {
        ends = Ends-drop_first l.links l.head l.tail x y ys h.ends;
        size_eq = omega (arith, h.size_eq, h.bound);
        bound = omega (arith, h.bound);
      },
    )

take_last-only :
    (l : LinkedList)
    → l.head ≡ l.tail
    → take_last l ≡ (l.tail, record l { head = 0; tail = 0; size = sub64 l.size 1 })
unfolding take_last
take_last-only l h = ground arith

take_last-more :
    (l : LinkedList) (a p : ℕ)
    → l.head ≢ l.tail
    → l.tail ≡ a
    → (l.links a).previous ≡ p
    → p ≢ 0
    → take_last l ≡ (
      a,
      record l {
        links = set_previous (join_before l.links p 0) a 0;
        tail = p;
        size = sub64 l.size 1;
      },
    )
unfolding take_last join_before
take_last-more l a p h t e z = ground arith

-- An entry outside loses its link back.
Ends-set_previous :
    (m : Store) (head tail a v : ℕ) (xs : List ℕ)
    → Fresh a xs
    → Ends m head tail xs
    → Ends (set_previous m a v) head tail xs
Ends-set_previous m head tail a v xs f h = record {
  head_eq = h.head_eq;
  tail_eq = h.tail_eq;
  chain = Chain-set_previous m a v 0 xs 0 f h.chain;
  distinct = h.distinct;
}

-- In a list that is linked in order and not empty, `takeLast` returns the last entry and leaves the others in their order.
pub take_last-Holds :
    (l : LinkedList) (xs : List ℕ) (a : ℕ)
    → Holds l (xs ++ a ∷ [])
    → ((take_last l).0 ≡ a) × Holds (take_last l).1 xs
take_last-Holds l [] a h = rw (take_last-only l (h.ends.head_eq ∙ sym h.ends.tail_eq)) (
  h.ends.tail_eq,
  record { ends = Ends-empty l.links; size_eq = omega (arith, h.size_eq); bound = omega arith },
)
take_last-Holds l (x ∷ xs) a h =
    let (nz, e, f, apart) = Ends-around l.links l.head l.tail (x ∷ xs) [] a h.ends in
    let long = length-append (x ∷ xs) (a ∷ []) in
    let at_last : l.tail ≡ a = h.ends.tail_eq ∙ last-append 0 (x ∷ xs) (a ∷ []) in
    let before =
      Chain-last l.links 0 x xs a (Chain-split l.links 0 (x ∷ xs) (a ∷ []) 0 h.ends.chain).0 in
    let (dx, da, ap) = Distinct-split (x ∷ xs) (a ∷ []) h.ends.distinct in
    let two : l.head ≢ l.tail =
      λ i. (Apart-Fresh a (x ∷ xs) [] ap).0 (sym (sym h.ends.head_eq ∙ i ∙ at_last)) in
    let left =
      subst (λ k. Ends (join_before l.links (last x xs) 0) l.head (last x xs) k)
        (append-nil (x ∷ xs)) (Ends-drop_last l.links l.head l.tail x a xs h.ends) in
    rw (take_last-more l a (last x xs) two at_last e before) (
      refl,
      record {
        ends =
            Ends-set_previous _ l.head (last x xs) a 0 (x ∷ xs) (Apart-Fresh a (x ∷ xs) [] ap) left;
        size_eq = omega (arith, h.size_eq, h.bound);
        bound = omega (arith, h.bound);
      },
    )
