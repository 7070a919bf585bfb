-- ===== src/LinkedList/Order.antt =====
-- A linked list holds its entries in order, and the operations that add one or take one out.
use nite_os_project.Common.{
  ℕ, suc, ◌+◌, ◌^◌, ◌<◌, ◌≡◌, ◌≢◌, refl, ap, ◌∙◌, arith, List, [], ◌∷◌, ◌++◌, length, length-append,
  ◌==◌, if◌then◌else◌,
}
use nite_os_project.Common.Words.{add64, sub64}
use nite_os_project.Links.{Store, set_next, set_previous}
use nite_os_project.Links.Chain.{first, last, Fresh, Chain, Chain-last, Chain-split, last-append}
use nite_os_project.Links.Unlink.{join_before, join_after}
use nite_os_project.Links.Ends.{
  Ends, Ends-single, Ends-add, Ends-drop_head, Ends-drop_last, Ends-drop_inner, Ends-around,
}
use nite_os_project.LinkedList.{
  LinkedList, add, walk_next, remove_first, remove_last, remove_inner, remove_at,
}

pub record Holds (l : LinkedList) (xs : List ℕ) : Type 0 where
  pub ends : Ends l.links l.head l.tail xs
  pub size_eq : l.size ≡ length xs
  pub bound : length xs < 2 ^ 64

add-empty :
    (l : LinkedList) (elem : ℕ)
    → l.size ≡ 0
    → add l elem ≡ record l { head = elem; tail = elem; size = add64 l.size 1 }
unfolding add
add-empty l elem h = ground arith

add-more :
    (l : LinkedList) (elem : ℕ)
    → l.size ≢ 0
    → add l elem ≡ record l {
      links = set_previous (set_next l.links l.tail elem) elem l.tail;
      tail = elem;
      size = add64 l.size 1;
    }
unfolding add
add-more l elem h = ground arith

-- A new entry comes last in the list.
pub add-Holds :
    (l : LinkedList) (xs : List ℕ) (elem : ℕ)
    → Holds l xs
    → elem ≢ 0
    → Fresh elem xs
    → (l.links elem).next ≡ 0
    → (l.links elem).previous ≡ 0
    → length xs + 1 < 2 ^ 64
    → Holds (add l elem) (xs ++ elem ∷ [])
add-Holds l [] elem h nz f n p b = rw (add-empty l elem h.size_eq) (record {
  ends = Ends-single l.links elem nz n p;
  size_eq = omega (arith, h.size_eq);
  bound = b;
})
add-Holds l (x ∷ xs) elem h nz f n p b =
    let grown = length-append (x ∷ xs) (elem ∷ []) in
    rw (add-more l elem (omega (arith, h.size_eq))) (record {
      ends = Ends-add l.links l.head l.tail x xs elem h.ends nz f n;
      size_eq = omega (arith, h.size_eq);
      bound = omega arith;
    })

-- From the first entry, `length xs` steps lead over the entries `xs` to the one behind them.
pub walk_next-append :
    (m : Store) (p : ℕ) (xs ys : List ℕ) (a n : ℕ)
    → Chain m p (xs ++ a ∷ ys) n
    → walk_next m (length xs) (first (xs ++ a ∷ ys) n) ≡ a
unfolding walk_next
walk_next-append m p [] ys a n c = refl
walk_next-append m p (x ∷ xs) ys a n (h, e, g, c) =
    ap (walk_next m (length xs)) g ∙ walk_next-append m x xs ys a n c

remove_first-eq :
    (l : LinkedList) (a n : ℕ)
    → l.head ≡ a
    → (l.links a).next ≡ n
    → remove_first l ≡ record l {
      links = join_after l.links 0 n;
      head = n;
      tail = if n == 0 then 0 else l.tail;
      freed = l.freed ++ a ∷ [];
    }
unfolding remove_first join_after
remove_first-eq l a n h g = ground arith

remove_last-eq :
    (l : LinkedList) (a p : ℕ)
    → l.tail ≡ a
    → (l.links a).previous ≡ p
    → p ≢ 0
    → remove_last l
      ≡ record l { links = join_before l.links p 0; tail = p; freed = l.freed ++ a ∷ [] }
unfolding remove_last join_before
remove_last-eq l a p h g z = ground arith

remove_inner-eq :
    (l : LinkedList) (i a p n : ℕ)
    → walk_next l.links i l.head ≡ a
    → (l.links a).previous ≡ p
    → (l.links a).next ≡ n
    → p ≢ 0
    → n ≢ 0
    → a ≢ p
    → remove_inner l i
      ≡ record l { links = join_after (join_before l.links p n) p n; freed = l.freed ++ a ∷ [] }
unfolding remove_inner join_before join_after
remove_inner-eq l i a p n w e g zp zn h = ground arith

remove_at-first :
    (l : LinkedList)
    → l.size ≢ 0
    → remove_at l 0 ≡ record (remove_first l) { size = sub64 (remove_first l).size 1 }
unfolding remove_at
remove_at-first l h = ground arith

remove_at-last :
    (l : LinkedList) (i : ℕ)
    → i ≢ 0
    → l.size ≡ suc i
    → suc i < 2 ^ 64
    → remove_at l i ≡ record (remove_last l) { size = sub64 (remove_last l).size 1 }
unfolding remove_at
remove_at-last l i h e b = let last : sub64 l.size 1 ≡ i = omega arith in ground arith

remove_at-inner :
    (l : LinkedList) (i : ℕ)
    → i ≢ 0
    → suc i < l.size
    → l.size < 2 ^ 64
    → remove_at l i ≡ record (remove_inner l i) { size = sub64 (remove_inner l i).size 1 }
unfolding remove_at
remove_at-inner l i h e b = let inner : sub64 l.size 1 ≢ i = omega arith in ground arith

-- In a list that is linked in order, `remove(i)` takes the entry at index `i` out, deletes it, and
-- leaves the others linked in their order.
pub remove_at-Holds :
    (l : LinkedList) (xs ys : List ℕ) (a : ℕ)
    → Holds l (xs ++ a ∷ ys)
    → Holds (remove_at l (length xs)) (xs ++ ys)
      × ((remove_at l (length xs)).freed ≡ l.freed ++ a ∷ [])
remove_at-Holds l [] ys a h =
    let (nz, e, f, apart) = Ends-around l.links l.head l.tail [] ys a h.ends in
    rw
      (
        remove_at-first l (omega (arith, h.size_eq)),
        remove_first-eq l a (first ys 0) h.ends.head_eq f,
      )
      (
        record {
          ends = Ends-drop_head l.links l.head l.tail a ys h.ends;
          size_eq = omega (arith, h.size_eq, h.bound);
          bound = omega (arith, h.bound);
        },
        refl,
      )
remove_at-Holds l (x ∷ xs) [] a h =
    let (nz, e, f, apart) = Ends-around l.links l.head l.tail (x ∷ xs) [] a h.ends in
    let long = length-append (x ∷ xs) (a ∷ []) in
    let short = length-append (x ∷ xs) [] in
    let at_last : l.tail ≡ a = h.ends.tail_eq ∙ last-append 0 (x ∷ xs) (a ∷ []) in
    let before =
      Chain-last l.links 0 x xs a (Chain-split l.links 0 (x ∷ xs) (a ∷ []) 0 h.ends.chain).0 in
    rw
      (
        remove_at-last l (length (x ∷ xs)) (omega arith) (omega (arith, h.size_eq))
            (omega (arith, h.bound)),
        remove_last-eq l a (last x xs) at_last e before,
      )
      (
        record {
          ends = Ends-drop_last l.links l.head l.tail x a xs h.ends;
          size_eq = omega (arith, h.size_eq, h.bound);
          bound = omega (arith, h.bound);
        },
        refl,
      )
remove_at-Holds l (x ∷ xs) (y ∷ ys) a h =
    let (nz, e, f, apart) = Ends-around l.links l.head l.tail (x ∷ xs) (y ∷ ys) a h.ends in
    let long = length-append (x ∷ xs) (a ∷ y ∷ ys) in
    let short = length-append (x ∷ xs) (y ∷ ys) in
    let walked =
      ap (walk_next l.links (length (x ∷ xs))) h.ends.head_eq
      ∙ walk_next-append l.links 0 (x ∷ xs) (y ∷ ys) a 0 h.ends.chain in
    let (before, behind) = Chain-split l.links 0 (x ∷ xs) (a ∷ y ∷ ys) 0 h.ends.chain in
    rw
      (
        remove_at-inner l (length (x ∷ xs)) (omega arith) (omega (arith, h.size_eq))
            (omega (arith, h.size_eq, h.bound)),
        remove_inner-eq l (length (x ∷ xs)) a (last x xs) y walked e f
            (Chain-last l.links 0 x xs a before) behind.3.0 apart,
      )
      (
        record {
          ends = Ends-drop_inner l.links l.head l.tail x y a xs ys h.ends;
          size_eq = omega (arith, h.size_eq, h.bound);
          bound = omega (arith, h.bound);
        },
        refl,
      )
