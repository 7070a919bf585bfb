-- ===== src/LinkedList/Drain.antt =====
-- The loops that run to the end of a linked list: `clear`, and `remove` of a value.
use nite_os_project.Common.{
  ℕ, zero, suc, ◌<◌, ◌≡◌, ◌≢◌, refl, sym, ap, ◌∙◌, arith, List, [], ◌∷◌, ◌++◌, length, Bool, true,
  false, Option, some, if◌then◌else◌, ◌>>=◌,
}
use mathlib.Core.List.{append-nil, append_assoc}
use nite_os_project.Links.{Store, set_previous}
use nite_os_project.Links.Chain.{first, Chain}
use nite_os_project.Links.Ends.{Ends-empty, Ends-drop_first}
use nite_os_project.LinkedList.{
  LinkedList, unlink, remove_round, remove_loop, remove_value, clear_loop, clear,
}
use nite_os_project.LinkedList.Order.{Holds}

clear_loop-step :
    (fuel : ℕ) (m : Store) (elem : ℕ)
    → elem ≢ 0
    → clear_loop (suc fuel) m elem
      ≡ (clear_loop fuel m (m elem).next >>= λ freed. some (elem ∷ freed))
unfolding clear_loop
clear_loop-step fuel m elem h = ground arith

clear_loop-Chain :
    (fuel : ℕ) (m : Store) (p : ℕ) (xs : List ℕ)
    → length xs < fuel
    → Chain m p xs 0
    → clear_loop fuel m (first xs 0) ≡ some xs
unfolding clear_loop
clear_loop-Chain zero m p xs b c = absurd (omega arith)
clear_loop-Chain (suc fuel) m p [] b c = refl
clear_loop-Chain (suc fuel) m p (x ∷ xs) b (z, e, g, c) =
    let rest = ap (clear_loop fuel m) g ∙ clear_loop-Chain fuel m x xs (omega arith) c in
    clear_loop-step fuel m x z ∙ ap (λ o. o >>= λ freed. some (x ∷ freed)) rest

-- On a list that is linked in order, with more fuel than entries, `clear` ends, deletes every entry once in the list's order, and leaves an empty list.
pub clear-Holds :
    (fuel : ℕ) (l : LinkedList) (xs : List ℕ)
    → Holds l xs
    → length xs < fuel
    → (left : LinkedList) × (clear fuel l ≡ some left)
      × Holds left []
      × (left.freed ≡ l.freed ++ xs)
unfolding clear
clear-Holds fuel l xs h b =
    let looped =
      ap (clear_loop fuel l.links) h.ends.head_eq
      ∙ clear_loop-Chain fuel l.links 0 xs b h.ends.chain in
    (
      record l { head = 0; tail = 0; size = 0; freed = l.freed ++ xs },
      ap
          (λ o. o >>= λ freed.
            some (record l { head = 0; tail = 0; size = 0; freed = l.freed ++ freed }))
          looped,
      record { ends = Ends-empty l.links; size_eq = refl; bound = omega arith },
      refl,
    )

unlink-only :
    (l : LinkedList) (elem : ℕ) → l.size ≡ 1 → unlink l elem ≡ record l { head = 0; tail = 0 }
unfolding unlink
unlink-only l elem h = ground arith

unlink-head :
    (l : LinkedList) (elem y : ℕ)
    → l.size ≢ 1
    → l.head ≡ elem
    → (l.links elem).next ≡ y
    → unlink l elem ≡ record l { links = set_previous l.links y 0; head = y }
unfolding unlink
unlink-head l elem y h e g = ground arith

-- A round of `remove` at the head: the entry goes, whatever it holds.
record Round (del : Bool) (l r : LinkedList) (x : ℕ) (xs : List ℕ) : Type 0 where
  holds : Holds r xs
  next_eq : (r.links x).next ≡ first xs 0
  freed_eq : r.freed ≡ (if del then l.freed ++ x ∷ [] else l.freed)

next_kept : (m : Store) (x y : ℕ) → (set_previous m y 0 x).next ≡ (m x).next
next_kept m x y = ground arith

remove_round-head :
    (del : Bool) (l : LinkedList) (x : ℕ) (xs : List ℕ)
    → Holds l (x ∷ xs)
    → Round del l (remove_round del l x) x xs
unfolding remove_round
remove_round-head del l x [] h =
    let (z, e, g, c) = h.ends.chain in
    rw (unlink-only l x h.size_eq) (record {
      holds = record {
        ends = Ends-empty l.links;
        size_eq = omega (arith, h.size_eq);
        bound = omega arith;
      };
      next_eq = g;
      freed_eq = refl;
    })
remove_round-head del l x (y ∷ ys) h =
    let (z, e, g, c) = h.ends.chain in
    rw (unlink-head l x y (omega (arith, h.size_eq)) h.ends.head_eq g) (record {
      holds = record {
        ends = Ends-drop_first l.links l.head l.tail x y ys h.ends;
        size_eq = omega (arith, h.size_eq, h.bound);
        bound = omega (arith, h.bound);
      };
      next_eq = next_kept l.links x y ∙ g;
      freed_eq = refl;
    })

remove_loop-step :
    (fuel : ℕ) (del : Bool) (l : LinkedList) (elem : ℕ)
    → elem ≢ 0
    → remove_loop (suc fuel) del l elem
      ≡ remove_loop fuel del (remove_round del l elem) ((remove_round del l elem).links elem).next
unfolding remove_loop
remove_loop-step fuel del l elem h = ground arith

-- What the whole loop leaves.
abbrev pub Drained : Option LinkedList → Bool → LinkedList → List ℕ → Type 0
Drained o del l xs =
    (left : LinkedList) × (o ≡ some left)
    × Holds left []
    × (left.freed ≡ (if del then l.freed ++ xs else l.freed))

freed_more :
    (del : Bool) (fs gs : List ℕ) (x : ℕ) (xs : List ℕ)
    → gs ≡ (if del then fs ++ x ∷ [] else fs)
    → (if del then gs ++ xs else gs) ≡ (if del then fs ++ x ∷ xs else fs)
freed_more true fs gs x xs h = ap (λ k. k ++ xs) h ∙ append_assoc fs (x ∷ []) xs
freed_more false fs gs x xs h = h

freed_none : (del : Bool) (fs : List ℕ) → fs ≡ (if del then fs ++ [] else fs)
freed_none true fs = sym (append-nil fs)
freed_none false fs = refl

remove_loop-Drained :
    (fuel : ℕ) (del : Bool) (l : LinkedList) (xs : List ℕ)
    → Holds l xs
    → length xs < fuel
    → Drained (remove_loop fuel del l (first xs 0)) del l xs
unfolding remove_loop
remove_loop-Drained zero del l xs h b = absurd (omega arith)
remove_loop-Drained (suc fuel) del l [] h b = (l, refl, h, freed_none del l.freed)
remove_loop-Drained (suc fuel) del l (x ∷ xs) h b =
    let round = remove_round-head del l x xs h in
    let (left, e, k, f) =
      remove_loop-Drained fuel del (remove_round del l x) xs round.holds (omega arith) in
    (
      left,
      remove_loop-step fuel del l x h.ends.chain.0
          ∙ ap (remove_loop fuel del (remove_round del l x)) round.next_eq
          ∙ e,
      k,
      f ∙ freed_more del l.freed (remove_round del l x).freed x xs round.freed_eq,
    )

-- On a list that is linked in order, with more fuel than entries, `remove` of any value ends with an empty list, and deletes every entry where it is asked
-- to delete: it compares no entry with the value.
pub remove_value-Drained :
    (fuel : ℕ) (l : LinkedList) (xs : List ℕ) (del : Bool)
    → Holds l xs
    → length xs < fuel
    → Drained (remove_value fuel l del) del l xs
unfolding remove_value
remove_value-Drained fuel l [] del h b = (l, ground (arith, h.size_eq), h, freed_none del l.freed)
remove_value-Drained fuel l (x ∷ xs) del h b =
    let some_left : l.size ≢ 0 = omega (arith, h.size_eq) in
    let loop : remove_value fuel l del ≡ remove_loop fuel del l l.head = ground arith in
    let (left, e, k, f) = remove_loop-Drained fuel del l (x ∷ xs) h b in
    (left, loop ∙ ap (remove_loop fuel del l) h.ends.head_eq ∙ e, k, f)
