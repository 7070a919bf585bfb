-- ===== src/ArrayList/Remove.antt =====
-- `remove` of an array list: the pointers behind the removed one move down by a cell.
use nite_os_project.Common.{
  ℕ, suc, ◌+◌, ◌-◌, ◌≤◌, ◌≡◌, refl, sym, ap, ◌∙◌, subst, arith, Bool, true, false, some, List, [],
  ◌∷◌, ◌++◌, length, length-append, append_assoc, snoc_append, length-snoc, get_elem?-middle,
  get_elem?, leb, ◌||◌,
}
use nite_os_project.ArrayList.{ArrayList, shift_loop, remove_index, remove_loop, remove_value}
use nite_os_project.ArrayList.Grow.{Holds, Same, store-middle}

module _ {ℓ} {P : Type ℓ} where
  -- The loop writes `ys` one cell lower, over `x`; the last cell keeps what it had.
  shift_loop-cells :
      (xs ys rest : List P) (x : P)
      → (z : P) × (shift_loop (length ys) (length xs) (xs ++ x ∷ (ys ++ rest))
          ≡ some (xs ++ (ys ++ z ∷ rest)))
  unfolding shift_loop
  shift_loop-cells xs [] rest x = (x, refl)
  shift_loop-cells xs (y ∷ ys) rest x =
      let (z, e) = shift_loop-cells (xs ++ y ∷ []) ys rest y in
      let e' =
        rw
          (length-snoc xs y, snoc_append xs y (y ∷ (ys ++ rest)), snoc_append xs y (ys ++ z ∷ rest))
          at e in
      let next =
        rw (length-snoc xs x, snoc_append xs x (y ∷ (ys ++ rest))) at
          (get_elem?-middle (xs ++ x ∷ []) y (ys ++ rest)) in
      (z, rw (next, store-middle xs x y (y ∷ (ys ++ rest))) e')

  -- An array list that holds `xs ++ p ∷ ys` holds `xs ++ ys` after `remove(length xs)`, which deletes
  -- `p` and nothing else.
  pub remove_index-Holds :
      (v : ArrayList P) (xs ys : List P) (p : P)
      → Holds v (xs ++ p ∷ ys)
      → (w : ArrayList P) × (remove_index v (length xs) ≡ some w)
        × Holds w (xs ++ ys)
        × (w.freed ≡ p ∷ v.freed)
        × Same v w
  unfolding remove_index
  remove_index-Holds v xs ys p h =
      let cells : v.pointers ≡ xs ++ p ∷ (ys ++ h.rest) =
        h.cells ∙ append_assoc xs (p ∷ ys) h.rest in
      let size : v.size ≡ length xs + 1 + length ys =
        omega (arith, h.size_eq, length-append xs (p ∷ ys)) in
      let rounds : v.size - 1 - length xs ≡ length ys = omega arith in
      let inside : leb v.size (length xs) ≡ false = ground arith in
      let (z, e) = shift_loop-cells xs ys h.rest p in
      (
        record v { pointers = xs ++ (ys ++ z ∷ h.rest); size = v.size - 1; freed = p ∷ v.freed },
        rw (inside, rounds, cells, get_elem?-middle xs p (ys ++ h.rest), e) refl,
        record {
          rest = z ∷ h.rest;
          cells = sym (append_assoc xs ys (z ∷ h.rest));
          size_eq = omega (arith, length-append xs ys);
          capacity_eq =
              omega (arith, h.capacity_eq, length-append xs ys, length-append xs (p ∷ ys));
          bound = h.bound;
        },
        refl,
        (refl, refl),
      )

  pub remove_index-outside : (v : ArrayList P) (i : ℕ) → v.size ≤ i → remove_index v i ≡ some v
  unfolding remove_index
  remove_index-outside v i h = ground arith

  abbrev pub any : (P → Bool) → List P → Bool
  any matches [] = false
  any matches (x ∷ xs) = matches x || any matches xs

  any-head :
      (matches : P → Bool) (x : P) (xs : List P)
      → any matches (x ∷ xs) ≡ false
      → (matches x ≡ false) × (any matches xs ≡ false)
  any-head matches x xs h = ground arith

  remove_loop-hit :
      (matches : P → Bool) (v : ArrayList P) (n i : ℕ) (p : P)
      → get_elem? v.pointers i ≡ some p
      → matches p ≡ true
      → remove_loop matches (suc n) i v ≡ remove_index v i
  unfolding remove_loop
  remove_loop-hit matches v n i p g m = ground arith

  remove_loop-miss :
      (matches : P → Bool) (v : ArrayList P) (n i : ℕ) (p : P)
      → get_elem? v.pointers i ≡ some p
      → matches p ≡ false
      → remove_loop matches (suc n) i v ≡ remove_loop matches n (suc i) v
  unfolding remove_loop
  remove_loop-miss matches v n i p g m = ground arith

  fetch :
      (v : ArrayList P) (done tail : List P) (x : P) (i : ℕ)
      → v.pointers ≡ done ++ x ∷ tail
      → i ≡ length done
      → get_elem? v.pointers i ≡ some x
  fetch v done tail x i c e = rw (c, e) (get_elem?-middle done x tail)

  remove_loop-found :
      (matches : P → Bool) (v : ArrayList P) (i : ℕ) (done xs ys rest : List P) (p : P)
      → v.pointers ≡ done ++ ((xs ++ p ∷ ys) ++ rest)
      → i ≡ length done
      → any matches xs ≡ false
      → matches p ≡ true
      → remove_loop matches (length (xs ++ p ∷ ys)) i v ≡ remove_index v (i + length xs)
  remove_loop-found matches v i done [] ys rest p c e a m =
      let g = fetch v done (ys ++ rest) p i c e in
      remove_loop-hit matches v (length ys) i p g m ∙ ap (remove_index v) {x = i} (omega arith)
  remove_loop-found matches v i done (x ∷ xs) ys rest p c e a m =
      let (miss, others) = any-head matches x xs a in
      let tail = (xs ++ p ∷ ys) ++ rest in
      remove_loop-miss matches v (length (xs ++ p ∷ ys)) i x (fetch v done tail x i c e) miss
      ∙ remove_loop-found matches v (suc i) (done ++ x ∷ []) xs ys rest p
          (c ∙ sym (snoc_append done x tail)) (omega (arith, length-snoc done x)) others m
      ∙ ap (remove_index v) {x = suc i + length xs} {y = i + suc (length xs)} (omega arith)

  -- On an array list that holds `xs ++ p ∷ ys`, where the object of `p` equals the value and that of
  -- no pointer in `xs` does, `remove(value)` deletes `p` alone and leaves `xs ++ ys`.
  pub remove_value-Holds :
      (matches : P → Bool) (v : ArrayList P) (xs ys : List P) (p : P)
      → Holds v (xs ++ p ∷ ys)
      → any matches xs ≡ false
      → matches p ≡ true
      → (w : ArrayList P) × (remove_value matches v ≡ some w)
        × Holds w (xs ++ ys)
        × (w.freed ≡ p ∷ v.freed)
        × Same v w
  unfolding remove_value
  remove_value-Holds matches v xs ys p h a m =
      let (w, e, held, freed, same) = remove_index-Holds v xs ys p h in
      let found = remove_loop-found matches v 0 [] xs ys h.rest p h.cells refl a m in
      let index : 0 + length xs ≡ length xs = omega arith in
      (
        w,
        subst (λ n. remove_loop matches n 0 v ≡ some w) (sym h.size_eq)
            (found ∙ ap (remove_index v) index ∙ e),
        held,
        freed,
        same,
      )

  remove_loop-none :
      (matches : P → Bool) (v : ArrayList P) (i : ℕ) (done xs rest : List P)
      → v.pointers ≡ done ++ (xs ++ rest)
      → i ≡ length done
      → any matches xs ≡ false
      → remove_loop matches (length xs) i v ≡ some v
  unfolding remove_loop
  remove_loop-none matches v i done [] rest c e a = refl
  remove_loop-none matches v i done (x ∷ xs) rest c e a =
      let (miss, others) = any-head matches x xs a in
      remove_loop-miss matches v (length xs) i x (fetch v done (xs ++ rest) x i c e) miss
      ∙ remove_loop-none matches v (suc i) (done ++ x ∷ []) xs rest
          (c ∙ sym (snoc_append done x (xs ++ rest))) (omega (arith, length-snoc done x)) others

  pub remove_value-none :
      (matches : P → Bool) (v : ArrayList P) (xs : List P)
      → Holds v xs
      → any matches xs ≡ false
      → remove_value matches v ≡ some v
  unfolding remove_value
  remove_value-none matches v xs h a =
      subst (λ n. remove_loop matches n 0 v ≡ some v) (sym h.size_eq)
        (remove_loop-none matches v 0 [] xs h.rest h.cells refl a)
