-- ===== src/ArrayList/Clear.antt =====
-- `clear` of an array list, and the destructor: each object that the list holds is deleted once.
use nite_os_project.Common.{
  ℕ, suc, ◌≡◌, refl, ap, arith, some, List, [], ◌∷◌, ◌++◌, length, length-append, snoc_append,
  length-snoc, get_elem?-middle, get_elem?,
}
use nite_os_project.ArrayList.{ArrayList, delete_loop, clear}
use nite_os_project.ArrayList.Grow.{Holds, Same}
use mathlib.Core.List.{reverse, reverse_aux, reverse_aux-eq}

module _ {ℓ} {P : Type ℓ} where
  delete_loop-cells :
      (i : ℕ) (done xs rest freed : List P)
      → i ≡ length done
      → delete_loop (length xs) i (done ++ (xs ++ rest)) freed ≡ some (reverse_aux xs freed)
  unfolding delete_loop
  delete_loop-cells i done [] rest freed e = refl
  delete_loop-cells i done (x ∷ xs) rest freed e =
      let g : get_elem? (done ++ x ∷ (xs ++ rest)) i ≡ some x =
        rw e (get_elem?-middle done x (xs ++ rest)) in
      let more =
        delete_loop-cells (suc i) (done ++ x ∷ []) xs rest (x ∷ freed)
          (omega (arith, length-snoc done x)) in
      rw g (rw (snoc_append done x (xs ++ rest)) at more)

  -- `clear` of an array list that holds `xs` leaves it empty, having deleted each object of `xs` once,
  -- in their order.
  pub clear-Holds :
      (v : ArrayList P) (xs : List P)
      → Holds v xs
      → (w : ArrayList P) × (clear v ≡ some w)
        × Holds w []
        × (w.freed ≡ reverse xs ++ v.freed)
        × Same v w
  unfolding clear
  clear-Holds v xs h =
      let deleted = delete_loop-cells 0 [] xs h.rest v.freed refl in
      (
        record v { size = 0; freed = reverse_aux xs v.freed },
        rw (h.size_eq, h.cells, deleted) refl,
        record {
          rest = v.pointers;
          cells = refl;
          size_eq = refl;
          capacity_eq = omega (arith, h.capacity_eq, ap length h.cells, length-append xs h.rest);
          bound = h.bound;
        },
        reverse_aux-eq xs v.freed,
        (refl, refl),
      )
