-- ===== src/ArrayList/Grow.antt =====
-- An array list holds its pointers in order, and `add` puts one at the end, in a larger array where
-- the array is full.
use nite_os_project.Common.{
  ◌+◌, ◌*◌, ◌^◌, ◌<◌, ◌≤◌, ◌≡◌, refl, sym, ap, ◌∙◌, arith, true, Option, some, List, [], ◌∷◌, ◌++◌,
  length, length-append, set, replicate, length-replicate, append_assoc, get_elem?-middle,
  snoc_append, length-snoc, ◌⊎◌, inl, inr,
}
use nite_os_project.Common.Words.{add64, mul64}
use nite_os_project.ArrayList.{ArrayList, store, copy_loop, grow, put_last, add}
use native.Mathlib.Decide.{dec_le}
use native.Mathlib.Nat.{mod-eq_of_lt}

-- The list holds `xs`, in front of unused cells `rest`.
pub record Holds {ℓ} {P : Type ℓ} (v : ArrayList P) (xs : List P) : Type ℓ where
  pub rest : List P
  pub cells : v.pointers ≡ xs ++ rest
  pub size_eq : v.size ≡ length xs
  pub capacity_eq : v.capacity ≡ length xs + length rest
  pub bound : v.capacity < 2 ^ 64

-- What no method but `add` and the assignments changes.
abbrev pub Same {ℓ} : {P : Type ℓ} → ArrayList P → ArrayList P → Type 0
Same v w = (w.capacity ≡ v.capacity) × (w.increment ≡ v.increment)

module _ {ℓ} {P : Type ℓ} where
  set-middle :
      (xs : List P) (y z : P) (zs : List P) → set (xs ++ y ∷ zs) (length xs) z ≡ xs ++ z ∷ zs
  set-middle [] y z zs = refl
  set-middle (x ∷ xs) y z zs = ap (λ t. x ∷ t) (set-middle xs y z zs)

  pub store-middle :
      (xs : List P) (y z : P) (zs : List P)
      → store (xs ++ y ∷ zs) (length xs) z ≡ some (xs ++ z ∷ zs)
  store-middle xs y z zs =
      let inside : length xs < length (xs ++ y ∷ zs) = omega (arith, length-append xs (y ∷ zs)) in
      ground (arith, inside, set-middle xs y z zs)

  -- The loop fills the new array with the cells `ys` of the old one.
  copy_loop-cells :
      (done ys rest new : List P)
      → length ys ≤ length new
      → (back : List P) × (copy_loop (length ys) (length done) (done ++ (ys ++ rest)) (done ++ new)
          ≡ some (done ++ (ys ++ back)))
        × (length ys + length back ≡ length new)
  unfolding copy_loop
  copy_loop-cells done [] rest new h = (new, refl, omega arith)
  copy_loop-cells done (y ∷ ys) rest [] h = absurd (omega (arith, h))
  copy_loop-cells done (y ∷ ys) rest (z ∷ new) h =
      let (back, e, count) = copy_loop-cells (done ++ y ∷ []) ys rest new (omega arith) in
      let e' =
        rw
          (
            length-snoc done y,
            snoc_append done y (ys ++ rest),
            snoc_append done y new,
            snoc_append done y (ys ++ back),
          )
          at e in
      (back, rw (get_elem?-middle done y (ys ++ rest), store-middle done z y new) e', omega arith)

  nonempty : (xs : List P) → 0 < length xs → (y : P) × (ys : List P) × (xs ≡ y ∷ ys)
  nonempty [] h = absurd (omega (arith, h))
  nonempty (y ∷ ys) h = (y, ys, refl)

  -- The list holds `xs` now, and has deleted nothing that `v` had not.
  abbrev pub Kept : ArrayList P → List P → Option (ArrayList P) → Type ℓ
  Kept v xs o =
      (w : ArrayList P) × (o ≡ some w)
      × Holds w xs
      × (w.freed ≡ v.freed)
      × (w.increment ≡ v.increment)

  put_last-some :
      (v : ArrayList P) (xs rest : List P) (y p : P)
      → v.pointers ≡ xs ++ y ∷ rest
      → v.size ≡ length xs
      → put_last v p ≡ some (record v { pointers = xs ++ p ∷ rest; size = add64 (length xs) 1 })
  unfolding put_last
  put_last-some v xs rest y p c s = rw (c, s, store-middle xs y p rest) refl

  put_last-Kept :
      (v : ArrayList P) (xs : List P) (p : P)
      → Holds v xs
      → length xs < v.capacity
      → Kept v (xs ++ p ∷ []) (put_last v p)
  put_last-Kept v xs p h room =
      let (y, rest, e) = nonempty h.rest (omega (arith, h.capacity_eq)) in
      let count = ap length e in
      (
        record v { pointers = xs ++ p ∷ rest; size = add64 (length xs) 1 },
        put_last-some v xs rest y p (rw e at h.cells) h.size_eq,
        record {
          rest = rest;
          cells = sym (append_assoc xs (p ∷ []) rest);
          size_eq = omega (arith, length-append xs (p ∷ []), h.capacity_eq, h.bound);
          capacity_eq = omega (arith, length-append xs (p ∷ []), h.capacity_eq, count);
          bound = h.bound;
        },
        refl,
        refl,
      )

  grow-Kept :
      (u : P) (v : ArrayList P) (xs : List P)
      → Holds v xs
      → v.capacity * 2 < 2 ^ 64
      → (w : ArrayList P) × (grow u v ≡ some w)
        × Holds w xs
        × (w.freed ≡ v.freed)
        × (w.increment ≡ v.increment)
        × (w.capacity ≡ v.capacity * 2)
  unfolding grow
  grow-Kept u v xs h b =
      let capacity = mul64 v.capacity 2 in
      let double : capacity ≡ v.capacity * 2 = mod-eq_of_lt b in
      let cells = replicate capacity u in
      let (back, e, count) =
        copy_loop-cells [] xs h.rest cells
          (omega (arith, length-replicate capacity u, h.capacity_eq)) in
      (
        record v { pointers = xs ++ back; capacity = capacity },
        rw (h.size_eq, h.cells, e) refl,
        record {
          rest = back;
          cells = refl;
          size_eq = h.size_eq;
          capacity_eq = omega (arith, count, length-replicate capacity u);
          bound = omega arith;
        },
        refl,
        refl,
        double,
      )

  add-room : (u : P) (v : ArrayList P) (p : P) → v.size < v.capacity → add u v p ≡ put_last v p
  unfolding add
  add-room u v p h = ground arith

  add-full :
      (u : P) (v w : ArrayList P) (p : P)
      → v.size ≡ v.capacity
      → v.increment ≡ true
      → grow u v ≡ some w
      → add u v p ≡ put_last w p
  unfolding add
  add-full u v w p h i g = ground (arith, g)

  -- With `0 < capacity` and `2 * capacity < 2 ^ 64`, an array list that may grow, or has a cell left,
  -- holds after `add` what it held and the new pointer behind it, and deletes nothing.
  pub add-Kept :
      (u : P) (v : ArrayList P) (xs : List P) (p : P)
      → Holds v xs
      → 0 < v.capacity
      → v.capacity * 2 < 2 ^ 64
      → (v.increment ≡ true) ⊎ (length xs < v.capacity)
      → Kept v (xs ++ p ∷ []) (add u v p)
  add-Kept u v xs p h pos b room = elim (dec_le v.capacity (length xs)) [
    | no less ↦
        rw (add-room u v p (omega (arith, h.size_eq))) (put_last-Kept v xs p h (omega arith))
    | yes le ↦
        let grows : v.increment ≡ true = elim room [
          | inl i ↦ i
          | inr less ↦ absurd (omega arith)
        ] in
        let (w, g, held, same, i, double) = grow-Kept u v xs h b in
        let (z, e, holds, freed, j) = put_last-Kept w xs p held (omega (arith, h.capacity_eq)) in
        (
          z,
          add-full u v w p (omega (arith, h.size_eq, h.capacity_eq)) grows g ∙ e,
          holds,
          freed ∙ same,
          j ∙ i,
        )
  ]
