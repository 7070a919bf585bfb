-- ===== src/ArrayList/Owned.antt =====
-- What an array list owns over its life: each object that was added is held, or has been deleted,
-- exactly once.
use nite_os_project.Common.{
  ℕ, zero, suc, ◌*◌, ◌^◌, ◌<◌, ◌≡◌, refl, sym, ap, ◌∙◌, subst, arith, Bool, true, false, Option,
  none, some, List, [], ◌∷◌, ◌++◌, length, length-append, Bool-cases, ◌⊎◌, inl, inr, replicate,
  length-replicate, ◌≢◌,
}
use nite_os_project.ArrayList.{
  ArrayList, new_list, add, remove_index, remove_value, remove_last, clear,
}
use nite_os_project.ArrayList.Grow.{Holds, Same, add-Kept}
use nite_os_project.ArrayList.Remove.{
  any, remove_index-Holds, remove_index-outside, remove_value-Holds, remove_value-none,
}
use nite_os_project.ArrayList.Clear.{clear-Holds}
use mathlib.Core.List.{Perm, perm_middle, append_assoc, reverse, reverse_perm}
use mathlib.Core.List.Perm
use mathlib.Core.Option.{some-injective}
use nite_os_project.Common.Words.{sub64}
use native.Mathlib.Decide.{dec_le}

-- A call that returns, with the objects that were added before and after it. `add` is called while
-- the capacity may be doubled in 64 bits.
pub data Step {ℓ} {P : Type ℓ} (u : P) : List P → ArrayList P → List P → ArrayList P → Type ℓ where
  added :
      {old : List P} {v w : ArrayList P} (p : P)
      → v.capacity * 2 < 2 ^ 64
      → add u v p ≡ some w
      → Step u old v (p ∷ old) w
  removed :
      {old : List P} {v w : ArrayList P} (i : ℕ) → remove_index v i ≡ some w → Step u old v old w
  removed_value :
      {old : List P} {v w : ArrayList P} (matches : P → Bool)
      → remove_value matches v ≡ some w
      → Step u old v old w
  removed_last : {old : List P} {v w : ArrayList P} → remove_last v ≡ some w → Step u old v old w
  cleared : {old : List P} {v w : ArrayList P} → clear v ≡ some w → Step u old v old w

pub data Steps {ℓ} {P : Type ℓ} (u : P) (n : ℕ) : List P → ArrayList P → Type ℓ where
  start : Steps u n [] (new_list u n true)
  next :
      {old new : List P} {v w : ArrayList P}
      → Steps u n old v
      → Step u old v new w
      → Steps u n new w

pub record Owned {ℓ} {P : Type ℓ} (all : List P) (v : ArrayList P) : Type ℓ where
  pub held : List P
  pub holds : Holds v held
  pub owned : Perm (held ++ v.freed) all
  pub positive : 0 < v.capacity
  pub grows : v.increment ≡ true

same_result {ℓ κ} :
    {A : Type ℓ} {a b : A} {o : Option A} (Q : A → Type κ) → o ≡ some a → Q a → o ≡ some b → Q b
same_result {a} {b} Q e q e' = subst Q (some-injective a b (sym e ∙ e')) q

returns {ℓ} : {A : Type ℓ} {a : A} {o : Option A} → o ≡ some a → o ≢ none
returns {a} e n = subst (λ o. elim o [ none ↦ ⊥ | some _ ↦ Unit ]) (sym e ∙ n) tt

module _ {ℓ} {P : Type ℓ} where
  -- Where the position `i` splits a list, and where the first element with a property does.
  split_at :
      (xs : List P) (i : ℕ)
      → i < length xs
      → (ys : List P) × (p : P) × (zs : List P) × (xs ≡ ys ++ p ∷ zs) × (length ys ≡ i)
  split_at [] i h = absurd (omega (arith, h))
  split_at (x ∷ xs) zero h = ([], x, xs, refl, refl)
  split_at (x ∷ xs) (suc i) h =
      let (ys, p, zs, e, n) = split_at xs i (omega arith) in
      (x ∷ ys, p, zs, ap (λ t. x ∷ t) e, ap suc n)

  split_any :
      (matches : P → Bool) (xs : List P)
      → (any matches xs ≡ false)
        ⊎ ((ys : List P) × (p : P) × (zs : List P) × (xs ≡ ys ++ p ∷ zs)
            × (any matches ys ≡ false)
            × (matches p ≡ true))
  split_any matches [] = inl refl
  split_any matches (x ∷ xs) = elim (Bool-cases (matches x)) [
    | inl hit ↦ inr ([], x, xs, refl, refl, hit)
    | inr miss ↦ elim (split_any matches xs) [
      | inl others ↦ inl (rw miss others)
      | inr (ys, p, zs, e, others, hit) ↦
          inr (x ∷ ys, p, zs, ap (λ t. x ∷ t) e, rw miss others, hit)
    ]
  ]

  perm_moved :
      (xs ys freed all : List P) (p : P)
      → Perm ((xs ++ p ∷ ys) ++ freed) all
      → Perm ((xs ++ ys) ++ p ∷ freed) all
  perm_moved xs ys freed all p h =
      let out : Perm ((xs ++ p ∷ ys) ++ freed) (p ∷ ((xs ++ ys) ++ freed)) =
        rw (append_assoc xs (p ∷ ys) freed, append_assoc xs ys freed)
          (perm_middle xs (ys ++ freed)) in
      Perm.trans (perm_middle (xs ++ ys) freed) (Perm.trans (Perm.symm out) h)

  -- What each removal does to the invariant.
  Owned-taken :
      (old xs ys : List P) (v w : ArrayList P) (p : P)
      → Perm ((xs ++ p ∷ ys) ++ v.freed) old
      → 0 < v.capacity
      → v.increment ≡ true
      → Holds w (xs ++ ys)
      → w.freed ≡ p ∷ v.freed
      → Same v w
      → Owned old w
  Owned-taken old xs ys v w p o pos g h f (c, i) = record {
    held = xs ++ ys;
    holds = h;
    owned = rw f (perm_moved xs ys v.freed old p o);
    positive = omega arith;
    grows = i ∙ g;
  }

  remove_index-Owned :
      (old : List P) (v : ArrayList P) (i : ℕ)
      → Owned old v
      → (w : ArrayList P) × (remove_index v i ≡ some w) × Owned old w
  remove_index-Owned old v i o = elim (dec_le v.size i) [
    | yes le ↦ (v, remove_index-outside v i le, o)
    | no gt ↦
        let (ys, p, zs, e, n) = split_at o.held i (omega (arith, o.holds.size_eq)) in
        let (w, r, h, f, same) = remove_index-Holds v ys zs p (rw e at o.holds) in
        let perm = rw e at o.owned in
        (
          w,
          ap (remove_index v) (sym n) ∙ r,
          Owned-taken old ys zs v w p perm o.positive o.grows h f same,
        )
  ]

  remove_value-Owned :
      (old : List P) (v : ArrayList P) (matches : P → Bool)
      → Owned old v
      → (w : ArrayList P) × (remove_value matches v ≡ some w) × Owned old w
  remove_value-Owned old v matches o = elim (split_any matches o.held) [
    | inl others ↦ (v, remove_value-none matches v o.held o.holds others, o)
    | inr (ys, p, zs, e, others, hit) ↦
        let (w, r, h, f, same) =
          remove_value-Holds matches v ys zs p (rw e at o.holds) others hit in
        let perm = rw e at o.owned in
        (w, r, Owned-taken old ys zs v w p perm o.positive o.grows h f same)
  ]

  clear-Owned :
      (old : List P) (v : ArrayList P)
      → Owned old v
      → (w : ArrayList P) × (clear v ≡ some w) × Owned old w
  clear-Owned old v o =
      let (w, r, h, f, (c, i)) = clear-Holds v o.held o.holds in
      let turned : Perm (reverse o.held ++ v.freed) (o.held ++ v.freed) =
        Perm.append (reverse_perm o.held) (Perm.refl v.freed) in
      (
        w,
        r,
        record {
          held = [];
          holds = h;
          owned = rw f (Perm.trans turned o.owned);
          positive = omega (arith, o.positive);
          grows = i ∙ o.grows;
        },
      )

  add-Owned :
      (u : P) (old : List P) (v : ArrayList P) (p : P)
      → v.capacity * 2 < 2 ^ 64
      → Owned old v
      → (w : ArrayList P) × (add u v p ≡ some w) × Owned (p ∷ old) w
  add-Owned u old v p b o =
      let (w, r, h, f, i) = add-Kept u v o.held p o.holds o.positive b (inl o.grows) in
      let more : Perm ((o.held ++ p ∷ []) ++ v.freed) (p ∷ (o.held ++ v.freed)) =
        rw (append_assoc o.held (p ∷ []) v.freed) (perm_middle o.held v.freed) in
      (
        w,
        r,
        record {
          held = o.held ++ p ∷ [];
          holds = h;
          owned = rw f (Perm.trans more (Perm.cons p o.owned));
          positive = omega (arith, h.capacity_eq, length-append o.held (p ∷ []));
          grows = i ∙ o.grows;
        },
      )

  Step-Owned :
      (u : P) (old new : List P) (v w : ArrayList P)
      → Owned old v
      → Step u old v new w
      → Owned new w
  unfolding remove_last
  Step-Owned u old new v w o (added p b e) =
      let (_, r, q) = add-Owned u old v p b o in same_result (Owned new) r q e
  Step-Owned u old new v w o (removed i e) =
      let (_, r, q) = remove_index-Owned old v i o in same_result (Owned old) r q e
  Step-Owned u old new v w o (removed_value matches e) =
      let (_, r, q) = remove_value-Owned old v matches o in same_result (Owned old) r q e
  Step-Owned u old new v w o (removed_last e) =
      let (_, r, q) = remove_index-Owned old v (sub64 v.size 1) o in same_result (Owned old) r q e
  Step-Owned u old new v w o (cleared e) =
      let (_, r, q) = clear-Owned old v o in same_result (Owned old) r q e

  new_list-Owned : (u : P) (n : ℕ) → 0 < n → n < 2 ^ 64 → Owned [] (new_list u n true)
  unfolding new_list
  new_list-Owned u n pos b = record {
    held = [];
    holds = record {
      rest = replicate n u;
      cells = refl;
      size_eq = refl;
      capacity_eq = omega (arith, length-replicate n u);
      bound = b;
    };
    owned = Perm.refl [];
    positive = pos;
    grows = refl;
  }

  -- Whatever methods are called on a growing array list of a first capacity from 1 to `2 ^ 64 - 1`,
  -- each object that was added is held by it or has been deleted, and no object is both or twice,
  -- unless it was added twice.
  pub Steps-Owned :
      (u : P) (n : ℕ) (all : List P) (v : ArrayList P)
      → 0 < n
      → n < 2 ^ 64
      → Steps u n all v
      → Owned all v
  Steps-Owned u n all v pos b start = new_list-Owned u n pos b
  Steps-Owned u n all v pos b (next {old} {v = w} before step) =
      Step-Owned u old all w v (Steps-Owned u n old w pos b before) step

  -- On an array list reached so, every call of `remove`, `removeLast` and `clear` stays inside the
  -- array, and so does `add` while the capacity may be doubled in 64 bits.
  pub Steps-returns :
      (u : P) (n : ℕ) (all : List P) (v : ArrayList P)
      → 0 < n
      → n < 2 ^ 64
      → Steps u n all v
      → ((i : ℕ) → remove_index v i ≢ none)
        × ((matches : P → Bool) → remove_value matches v ≢ none)
        × (remove_last v ≢ none)
        × (clear v ≢ none)
        × (v.capacity * 2 < 2 ^ 64 → (p : P) → add u v p ≢ none)
  unfolding remove_last
  Steps-returns u n all v pos b s =
      let o = Steps-Owned u n all v pos b s in
      (
        λ i. returns (remove_index-Owned all v i o).1,
        λ matches. returns (remove_value-Owned all v matches o).1,
        returns (remove_index-Owned all v (sub64 v.size 1) o).1,
        returns (clear-Owned all v o).1,
        λ room p. returns (add-Owned u all v p room o).1,
      )
