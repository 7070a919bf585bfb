-- ===== src/PageZone/Lost.antt =====
-- A list of three or more blocks: `Add` leaves the back of the list where it is, so that the blocks
-- between the first and the last are lost.
use nite_os_project.Common.{
  ℕ, ◌+◌, ◌-◌, ◌^◌, ◌<◌, ◌≡◌, ◌≢◌, refl, ap, ◌∙◌, arith, true, false, ◌==◌, Bool-cases, inl, inr,
  ◌>>=◌, Option, none, some, List, [], ◌∷◌, length,
}
use nite_os_project.Common.Words.{add32, sub32}
use nite_os_project.Links.{Store, set_next, set_previous}
use nite_os_project.Links.Chain.{last}
use nite_os_project.PageZone.{NodeList, add_node, Extracted, extract}

-- The calls of `Add` in a row.
abbrev pub add_all : Store → NodeList → List ℕ → Option (Store × NodeList)
add_all m l [] = some (m, l)
add_all m l (x ∷ xs) = add_node m l x >>= λ added. (let (n, k) = added in add_all n k xs)

-- A list of the node `x`, whose next one is `y`, of nodes that number `n`.
abbrev pub IsPair : Store → NodeList → ℕ → ℕ → ℕ → Type 0
IsPair m l x y n = (l.front ≡ x) × (l.back ≡ x) × (l.count ≡ n) × (x ≢ 0) × ((m x).next ≡ y)

same_next : (m : Store) (z b q : ℕ) → ((set_previous m z b) q).next ≡ (m q).next
same_next m z b q = elim (Bool-cases (q == z)) [ inl hit ↦ rw hit refl | inr miss ↦ rw miss refl ]

pub IsPair-add_node :
    (m : Store) (l : NodeList) (x y z n : ℕ)
    → IsPair m l x y n
    → 0 < n
    → n + 1 < 2 ^ 32
    → z ≢ 0
    → z ≢ x
    → (s : Store) × (k : NodeList) × (add_node m l z ≡ some (s, k))
      × IsPair s k x z (n + 1)
      × ((a : ℕ) → a ≢ x → (s a).next ≡ (m a).next)
unfolding add_node
IsPair-add_node m l x y z n (front, back, count, exists, next) pos small given other =
    let a : (z == 0) ≡ false = ground arith in
    let b : (l.count == 0) ≡ false = ground arith in
    let c : (l.back == 0) ≡ false = ground arith in
    let linked = set_next (set_previous m z l.back) l.back z in
    let at_back : (x == l.back) ≡ true = ground arith in
    let counted : add32 l.count 1 ≡ n + 1 = omega arith in
    (
      linked,
      record l { count = add32 l.count 1 },
      rw (a, b, c) refl,
      (front, back, counted, exists, rw at_back refl),
      (λ q ne.
          let miss : (q == l.back) ≡ false = ground (arith, ne) in
          rw miss (same_next m z l.back q)),
    )

-- Nodes that may be added behind `x`.
abbrev pub AreOther : ℕ → List ℕ → Type 0
AreOther x [] = Unit
AreOther x (y ∷ ys) = ((y ≢ 0) × (y ≢ x)) × AreOther x ys

IsPair-add_all :
    (ys : List ℕ) (m : Store) (l : NodeList) (x y n : ℕ)
    → IsPair m l x y n
    → 0 < n
    → n + length ys < 2 ^ 32
    → AreOther x ys
    → (s : Store) × (k : NodeList) × (add_all m l ys ≡ some (s, k))
      × IsPair s k x (last y ys) (n + length ys)
      × ((a : ℕ) → a ≢ x → (s a).next ≡ (m a).next)
IsPair-add_all [] m l x y n (front, back, count, exists, next) pos small others =
    (m, l, refl, (front, back, omega (arith, count), exists, next), (λ a ne. refl))
IsPair-add_all (z ∷ ys) m l x y n pair pos small ((given, other), others) =
    let (s, k, e, longer, kept) = IsPair-add_node m l x y z n pair pos (omega arith) given other in
    let (t, j, f, (front, back, count, exists, next), kept2) =
      IsPair-add_all ys s k x z (n + 1) longer (omega arith) (omega arith) others in
    (
      t,
      j,
      rw e f,
      (front, back, omega (arith, count), exists, next),
      (λ a ne. kept2 a ne ∙ kept a ne),
    )

-- The first of the pair is taken, and what is left has no second.
pub extract-IsPair :
    (m : Store) (l : NodeList) (x y n : ℕ)
    → IsPair m l x y n
    → 2 < n
    → n < 2 ^ 32
    → y ≢ 0
    → y ≢ x
    → (m y).next ≡ 0
    → (e : Extracted) × (extract m l ≡ some e)
      × (e.node ≡ x)
      × (e.list.count ≡ n - 1)
      × (extract e.links e.list ≡ none)
unfolding extract
extract-IsPair m l x y n (front, back, count, exists, next) many small given other end =
    let a : (l.count == 0) ≡ false = ground arith in
    let b : (l.count == 1) ≡ false = ground arith in
    let c : (l.front == 0) ≡ false = ground arith in
    let after : (m l.front).next ≡ y = ap (λ (q : ℕ). (m q).next) front ∙ next in
    let d : (y == 0) ≡ false = ground (arith, given) in
    let left : sub32 l.count 1 ≡ n - 1 = omega arith in
    let a2 : (n - 1 == 0) ≡ false = ground arith in
    let b2 : (n - 1 == 1) ≡ false = ground arith in
    let miss : (y == l.front) ≡ false = ground (arith, other) in
    let empty : (set_next (set_previous m y 0) l.front 0 y).next ≡ 0 =
      rw miss (same_next m y 0 y ∙ end) in
    (
      record {
        links = set_next (set_previous m y 0) l.front 0;
        list = record l { front = y; count = n - 1 };
        node = l.front;
      },
      rw (a, b, c, after, d, left) refl,
      front,
      refl,
      rw (a2, b2, d, empty) refl,
    )

other_last : (x z : ℕ) (zs : List ℕ) → AreOther x (z ∷ zs) → (last z zs ≢ 0) × (last z zs ≢ x)
other_last x z [] (here, more) = here
other_last x z (y ∷ ys) (here, more) = other_last x y ys more

-- When the nodes `x`, `y`, `z` and more, less than 2^32 of them, are added to a list that is empty,
-- none of them 0 and none but the first of them `x`, and the last one of them has no next one, then
-- the first `Extract` gives `x`, and the second writes through the null pointer.
pub extract-add_all :
    (m : Store) (l : NodeList) (x y z : ℕ) (zs : List ℕ)
    → l.count ≡ 0
    → x ≢ 0
    → AreOther x (y ∷ z ∷ zs)
    → length zs + 3 < 2 ^ 32
    → (m (last z zs)).next ≡ 0
    → (s : Store) × (k : NodeList) × (e : Extracted) × (add_all m l (x ∷ y ∷ z ∷ zs) ≡ some (s, k))
      × (extract s k ≡ some e)
      × (e.node ≡ x)
      × (extract e.links e.list ≡ none)
unfolding add_node
extract-add_all m l x y z zs empty exists (second, others) small end =
    let one : NodeList = record { front = x; back = x; count = 1 } in
    let start : IsPair m one x ((m x).next) 1 = (refl, refl, refl, exists, refl) in
    let a : (x == 0) ≡ false = ground (arith, exists) in
    let (s, k, added, pair, kept) =
      IsPair-add_all (y ∷ z ∷ zs) m one x ((m x).next) 1 start (omega arith) (omega arith)
        (second, others) in
    let (given, other) = other_last x z zs others in
    let (e, taken, node, left, fails) =
      extract-IsPair s k x (last z zs) (1 + length (y ∷ z ∷ zs)) pair (omega arith) (omega arith)
        given other (kept (last z zs) other ∙ end) in
    (s, k, e, rw (a, empty) added, taken, node, fails)
