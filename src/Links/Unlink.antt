-- ===== src/Links/Unlink.antt =====
-- The two links around an entry, joined to leave it out of its chain.
use nite_os_project.Common.{
  ℕ, ◌==◌, if◌then◌else◌, ◌≡◌, ◌≢◌, refl, sym, ap, subst, arith, List, [], ◌∷◌, ◌++◌,
}
use nite_os_project.Links.{Store, set_next, set_previous}
use nite_os_project.Links.Chain.{
  first, last, Distinct, Apart, Apart-tail, Distinct-split, Apart-last, Apart-Fresh, Chain,
  Chain-append, Chain-split, Chain-last, Chain-set_next, Chain-set_previous, Chain-set_next-last,
  Chain-set_previous-first,
}

-- The entry before `p`, if there is one, is pointed at `n`.
unfoldable pub join_before : Store → ℕ → ℕ → Store
join_before m p n = if p == 0 then m else set_next m p n

-- The entry after `n`, if there is one, is pointed back at `p`.
unfoldable pub join_after : Store → ℕ → ℕ → Store
join_after m p n = if n == 0 then m else set_previous m n p

join_before-eq : (m : Store) (p n : ℕ) → p ≢ 0 → join_before m p n ≡ set_next m p n
unfolding join_before
join_before-eq m p n h = ground arith

join_after-eq : (m : Store) (p n : ℕ) → n ≢ 0 → join_after m p n ≡ set_previous m n p
unfolding join_after
join_after-eq m p n h = ground arith

Chain-join_before :
    (m : Store) (xs : List ℕ) (a n : ℕ)
    → Distinct xs
    → Chain m 0 xs a
    → Chain (join_before m (last 0 xs) n) 0 xs n
Chain-join_before m [] a n d c = tt
Chain-join_before m (x ∷ xs) a n d c =
    subst (λ k. Chain k 0 (x ∷ xs) n)
      (sym (join_before-eq m (last x xs) n (Chain-last m 0 x xs a c)))
      (Chain-set_next-last m n 0 x xs a d c)

join_before_none : (m : Store) (n : ℕ) → join_before m 0 n ≡ m
unfolding join_before
join_before_none m n = refl

join_after_none : (m : Store) (p : ℕ) → join_after m p 0 ≡ m
unfolding join_after
join_after_none m p = refl

-- What follows is left alone by the first, and what precedes by the second.
Chain-join_before-rest :
    (m : Store) (xs ys : List ℕ) (a n p e : ℕ)
    → Apart xs ys
    → Chain m 0 xs a
    → Chain m p ys e
    → Chain (join_before m (last 0 xs) n) p ys e
Chain-join_before-rest m [] ys a n p e f d c = rw (join_before_none m n) c
Chain-join_before-rest m (x ∷ xs) ys a n p e (g, f) d c =
    subst (λ k. Chain k p ys e) (sym (join_before-eq m (last x xs) n (Chain-last m 0 x xs a d)))
      (Chain-set_next m (last x xs) n p ys e (Apart-last x xs ys g f) c)

Chain-join_after :
    (m : Store) (ys : List ℕ) (a p : ℕ)
    → Distinct ys
    → Chain m a ys 0
    → Chain (join_after m p (first ys 0)) p ys 0
Chain-join_after m [] a p d c = tt
Chain-join_after m (y ∷ ys) a p d c =
    subst (λ k. Chain k p (y ∷ ys) 0) (sym (join_after-eq m p y c.0))
      (Chain-set_previous-first m p a y ys 0 d c)

Chain-join_after-rest :
    (m : Store) (xs ys : List ℕ) (a p n e : ℕ)
    → Apart xs ys
    → Chain m a ys 0
    → Chain m p xs e
    → Chain (join_after m n (first ys 0)) p xs e
Chain-join_after-rest m xs [] a p n e f d c = rw (join_after_none m n) c
Chain-join_after-rest m xs (y ∷ ys) a p n e f d c =
    subst (λ k. Chain k p xs e) (sym (join_after-eq m n y d.0))
      (Chain-set_previous m y n p xs e (Apart-Fresh y xs ys f) c)

pub Chain-unlink :
    (m : Store) (xs ys : List ℕ) (a : ℕ)
    → Distinct (xs ++ a ∷ ys)
    → Chain m 0 (xs ++ a ∷ ys) 0
    → Chain
        (join_after (join_before m (last 0 xs) (first ys 0)) (last 0 xs) (first ys 0))
        0
        (xs ++ ys)
        0
Chain-unlink m xs ys a d c =
    let (dx, (fa, dy), ap) = Distinct-split xs (a ∷ ys) d in
    let apart = Apart-tail a xs ys ap in
    let (cx, cy) = Chain-split m 0 xs (a ∷ ys) 0 c in
    let before = join_before m (last 0 xs) (first ys 0) in
    let x1 = Chain-join_before m xs a (first ys 0) dx cx in
    let y1 = Chain-join_before-rest m xs ys a (first ys 0) a 0 apart cx cy.3 in
    Chain-append _ 0 xs ys 0
      (Chain-join_after-rest _ xs ys a 0 (last 0 xs) (first ys 0) apart y1 x1)
      (Chain-join_after _ ys a (last 0 xs) dy y1)
