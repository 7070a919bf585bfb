-- ===== src/PageQueue/Reuse.antt =====
-- A page that comes back to the queue with the links it left with, and the null page of `take`.
use nite_os_project.Common.{ℕ, ◌≡◌, ◌≢◌, refl, ap, ◌∙◌, arith, List, ◌∷◌, ◌++◌, inl, inr}
use nite_os_project.Links.{Store, set_next, set_previous}
use nite_os_project.Links.Chain.{Fresh-last}
use nite_os_project.Links.Ends.{Ends-around}
use nite_os_project.PageQueue.{PageQueue, push, pop, take_away, take, page_not_found}
use nite_os_project.PageQueue.Fifo.{Holds, push-more, pop-more, pop-Holds, take_away-Holds}

-- The links of `x` after it is popped before `y` and hung on `t`.
relinked :
    (m : Store) (x y t : ℕ)
    → x ≢ y
    → x ≢ t
    → (set_previous (set_next (set_previous m y 0) t x) x t x).next ≡ (m x).next
relinked m x y t h g = ground arith

-- The first of two pages or more that is popped and pushed again becomes the tail, and its `_next`
-- is still the page that is now the head: a walk along the queue goes round for ever.
pub pop-push-cycle :
    (q : PageQueue) (x y : ℕ) (ys : List ℕ)
    → Holds q (x ∷ y ∷ ys)
    → ((push (pop q).1 x).head ≡ y)
      × ((push (pop q).1 x).tail ≡ x)
      × (((push (pop q).1 x).links x).next ≡ y)
pop-push-cycle q x y ys h =
    let (nx, e, g, c) = h.ends.chain in
    let (f, d) = h.ends.distinct in
    let left = (pop-Holds q (x ∷ y ∷ ys) h).1 in
    let popped =
      pop-more q y (omega (arith, h.size_eq)) (ap (λ a. (q.links a).next) h.ends.head_eq ∙ g) c.0 in
    let apart : x ≢ q.tail = λ i. Fresh-last y ys f (i ∙ h.ends.tail_eq) in
    let stale = relinked q.links x y q.tail f.0 apart ∙ g in
    let pushed = push-more (pop q).1 x (omega (arith, left.size_eq)) in
    rw (pushed, popped) (refl, refl, stale)

-- `take` answers the null page with an error, and takes a page of the queue away from it.
pub take-Holds :
    (q : PageQueue) (xs ys : List ℕ) (page : ℕ)
    → Holds q (xs ++ page ∷ ys)
    → (take q 0 ≡ inl page_not_found)
      × ((left : PageQueue) × (take q page ≡ inr (page, left)) × Holds left (xs ++ ys))
unfolding take
take-Holds q xs ys page h =
    let nz : page ≢ 0 = (Ends-around q.links q.head q.tail xs ys page h.ends).0 in
    (refl, (take_away q page, ground arith, take_away-Holds q xs ys page h))
