-- ===== src/PageQueue/Fifo.antt =====
-- A page queue holds a list of pages, and its operations are those of a queue on that list.
use nite_os_project.Common.{
  ℕ, ◌+◌, ◌^◌, ◌<◌, ◌≡◌, ◌≢◌, ap, ◌∙◌, arith, List, [], ◌∷◌, ◌++◌, length, length-append, ◌==◌,
  if◌then◌else◌,
}
use nite_os_project.Common.Words.{add32, sub32}
use nite_os_project.Links.{set_next, set_previous}
use nite_os_project.Links.Chain.{first, last, Fresh}
use nite_os_project.Links.Unlink.{join_before, join_after}
use nite_os_project.Links.Ends.{
  Ends, Ends-empty, Ends-single, Ends-add, Ends-drop_first, Ends-unlink, Ends-around,
}
use nite_os_project.PageQueue.{
  PageQueue, push, pop, pop_head, take_away, unlink_before, unlink_after,
}

-- The queue's pages are `xs`, first in first out, linked both ways from null to null.
pub record Holds (q : PageQueue) (xs : List ℕ) : Type 0 where
  pub ends : Ends q.links q.head q.tail xs
  pub size_eq : q.size ≡ length xs
  pub bound : length xs < 2 ^ 32

push-empty :
    (q : PageQueue) (page : ℕ)
    → q.size ≡ 0
    → push q page ≡ record q { head = page; tail = page; size = add32 q.size 1 }
unfolding push
push-empty q page h = ground arith

pub push-more :
    (q : PageQueue) (page : ℕ)
    → q.size ≢ 0
    → push q page ≡ record {
      links = set_previous (set_next q.links q.tail page) page q.tail;
      head = q.head;
      tail = page;
      size = add32 q.size 1;
    }
unfolding push
push-more q page h = ground arith

pop-last :
    (q : PageQueue)
    → q.size ≢ 0
    → (q.links q.head).next ≡ 0
    → pop q ≡ (q.head, record q { head = 0; tail = 0; size = sub32 q.size 1 })
unfolding pop pop_head
pop-last q h z = ground arith

pub pop-more :
    (q : PageQueue) (y : ℕ)
    → q.size ≢ 0
    → (q.links q.head).next ≡ y
    → y ≢ 0
    → pop q
      ≡ (q.head, record q { links = set_previous q.links y 0; head = y; size = sub32 q.size 1 })
unfolding pop pop_head
pop-more q y h e z = ground arith

-- A page, not null and of null links, that is not in a queue linked in order comes last in it, where
-- the size does not overflow.
pub push-Holds :
    (q : PageQueue) (xs : List ℕ) (page : ℕ)
    → Holds q xs
    → page ≢ 0
    → Fresh page xs
    → (q.links page).next ≡ 0
    → (q.links page).previous ≡ 0
    → length xs + 1 < 2 ^ 32
    → Holds (push q page) (xs ++ page ∷ [])
push-Holds q [] page h nz f n p b = rw (push-empty q page h.size_eq) (record {
  ends = Ends-single q.links page nz n p;
  size_eq = omega (arith, h.size_eq);
  bound = b;
})
push-Holds q (x ∷ xs) page h nz f n p b =
    let grown = length-append (x ∷ xs) (page ∷ []) in
    rw (push-more q page (omega (arith, h.size_eq))) (record {
      ends = Ends-add q.links q.head q.tail x xs page h.ends nz f n;
      size_eq = omega (arith, h.size_eq);
      bound = omega arith;
    })

-- What `pop` answers to a queue of `xs`.
abbrev pub Popped : PageQueue → ℕ × PageQueue → List ℕ → Type 0
Popped q r [] = r ≡ (0, q)
Popped q r (x ∷ xs) = (r.0 ≡ x) × Holds r.1 xs

-- `pop` gives the first page of a queue that is linked in order and leaves the rest, and it gives the null page where the
-- queue is empty.
pub pop-Holds : (q : PageQueue) (xs : List ℕ) → Holds q xs → Popped q (pop q) xs
unfolding pop
pop-Holds q [] h = ground (arith, h.size_eq)
pop-Holds q (x ∷ []) h =
    let (k, e, g, c) = h.ends.chain in
    rw (pop-last q (omega (arith, h.size_eq)) (ap (λ a. (q.links a).next) h.ends.head_eq ∙ g)) (
      h.ends.head_eq,
      record { ends = Ends-empty q.links; size_eq = omega (arith, h.size_eq); bound = omega arith },
    )
pop-Holds q (x ∷ y ∷ ys) h =
    let (k, e, g, c) = h.ends.chain in
    let second = ap (λ a. (q.links a).next) h.ends.head_eq ∙ g in
    rw (pop-more q y (omega (arith, h.size_eq)) second c.0) (
      h.ends.head_eq,
      record {
        ends = Ends-drop_first q.links q.head q.tail x y ys h.ends;
        size_eq = omega (arith, h.size_eq, h.bound);
        bound = omega (arith, h.bound);
      },
    )

pub pop-head : (q : PageQueue) → q.size ≢ 0 → (pop q).0 ≡ q.head
unfolding pop
pop-head q h = ground arith

take_away-links :
    (q : PageQueue) (a p n : ℕ)
    → (q.links a).previous ≡ p
    → (q.links a).next ≡ n
    → a ≢ p
    → take_away q a ≡ record {
      links = join_after (join_before q.links p n) p n;
      head = if p == 0 then n else q.head;
      tail = if n == 0 then p else q.tail;
      size = sub32 q.size 1;
    }
unfolding take_away unlink_before unlink_after join_before join_after
take_away-links q a p n e f h = ground arith

-- Wherever a page stands in a queue that is linked in order, taking it away leaves the other pages
-- linked in their order.
pub take_away-Holds :
    (q : PageQueue) (xs ys : List ℕ) (page : ℕ)
    → Holds q (xs ++ page ∷ ys)
    → Holds (take_away q page) (xs ++ ys)
take_away-Holds q xs ys page h =
    let (nz, e, f, apart) = Ends-around q.links q.head q.tail xs ys page h.ends in
    let long = length-append xs (page ∷ ys) in
    let short = length-append xs ys in
    rw (take_away-links q page (last 0 xs) (first ys 0) e f apart) (record {
      ends = Ends-unlink q.links q.head q.tail xs ys page h.ends;
      size_eq = omega (arith, h.size_eq, h.bound);
      bound = omega (arith, h.bound);
    })
