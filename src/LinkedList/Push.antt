-- ===== src/LinkedList/Push.antt =====
-- The two pushes of the other linked list, on a list that is in order.
use nite_os_project.Common.{
  ℕ, ◌+◌, ◌^◌, ◌<◌, ◌≡◌, ◌≢◌, refl, sym, ◌∙◌, arith, List, [], ◌∷◌, length,
}
use nite_os_project.Common.Words.{add64}
use nite_os_project.Links.{Store, set_next, set_previous}
use nite_os_project.Links.Chain.{Fresh, Chain-set_next, Chain-set_previous-first}
use nite_os_project.Links.Ends.{Ends-single}
use nite_os_project.LinkedList.{LinkedList, add, push_back_node, push_front_node}
use nite_os_project.LinkedList.Order.{Holds}

-- On a list in order, `pushBack` does what `add` does.
pub push_back_node-add :
    (l : LinkedList) (xs : List ℕ) (node : ℕ) → Holds l xs → push_back_node l node ≡ add l node
unfolding push_back_node add
push_back_node-add l [] node h =
    let no_head : l.head ≡ 0 = h.ends.head_eq in
    let no_size : l.size ≡ 0 = h.size_eq in ground arith
push_back_node-add l (x ∷ xs) node h =
    let some_head : l.head ≢ 0 = λ e. h.ends.chain.0 (sym h.ends.head_eq ∙ e) in
    let some_size : l.size ≢ 0 = omega (arith, h.size_eq) in ground arith

push_front_node-empty :
    (l : LinkedList) (node : ℕ)
    → l.head ≡ 0
    → push_front_node l node ≡ record l { head = node; tail = node; size = add64 l.size 1 }
unfolding push_front_node
push_front_node-empty l node h = ground arith

push_front_node-more :
    (l : LinkedList) (node x : ℕ)
    → l.head ≡ x
    → x ≢ 0
    → push_front_node l node ≡ record l {
      links = set_next (set_previous l.links x node) node x;
      head = node;
      size = add64 l.size 1;
    }
unfolding push_front_node
push_front_node-more l node x e h = ground arith

put_before :
    (m : Store) (n x : ℕ)
    → n ≢ x
    → (m n).previous ≡ 0
    → ((set_next (set_previous m x n) n x n).previous ≡ 0)
      × ((set_next (set_previous m x n) n x n).next ≡ x)
put_before m n x h p = ground arith

-- A new node comes first in the list.
pub push_front_node-Holds :
    (l : LinkedList) (xs : List ℕ) (node : ℕ)
    → Holds l xs
    → node ≢ 0
    → Fresh node xs
    → (l.links node).next ≡ 0
    → (l.links node).previous ≡ 0
    → length xs + 1 < 2 ^ 64
    → Holds (push_front_node l node) (node ∷ xs)
push_front_node-Holds l [] node h nz f n p b =
    rw (push_front_node-empty l node h.ends.head_eq) (record {
      ends = Ends-single l.links node nz n p;
      size_eq = omega (arith, h.size_eq);
      bound = omega arith;
    })
push_front_node-Holds l (x ∷ xs) node h nz f n p b =
    let c = h.ends.chain in
    let new = put_before l.links node x f.0 p in
    let linked =
      Chain-set_next (set_previous l.links x node) node x node (x ∷ xs) 0 f
        (Chain-set_previous-first l.links node 0 x xs 0 h.ends.distinct c) in
    rw (push_front_node-more l node x h.ends.head_eq c.0) (record {
      ends = record {
        head_eq = refl;
        tail_eq = h.ends.tail_eq;
        chain = (nz, new.0, new.1, linked);
        distinct = (f, h.ends.distinct);
      };
      size_eq = omega (arith, h.size_eq);
      bound = omega arith;
    })
