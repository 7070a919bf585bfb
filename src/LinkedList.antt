-- ===== src/LinkedList.antt =====
-- `Std::LinkedList` of Kernel/inc/stdcxx/linked-list.h, over its entries' links in memory. An entry
-- is known by its address: the element's own, when its type derives from `Entry`, and else the one
-- that `new Element` returns. `freed` lists what `delete` was called on.
pub mod Order
pub mod Take
pub mod Walk
pub mod Drain
pub mod Push
mod Tests
use nite_os_project.Common.{
  ℕ, zero, suc, ◌+◌, ◌-◌, ◌/◌, ◌==◌, if◌then◌else◌, ◌>>=◌, Bool, ltb, leb, Option, none, some, List,
  [], ◌∷◌, ◌++◌,
}
use nite_os_project.Common.Words.{add64, sub64}
use nite_os_project.Links.{Entry, Store, set_next, set_previous}

pub record LinkedList : Type 0 where
  pub links : Store
  pub head : ℕ
  pub tail : ℕ
  pub size : ℕ
  pub freed : List ℕ

-- `LinkedList()`
abbrev pub new_list : Store → LinkedList
new_list links = record { links = links; head = 0; tail = 0; size = 0; freed = [] }

pub add : LinkedList → ℕ → LinkedList
add l elem =
    if l.size == 0 then record l { head = elem; tail = elem; size = add64 l.size 1 } else record l {
      links = set_previous (set_next l.links l.tail elem) elem l.tail;
      tail = elem;
      size = add64 l.size 1;
    }

-- `elem = elem->_next`, as many times as told; and `elem = elem->_previous`.
pub walk_next : Store → ℕ → ℕ → ℕ
walk_next m zero elem = elem
walk_next m (suc n) elem = walk_next m n (m elem).next

pub walk_previous : Store → ℕ → ℕ → ℕ
walk_previous m zero elem = elem
walk_previous m (suc n) elem = walk_previous m n (m elem).previous

-- The three branches of `remove(uint64_t i)`.
remove_first : LinkedList → LinkedList
remove_first l =
    let next = (l.links l.head).next in
    if next == 0
    then record l { head = next; tail = 0; freed = l.freed ++ l.head ∷ [] }
    else record l {
      links = set_previous l.links next 0;
      head = next;
      freed = l.freed ++ l.head ∷ [];
    }

remove_last : LinkedList → LinkedList
remove_last l =
    let previous = (l.links l.tail).previous in
    if previous == 0
    then record l { tail = previous; head = 0; freed = l.freed ++ l.tail ∷ [] }
    else record l {
      links = set_next l.links previous 0;
      tail = previous;
      freed = l.freed ++ l.tail ∷ [];
    }

-- `elem->_previous->_next = elem->_next; elem->_next->_previous = elem->_previous`
abbrev join : Store → ℕ → Store
join m elem =
    let joined = set_next m (m elem).previous (m elem).next in
    set_previous joined (joined elem).next (joined elem).previous

remove_inner : LinkedList → ℕ → LinkedList
remove_inner l i =
    let elem = walk_next l.links i l.head in
    record l { links = join l.links elem; freed = l.freed ++ elem ∷ [] }

pub remove_at : LinkedList → ℕ → LinkedList
remove_at l i =
    let removed =
      if i == 0
      then remove_first l
      else if i == sub64 l.size 1
      then remove_last l
      else remove_inner l i in
    if leb l.size i then l else record removed { size = sub64 removed.size 1 }

-- One round of the loop of `remove(T const&, bool)`: the list left, before `m_size--`, the `delete`
-- of `elem` included where `del` asks for it.
unlink : LinkedList → ℕ → LinkedList
unlink l elem =
    if l.size == 1
    then record l { head = 0; tail = 0 }
    else if elem == l.head
    then record l {
      links = set_previous l.links (l.links l.head).next 0;
      head = (l.links l.head).next;
    }
    else if elem == l.tail
    then record l {
      links = set_next l.links (l.links l.tail).previous 0;
      tail = (l.links l.tail).previous;
    }
    else record l { links = join l.links elem }

remove_round : Bool → LinkedList → ℕ → LinkedList
remove_round del l elem =
    let left = unlink l elem in
    record left {
      size = sub64 left.size 1;
      freed = if del then left.freed ++ elem ∷ [] else left.freed;
    }

-- The loop, on fuel; `none` means that the fuel ran out.
remove_loop : ℕ → Bool → LinkedList → ℕ → Option LinkedList
remove_loop zero del l elem = none
remove_loop (suc fuel) del l elem =
    let left = remove_round del l elem in
    let rest = remove_loop fuel del left (left.links elem).next in
    if elem == 0 then some l else rest

-- `remove(T const& value, bool del)`; the value is not read.
pub remove_value : ℕ → LinkedList → Bool → Option LinkedList
remove_value fuel l del = if l.size == 0 then some l else remove_loop fuel del l l.head

-- The loop of `clear`, with the entries it deletes.
clear_loop : ℕ → Store → ℕ → Option (List ℕ)
clear_loop zero m elem = none
clear_loop (suc fuel) m elem =
    let rest = clear_loop fuel m (m elem).next in
    if elem == 0 then some [] else do freed ← rest; some (elem ∷ freed)

pub clear : ℕ → LinkedList → Option LinkedList
clear fuel l = do
  freed ← clear_loop fuel l.links l.head
  some (record l { head = 0; tail = 0; size = 0; freed = l.freed ++ freed })

-- The address of the entry, 0 out of range.
pub get : LinkedList → ℕ → ℕ
get l i = if leb l.size i then 0 else walk_next l.links i l.head

-- `operator[]`, which goes from the nearer end; out of range it does what it does in range.
pub at : LinkedList → ℕ → ℕ
at l index =
    if ltb index (l.size / 2)
    then walk_next l.links index l.head
    else walk_previous l.links (sub64 l.size 1 - index) l.tail

pub take_first : LinkedList → ℕ × LinkedList
take_first l =
    let next = (l.links l.head).next in
    if l.head == l.tail then (l.head, record l { head = 0; tail = 0; size = sub64 l.size 1 }) else (
      l.head,
      record l { links = set_previous l.links next 0; head = next; size = sub64 l.size 1 },
    )

pub take_last : LinkedList → ℕ × LinkedList
take_last l =
    let previous = (l.links l.tail).previous in
    if l.head == l.tail then (l.tail, record l { head = 0; tail = 0; size = sub64 l.size 1 }) else (
      l.tail,
      record l {
        links = set_previous (set_next l.links previous 0) l.tail 0;
        tail = previous;
        size = sub64 l.size 1;
      },
    )

-- `pushBack` and `pushFront` of the other list, `mixins::utils::LinkedList` of
-- Kernel/inc/mixins/utils/linked_list.h, on the new node's address; it tests the head for null.
pub push_back_node : LinkedList → ℕ → LinkedList
push_back_node l node =
    if l.head == 0 then record l { head = node; tail = node; size = add64 l.size 1 } else record l {
      links = set_previous (set_next l.links l.tail node) node l.tail;
      tail = node;
      size = add64 l.size 1;
    }

pub push_front_node : LinkedList → ℕ → LinkedList
push_front_node l node =
    if l.head == 0 then record l { head = node; tail = node; size = add64 l.size 1 } else record l {
      links = set_next (set_previous l.links l.head node) node l.head;
      head = node;
      size = add64 l.size 1;
    }
