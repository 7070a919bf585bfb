-- ===== src/PageZone.antt =====
-- The page allocator of the kernel's state of 29 June 2023, in Kernel/backup/20230629: `LinkedList` of
-- include/Utils/LinkedList.h, the orders of include/Mem/Page.h and the functions of
-- src/Memory/Page.cpp. `none` is the panic, or an access through the null pointer.
pub mod Orders
pub mod Lost
pub mod Split
pub mod SetUp
pub mod Apart
mod Tests
use nite_os_project.Common.{
  ℕ, zero, suc, ◌+◌, ◌-◌, ◌*◌, ◌/◌, ◌%◌, ◌^◌, bit_and, bit_or, Bool, true, false, not, ◌||◌, ltb,
  ◌==◌, if◌then◌else◌, ◌>>=◌, Option, none, some, update,
}
use nite_os_project.Common.Words.{add32, sub32, add64, sub64}
use nite_os_project.Links.{Store, set_next, set_previous}
use nite_os_project.VirtualMemory.Space.{align_page}

-- `LinkedList<T>`
pub record NodeList : Type 0 where
  pub front : ℕ
  pub back : ℕ
  pub count : ℕ

-- `Add(ListNode<T> *)`
pub add_node : Store → NodeList → ℕ → Option (Store × NodeList)
add_node m l obj =
    let counted = add32 l.count 1 in
    if obj == 0
    then some (m, l)
    else if l.count == 0
    then some (m, record { front = obj; back = obj; count = counted })
    else if l.back == 0
    then none
    else some (set_next (set_previous m obj l.back) l.back obj, record l { count = counted })

-- `Contains(ListNode<T> *)`, its loop on fuel.
pub contains_node : ℕ → Store → ℕ → ℕ → Option Bool
contains_node zero m front obj = none
contains_node (suc fuel) m front obj =
    let before = (m obj).previous in
    let rest = contains_node fuel m front before in
    if before == 0 then some (obj == front) else if before == front then some true else rest

-- What `Remove` does to a node of the list.
pub take_out : Store → NodeList → ℕ → Store × NodeList
take_out m l obj =
    let before = (m obj).previous in
    let after = (m obj).next in
    let first = if before == 0 then m else set_next m before after in
    let both = if after == 0 then first else set_previous first after before in
    (
      both,
      record {
        front = if obj == l.front then after else l.front;
        back = if obj == l.back then before else l.back;
        count = sub32 l.count 1;
      },
    )

-- `Remove(ListNode<T> *)`
pub remove_node : ℕ → Store → NodeList → ℕ → Option (Store × NodeList)
remove_node fuel m l obj =
    if l.count == 0
    then some (m, l)
    else (contains_node fuel m l.front obj >>= λ is_in.
        some (if is_in then take_out m l obj else (m, l)))

-- What `Extract` leaves and returns.
pub record Extracted : Type 0 where
  pub links : Store
  pub list : NodeList
  pub node : ℕ

pub extract : Store → NodeList → Option Extracted
extract m l =
    let left = sub32 l.count 1 in
    let after = (m l.front).next in
    if l.count == 0
    then some (record { links = m; list = record l { count = left }; node = 0 })
    else if l.count == 1
    then some
        (record { links = m; list = record { front = 0; back = 0; count = left }; node = l.front })
    else if (l.front == 0) || (after == 0)
    then none
    else some (record {
      links = set_next (set_previous m after 0) l.front 0;
      list = record l { front = after; count = left };
      node = l.front;
    })

-- `PAGE_ORDER`, its loop on fuel.
pub order_loop : ℕ → ℕ → ℕ → ℕ → Option ℕ
order_loop zero m_size order size = none
order_loop (suc fuel) m_size order size =
    let rest = order_loop fuel (m_size / 2) ((order + 255) % 2 ^ 8) size in
    if ltb size m_size then rest else some order

abbrev pub page_order : ℕ → Option ℕ
page_order size = order_loop 12 1024 10 size

-- A zone, with the members of the pages by their addresses.
pub record Zone : Type 0 where
  pub links : Store
  pub page_list : ℕ → NodeList
  pub order : ℕ → ℕ
  pub flags : ℕ → ℕ
  pub first_page : ℕ → ℕ
  pub address : ℕ → ℕ

-- The record of the half behind the page, a record of `size` bytes, by the order that it gets.
abbrev pub half : ℕ → ℕ → ℕ → ℕ
half size page order = add64 page (2 ^ order * size)

-- The first order from `order` on, of those that are left up to 10, with a page.
pub find_order : Zone → ℕ → ℕ → Option ℕ
find_order z order zero = none
find_order z order (suc left) =
    let rest = find_order z (order + 1) left in
    if (z.page_list order).count == 0 then rest else some order

-- The page that is looked at beside `page`: the sum counts in records of `size` bytes.
pub other_page : ℕ → Zone → ℕ → ℕ
other_page size z page =
    let order_size = 2 ^ z.order page * size % 2 ^ 32 in
    if z.address page % order_size == 0
    then add64 page (order_size * size)
    else sub64 page (order_size * size)

-- A page record takes `size` bytes, and a walk over a list runs on fuel.
module _ (size fuel : ℕ) where
  -- `ExpandPage`, without the test at its start.
  pub split_page : Zone → ℕ → Option Zone
  split_page z page =
      let old = z.order page in
      let lower = old - 1 in
      let other = half size page lower in
      if (old == 0) || ltb 10 old
      then none
      else (remove_node fuel z.links (z.page_list old) page >>= λ removed.
          (let (m, upper) = removed in
            let lists = update z.page_list old upper in
            add_node m (lists lower) other >>= λ added.
            (let (n, list) = added in
              some (record z {
                links = n;
                page_list = update lists lower list;
                order = update (update z.order page lower) other lower;
                flags = update z.flags other (bit_or (z.flags other) 1);
              }))))

  -- `ExpandPage`, and the page that it returns.
  pub expand_page : Zone → ℕ → Option (Zone × ℕ)
  expand_page z page =
      if (page == 0) || not (bit_and (z.flags page) 2 == 0)
      then some (z, 0)
      else (split_page z page >>= λ s. some (s, page))

  -- The loop of the allocation, by the rounds that it takes.
  pub expand_loop : ℕ → Zone → ℕ → Option (Zone × ℕ)
  expand_loop zero z page = some (z, page)
  expand_loop (suc n) z page =
      expand_page z page >>= λ expanded. (let (s, p) = expanded in expand_loop n s p)

  -- What is done with the list that is found; a page of 0 is the null pointer.
  pub take_page : Zone → ℕ → Option ℕ → Option (Zone × ℕ)
  take_page z order none = some (z, 0)
  take_page z order (some at) = extract z.links (z.page_list at) >>= λ e.
      (let taken : Zone = record z { links = e.links; page_list = update z.page_list at e.list } in
        expand_loop (at - order) taken e.node >>= λ expanded.
        (let (s, page) = expanded in
          if page == 0
          then none
          else some (record s { flags = update s.flags page (bit_and (s.flags page) 254) }, page)))

  -- `AllocatePhysMemory4KOrdered`
  pub allocate_ordered : Zone → ℕ → Option (Zone × ℕ)
  allocate_ordered z order =
      if ltb 10 order then none else take_page z order (find_order z order (11 - order))

  -- `AllocatePhysMemory4K`
  pub allocate_pages : Zone → ℕ → Option (Zone × ℕ)
  allocate_pages z amount = page_order (align_page amount) >>= λ order. allocate_ordered z order

  -- `CombinePage` with a page that is free.
  pub join_page : Zone → ℕ → ℕ → Option (Zone × ℕ)
  join_page z other result =
      let at = z.order other in
      let upper = (z.order result + 1) % 2 ^ 8 in
      if ltb 10 at || ltb 10 upper
      then none
      else (remove_node fuel z.links (z.page_list at) other >>= λ removed.
          (let (m, left) = removed in
            let lists = update z.page_list at left in
            add_node m (lists upper) result >>= λ added.
            (let (n, list) = added in
              some (
                record z {
                  links = n;
                  page_list = update lists upper list;
                  order = update z.order result upper;
                },
                result,
              ))))

  -- `CombinePage`; 0 is the null pointer that it returns.
  pub combine_page : Zone → ℕ → Option (Zone × ℕ)
  combine_page z page =
      let order = z.order page in
      let order_size = 2 ^ order * size % 2 ^ 32 in
      let other = other_page size z page in
      let result = if z.address page % order_size == 0 then page else other in
      if (order_size == 0) || ltb 10 order
      then none
      else if bit_and (z.flags other) 1 == 0
      then (add_node z.links (z.page_list order) page >>= λ added.
          (let (m, list) = added in
            some (record z { links = m; page_list = update z.page_list order list }, 0)))
      else join_page z other result
