-- ===== src/PageZone/SetUp/Blocks.antt =====
-- What the set-up of a block does to the links of other blocks.
use nite_os_project.Common.{
  ℕ, zero, suc, ◌+◌, ◌*◌, ◌^◌, ◌<◌, ◌≤◌, ◌≡◌, ◌≢◌, ◌⊎◌, inl, inr, refl, ap, ◌∙◌, arith, some,
  update, update-hit, update-miss,
}
use nite_os_project.Common.Words.{add64}
use nite_os_project.Links.{Store, empty_entry}
use nite_os_project.PageZone.{NodeList, Zone}
use nite_os_project.PageZone.SetUp.{clear_page, clear_pages, mark_block, init_block}
use nite_os_project.PageZone.Lost.{IsPair, IsPair-add_node}
use nite_os_project.PageZone.Split.{add_empty}

-- Outside of the `n` records from `page` on.
abbrev pub IsOutside : ℕ → ℕ → ℕ → ℕ → Type 0
IsOutside size n page q = (q < page) ⊎ (page + n * size ≤ q)

clear_pages_links :
    (size n page q : ℕ) (z : Zone)
    → 0 < size
    → page + n * size < 2 ^ 64
    → IsOutside size n page q
    → (clear_pages size n page z).links q ≡ z.links q
unfolding clear_pages
clear_pages_links size zero page q z positive small out = refl
clear_pages_links size (suc n) page q z positive small out =
    let next : add64 page size ≡ page + size = omega arith in
    let ne : q ≢ page = elim out [ inl h ↦ omega arith | inr h ↦ omega arith ] in
    let later : IsOutside size n (page + size) q = elim out [
      | inl h ↦ inl (omega arith)
      | inr h ↦ inr (omega arith)
    ] in
    ap (λ (t : ℕ). (clear_pages size n t (clear_page page z)).links q) next
    ∙ clear_pages_links size n (page + size) q (clear_page page z) positive (omega arith) later
    ∙ update-miss z.links page empty_entry q ne

clear_pages_here :
    (size n page : ℕ) (z : Zone)
    → 0 < size
    → page + suc n * size < 2 ^ 64
    → (clear_pages size (suc n) page z).links page ≡ empty_entry
unfolding clear_pages
clear_pages_here size n page z positive small =
    let next : add64 page size ≡ page + size = omega arith in
    ap (λ (t : ℕ). (clear_pages size n t (clear_page page z)).links page) next
    ∙ clear_pages_links size n (page + size) page (clear_page page z) positive (omega arith)
        (inl (omega arith))
    ∙ update-hit z.links page empty_entry

clear_pages_list :
    (size n page : ℕ) (z : Zone) → (clear_pages size n page z).page_list ≡ z.page_list
unfolding clear_pages
clear_pages_list size zero page z = refl
clear_pages_list size (suc n) page z = clear_pages_list size n (add64 page size) (clear_page page z)

mark_block_same :
    (size left pages current : ℕ) (z : Zone)
    → ((mark_block size left pages current z).links ≡ z.links)
      × ((mark_block size left pages current z).page_list ≡ z.page_list)
unfolding mark_block
mark_block_same size zero pages current z = (refl, refl)
mark_block_same size (suc left) pages current z = mark_block_same size left pages current _

-- The links and lists of a zone when the records of a block are set up, before it is added.
ready : ℕ → Zone → ℕ → ℕ → Zone
ready size z pages current =
    let marked = mark_block size 1024 pages current (clear_pages size 1024 pages z) in
    record marked { order = update marked.order pages 10 }

ready_lem :
    (size : ℕ) (z : Zone) (pages current : ℕ)
    → 0 < size
    → pages + 1024 * size < 2 ^ 64
    → ((ready size z pages current).page_list ≡ z.page_list)
      × ((ready size z pages current).links pages ≡ empty_entry)
      × ((q : ℕ) → IsOutside size 1024 pages q → (ready size z pages current).links q ≡ z.links q)
unfolding ready
ready_lem size z pages current positive small =
    let c : Zone = clear_pages size 1024 pages z in
    let (links, lists) = mark_block_same size 1024 pages current c in
    (
      lists ∙ clear_pages_list size 1024 pages z,
      ap (λ (f : Store). f pages) links ∙ clear_pages_here size 1023 pages z positive small,
      (λ q out.
          ap (λ (f : Store). f q) links ∙ clear_pages_links size 1024 pages q z positive small out),
    )

-- The list of the blocks starts with `x`, whose next one is `y`, of blocks that number `n`.
abbrev pub IsLinked : Zone → ℕ → ℕ → ℕ → Type 0
IsLinked z x y n = IsPair z.links (z.page_list 10) x y n

-- The list that can be reached ends with `y`.
abbrev pub IsEnd : Zone → ℕ → ℕ → Type 0
IsEnd z x y = (y ≢ 0) × (y ≢ x) × ((z.links y).next ≡ 0)

pub first_block :
    (size : ℕ) (z : Zone) (pages current : ℕ)
    → 0 < size
    → pages + 1024 * size < 2 ^ 64
    → pages ≢ 0
    → (z.page_list 10).count ≡ 0
    → (s : Zone) × (init_block size z pages current ≡ some s) × IsLinked s pages 0 1
unfolding init_block ready
first_block size z pages current positive small given empty =
    let (lists, here, others) = ready_lem size z pages current positive small in
    let r : Zone = ready size z pages current in
    let one : NodeList = record { front = pages; back = pages; count = 1 } in
    let added =
      add_empty r.links (r.page_list 10) pages
        (ap (λ (f : ℕ → NodeList). (f 10).count) lists ∙ empty) given in
    (
      record r { page_list = update r.page_list 10 one },
      rw added refl,
      (refl, refl, refl, given, rw here refl),
    )

pub further_block :
    (size : ℕ) (z : Zone) (pages current x y n : ℕ)
    → 0 < size
    → 0 < x
    → x + 1024 * size ≤ pages
    → pages + 1024 * size < 2 ^ 64
    → IsLinked z x y n
    → 0 < n
    → n + 1 < 2 ^ 32
    → (s : Zone) × (init_block size z pages current ≡ some s)
      × IsLinked s x pages (n + 1)
      × IsEnd s x pages
unfolding init_block ready
further_block size z pages current x y n positive exists apart small
      (front, back, count, given, next) pos few =
    let (lists, here, others) = ready_lem size z pages current positive small in
    let r : Zone = ready size z pages current in
    let list : r.page_list 10 ≡ z.page_list 10 = ap (λ (f : ℕ → NodeList). f 10) lists in
    let pair : IsPair r.links (r.page_list 10) x y n = (
      ap (λ (l : NodeList). l.front) list ∙ front,
      ap (λ (l : NodeList). l.back) list ∙ back,
      ap (λ (l : NodeList). l.count) list ∙ count,
      given,
      rw (others x (inl (omega arith))) next,
    ) in
    let (m, k, e, longer, kept) =
      IsPair-add_node r.links (r.page_list 10) x y pages n pair pos few (omega arith)
        (omega arith) in
    (
      record r { links = m; page_list = update r.page_list 10 k },
      rw e refl,
      longer,
      (omega arith, omega arith, kept pages (omega arith) ∙ rw here refl),
    )
