-- ===== src/PageZone/Apart.antt =====
-- `CombinePage` of a block whose other half is free.
use nite_os_project.Common.{
  ℕ, zero, suc, ◌+◌, ◌*◌, ◌≤◌, sym, subst, ◌%◌, ◌^◌, ◌<◌, ◌≡◌, ◌≢◌, refl, ap, ◌∙◌, arith, bit_and,
  ltb, ◌==◌, true, false, some, update, update-hit, update-miss, Bool-cases, ◌⊎◌, inl, inr,
}
use nite_os_project.Common.Words.{add32}
use nite_os_project.Common.Bits.{two-pow-pos}
use nite_os_project.Links.{Store, set_next, set_previous}
use nite_os_project.PageZone.{
  NodeList, Zone, half, add_node, take_out, remove_node, contains_node, join_page, other_page,
  combine_page,
}
use nite_os_project.PageZone.Split.{remove_none, IsPlace, IsSplit, half_apart}
use native.Mathlib.Decide.{ℕ_discrete}
use native.Mathlib.Nat.{mul-pos, mul-le-mul_left}

add_second :
    (m : Store) (l : NodeList) (x y : ℕ)
    → l.back ≡ x
    → l.count ≡ 1
    → x ≢ 0
    → y ≢ 0
    → add_node m l y ≡ some (set_next (set_previous m y x) x y, record l { count = 2 })
unfolding add_node
add_second m l x y back count exists given =
    let a : (y == 0) ≡ false = ground (arith, given) in
    let b : (x == 0) ≡ false = ground (arith, exists) in rw (a, count, back, b) refl

other_page_lem :
    (size : ℕ) (z : Zone) (page k : ℕ)
    → z.order page ≡ k
    → 2 ^ k * size < 2 ^ 32
    → page + 2 ^ k * size * size < 2 ^ 64
    → z.address page % (2 ^ k * size) ≡ 0
    → other_page size z page ≡ page + 2 ^ k * size * size
unfolding other_page
other_page_lem size z page k order word reach aligned =
    let fits : 2 ^ k * size % 2 ^ 32 ≡ 2 ^ k * size = omega arith in
    rw (order, fits, aligned) (omega arith)

contains_here :
    (m : Store) (front x fuel : ℕ)
    → (m x).previous ≡ 0
    → contains_node (suc fuel) m front x ≡ some (x == front)
unfolding contains_node
contains_here m front x zero h = rw h refl
contains_here m front x (suc fuel) h = rw h refl

remove_total :
    (m : Store) (l : NodeList) (x fuel : ℕ)
    → (m x).previous ≡ 0
    → (n : Store) × (k : NodeList) × (remove_node (suc fuel) m l x ≡ some (n, k))
unfolding remove_node
remove_total m l x fuel h = elim (Bool-cases (l.count == 0)) [
  | inl empty ↦ (m, l, rw empty refl)
  | inr full ↦
      let there = contains_here m l.front x fuel h in
      elim (Bool-cases (x == l.front)) [
        | inl first ↦ let (n, k) = take_out m l x in (n, k, rw (full, there, first) refl)
        | inr other ↦ (m, l, rw (full, there, other) refl)
      ]
]

add_total :
    (m : Store) (l : NodeList) (x : ℕ)
    → x ≢ 0
    → (l.count ≡ 0) ⊎ (l.back ≢ 0)
    → (n : Store) × (k : NodeList) × (add_node m l x ≡ some (n, k))
unfolding add_node
add_total m l x given room =
    let a : (x == 0) ≡ false = ground (arith, given) in
    elim (Bool-cases (l.count == 0)) [
      | inl empty ↦ (m, record { front = x; back = x; count = add32 l.count 1 }, rw (a, empty) refl)
      | inr full ↦
          let b : (l.back == 0) ≡ false = elim room [
            | inl none ↦ absurd (ground (arith, none, full))
            | inr there ↦ ground (arith, there)
          ] in
          (
            set_next (set_previous m x l.back) l.back x,
            record l { count = add32 l.count 1 },
            rw (a, full, b) refl,
          )
    ]

-- The list of the order above that of the block takes a node.
upper_room :
    (size : ℕ) (z : Zone) (page k : ℕ)
    → IsPlace size page
    → k < 10
    → IsSplit size z page k
    → ((z.page_list (k + 1)).count ≡ 0) ⊎ ((z.page_list (k + 1)).back ≢ 0)
upper_room size z page k place small (order, previous, below, halves, top) =
    elim (ℕ_discrete (k + 1) 10) [
      | yes e ↦ inl (ap (λ (j : ℕ). (z.page_list j).count) e ∙ top)
      | no less ↦
          let ((front, back, count), at) = halves (k + 1) (omega arith) (omega arith) in
          let (apart, ne, exists) =
            half_apart size page (k + 1) 10 place (omega arith) (omega arith) in
          inr (λ e. exists (sym back ∙ e))
    ]

-- A removal of a node that is not the first one of the list of the order `k` keeps the first.
remove_kept :
    (fuel : ℕ) (z : Zone) (x k : ℕ)
    → (z.links x).previous ≡ 0
    → (z.page_list k).front ≢ x
    → (z.page_list k).count ≢ 0
    → (n : Store) × (l : NodeList) × (remove_node (suc fuel) z.links (z.page_list (z.order x)) x
        ≡ some (n, l))
      × ((update z.page_list (z.order x) l k).front ≡ (z.page_list k).front)
remove_kept fuel z x k previous other full = elim (ℕ_discrete k (z.order x)) [
  | yes e ↦
      let same = ap z.page_list e in
      let front : (z.page_list (z.order x)).front ≢ x =
        λ h. other (ap (λ (t : NodeList). t.front) same ∙ h) in
      let count : (z.page_list (z.order x)).count ≢ 0 =
        λ h. full (ap (λ (t : NodeList). t.count) same ∙ h) in
      let here = update-hit z.page_list (z.order x) (z.page_list (z.order x)) in
      (
        z.links,
        z.page_list (z.order x),
        remove_none z.links (z.page_list (z.order x)) x fuel previous (inr (count, front)),
        ap (λ (t : NodeList). t.front)
            (ap (update z.page_list (z.order x) (z.page_list (z.order x))) e ∙ here ∙ sym same),
      )
  | no ne ↦
      let (n, l, removed) = remove_total z.links (z.page_list (z.order x)) x fuel previous in
      (n, l, removed, ap (λ (t : NodeList). t.front) (update-miss z.page_list (z.order x) l k ne))
]

-- What `CombinePage` does with a record `x` that is marked as free.
combine_free :
    (size fuel : ℕ) (z : Zone) (page k x : ℕ) (m n : Store) (left list : NodeList)
    → z.order page ≡ k
    → 0 < 2 ^ k * size
    → 2 ^ k * size < 2 ^ 32
    → k < 10
    → other_page size z page ≡ x
    → z.address page % (2 ^ k * size) ≡ 0
    → (bit_and (z.flags x) 1 == 0) ≡ false
    → z.order x ≤ 10
    → remove_node fuel z.links (z.page_list (z.order x)) x ≡ some (m, left)
    → add_node m (update z.page_list (z.order x) left (k + 1)) page ≡ some (n, list)
    → combine_page size fuel z page
      ≡ some (
        record z {
          links = n;
          page_list = update (update z.page_list (z.order x) left) (k + 1) list;
          order = update z.order page (k + 1);
        },
        page,
      )
unfolding combine_page join_page
combine_free size fuel z page k x m n left list order bytes word small other aligned free top
      removed added =
    let fits : 2 ^ k * size % 2 ^ 32 ≡ 2 ^ k * size = omega arith in
    let a : (2 ^ k * size == 0) ≡ false = ground arith in
    let b : ltb 10 k ≡ false = ground arith in
    let c : ltb 10 (z.order x) ≡ false = ground arith in
    let d : ltb 10 (k + 1) ≡ false = ground arith in
    let upper : (k + 1) % 2 ^ 8 ≡ k + 1 = omega arith in
    rw (other, order, fits, a, b, free, aligned) (rw (order, upper, c, d, removed, added) refl)

-- And with one that is not.
combine_used :
    (size fuel : ℕ) (z : Zone) (page k x : ℕ) (n : Store) (list : NodeList)
    → z.order page ≡ k
    → 0 < 2 ^ k * size
    → 2 ^ k * size < 2 ^ 32
    → k < 10
    → other_page size z page ≡ x
    → (bit_and (z.flags x) 1 == 0) ≡ true
    → add_node z.links (z.page_list k) page ≡ some (n, list)
    → combine_page size fuel z page
      ≡ some (record z { links = n; page_list = update z.page_list k list }, 0)
unfolding combine_page
combine_used size fuel z page k x n list order bytes word small other used added =
    let fits : 2 ^ k * size % 2 ^ 32 ≡ 2 ^ k * size = omega arith in
    let a : (2 ^ k * size == 0) ≡ false = ground arith in
    let b : ltb 10 k ≡ false = ground arith in rw (other, order, fits, a, b, used, added) refl

-- When the block at a page is split down to an order `k` below 10, the records of its pages take
-- less than 2^32 bytes, its address is a multiple of these bytes, and a record has more than one,
-- then `CombinePage` looks at the record that lies `size` times as far away as that of the other
-- half, and this is not that of the other half. Where the record that is looked at lies below 2^64,
-- has no previous one, and has an order up to 10 but not `k + 1`, then, whether it is marked as free
-- or not, the other half stays the first of the list of the order `k`, and where it is marked as
-- free the answer is the block with the order `k + 1`, in which the other half lies.
pub combine_page-half :
    (size fuel : ℕ) (z : Zone) (page k : ℕ)
    → IsPlace size page
    → 1 < size
    → k < 10
    → IsSplit size z page k
    → 2 ^ k * size < 2 ^ 32
    → page + 2 ^ k * size * size < 2 ^ 64
    → z.address page % (2 ^ k * size) ≡ 0
    → (z.links (page + 2 ^ k * size * size)).previous ≡ 0
    → z.order (page + 2 ^ k * size * size) ≤ 10
    → z.order (page + 2 ^ k * size * size) ≢ k + 1
    → (s : Zone) × (result : ℕ) × (other_page size z page ≡ page + 2 ^ k * size * size)
      × (other_page size z page ≢ half size page k)
      × (combine_page size (suc fuel) z page ≡ some (s, result))
      × ((s.page_list k).front ≡ half size page k)
      × ((bit_and (z.flags (page + 2 ^ k * size * size)) 1 ≢ 0)
          → (result ≡ page) × (s.order page ≡ k + 1))
combine_page-half size fuel z page k place more small split word reach aligned previous top ne =
    let (order, own, below, halves, empty) = split in
    let (positive, given, fits_in) = place in
    let ((front, back, count), at) = halves k (omega arith) small in
    let x : ℕ = page + 2 ^ k * size * size in
    let bytes : 0 < 2 ^ k * size = mul-pos (two-pow-pos k) positive in
    let further : 2 ^ k * size * 2 ≤ 2 ^ k * size * size = mul-le-mul_left (2 ^ k * size) more in
    let (apart, off, exists) = half_apart size page k 10 place small (omega arith) in
    let other = other_page_lem size z page k order word reach aligned in
    let beside : x ≢ half size page k = omega arith in
    let some_nodes : (z.page_list k).count ≢ 0 = omega (arith, count) in
    elim (Bool-cases (bit_and (z.flags x) 1 == 0)) [
      | inl used ↦
          let h : ℕ = half size page k in
          let list : NodeList = record {
            front = (z.page_list k).front;
            back = (z.page_list k).back;
            count = 2;
          } in
          let added = add_second z.links (z.page_list k) h page back count exists (omega arith) in
          (
            record z {
              links = set_next (set_previous z.links page h) h page;
              page_list = update z.page_list k list;
            },
            0,
            other,
            (λ e. beside (sym other ∙ e)),
            combine_used size (suc fuel) z page k x _ list order bytes word small other used added,
            ap (λ (t : NodeList). t.front) (update-hit z.page_list k list) ∙ front,
            (λ free. absurd (ground (arith, used, free))),
          )
      | inr free ↦
          let (m, left, removed, kept) =
            remove_kept fuel z x k previous (λ e. beside (sym e ∙ front)) some_nodes in
          let lists = update z.page_list (z.order x) left in
          let miss = update-miss z.page_list (z.order x) left (k + 1) (λ e. ne (sym e)) in
          let room =
            subst (λ (l : NodeList). (l.count ≡ 0) ⊎ (l.back ≢ 0)) (sym miss)
              (upper_room size z page k place small split) in
          let (n, list, added) = add_total m (lists (k + 1)) page (omega arith) room in
          (
            record z {
              links = n;
              page_list = update lists (k + 1) list;
              order = update z.order page (k + 1);
            },
            page,
            other,
            (λ e. beside (sym other ∙ e)),
            combine_free size (suc fuel) z page k x m n left list order bytes word small other
                aligned free top removed added,
            ap (λ (t : NodeList). t.front) (update-miss lists (k + 1) list k (omega arith))
                ∙ kept
                ∙ front,
            (λ h. (refl, update-hit z.order page (k + 1))),
          )
    ]
