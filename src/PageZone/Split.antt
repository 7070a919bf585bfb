-- ===== src/PageZone/Split.antt =====
-- A block is split: the state of a zone after it.
pub mod Rounds
use nite_os_project.Common.{
  ℕ, zero, suc, ◌+◌, ◌-◌, ◌*◌, ◌/◌, ◌%◌, ◌^◌, ◌<◌, ◌≤◌, ◌≡◌, ◌≢◌, ◌⊎◌, inl, inr, refl, sym, ap, ◌∙◌,
  arith, bit_and, bit_or, ltb, ◌==◌, true, false, Option, none, some, update, update-hit,
  update-miss,
}
use nite_os_project.Common.Words.{add32, add64}
use nite_os_project.Common.Bits.{two-pow-pos}
use nite_os_project.Links.{Store}
use nite_os_project.PageZone.{
  NodeList, add_node, contains_node, remove_node, extract, Zone, half, split_page, expand_page,
  expand_loop, find_order, take_page, allocate_ordered,
}
use mathlib.Core.Path.{subst}
use native.Mathlib.Decide.{dec_le, ℕ_discrete}
use native.Mathlib.Nat.{pow-le-pow_right, pow-suc, mul-le-mul_right, mul-pos}

-- The list of one node.
abbrev pub IsOnly : NodeList → ℕ → Type 0
IsOnly l x = (l.front ≡ x) × (l.back ≡ x) × (l.count ≡ 1)

-- A record for a page lies at `page`, and those of the block behind it.
abbrev pub IsPlace : ℕ → ℕ → Type 0
IsPlace size page = (0 < size) × (0 < page) × (page + 1024 * size < 2 ^ 64)

-- The block at `page` is split down to the order `k`: the halves that were cut off are alone in the
-- lists of their orders, and the other lists are empty.
abbrev pub IsSplit : ℕ → Zone → ℕ → ℕ → Type 0
IsSplit size z page k =
    (z.order page ≡ k)
    × ((z.links page).previous ≡ 0)
    × ((j : ℕ) → j < k → (z.page_list j).count ≡ 0)
    × ((j : ℕ)
        → k ≤ j
        → j < 10
        → IsOnly (z.page_list j) (half size page j) × (z.order (half size page j) ≡ j))
    × ((z.page_list 10).count ≡ 0)

pub half_apart :
    (size page i j : ℕ)
    → IsPlace size page
    → i < j
    → j ≤ 10
    → (half size page i ≢ half size page j) × (half size page i ≢ page) × (half size page i ≢ 0)
half_apart size page i j (a, b, c) less top =
    let p : ℕ = 2 ^ i in
    let q : ℕ = 2 ^ j in
    let double : 2 ^ suc i ≤ 2 ^ j = pow-le-pow_right (omega arith) {j = j} less in
    let pos : 0 < p = two-pow-pos i in
    let twice : p + p ≤ q = omega (arith, pow-suc 2 i) in
    let largest : q ≤ 2 ^ 10 = pow-le-pow_right (omega arith) {j = 10} top in
    let scaled : (p + p) * size ≤ q * size = mul-le-mul_right size twice in
    let top_scaled : q * size ≤ 1024 * size = mul-le-mul_right size largest in
    let some_bytes : 0 < p * size = mul-pos pos a in
    let lower : half size page i ≡ page + p * size = omega arith in
    let upper : half size page j ≡ page + q * size = omega arith in
    (omega arith, omega arith, omega arith)

contains_none :
    (m : Store) (front page : ℕ) (fuel : ℕ)
    → (m page).previous ≡ 0
    → front ≢ page
    → contains_node (suc fuel) m front page ≡ some false
unfolding contains_node
contains_none m front page zero h ne = ground (arith, h, ne)
contains_none m front page (suc fuel) h ne = ground (arith, h, ne)

-- `Remove` changes nothing where the page is not in the list.
pub remove_none :
    (m : Store) (l : NodeList) (page fuel : ℕ)
    → (m page).previous ≡ 0
    → (l.count ≡ 0) ⊎ ((l.count ≢ 0) × (l.front ≢ page))
    → remove_node (suc fuel) m l page ≡ some (m, l)
unfolding remove_node
remove_none m l page fuel h (inl empty) = let e : (l.count == 0) ≡ true = ground arith in rw e refl
remove_none m l page fuel h (inr (full, other)) =
    let e : (l.count == 0) ≡ false = ground arith in
    rw (e, contains_none m l.front page fuel h other) refl

-- `Add` to an empty list.
pub add_empty :
    (m : Store) (l : NodeList) (x : ℕ)
    → l.count ≡ 0
    → x ≢ 0
    → add_node m l x ≡ some (m, record { front = x; back = x; count = 1 })
unfolding add_node
add_empty m l x empty given = let e : (x == 0) ≡ false = ground arith in rw (e, empty) refl

update_twice :
    (f : ℕ → NodeList) (i k : ℕ) (l : NodeList) (j : ℕ)
    → j ≢ k
    → update (update f i (f i)) k l j ≡ f j
update_twice f i k l j ne = elim (ℕ_discrete j i) [
  | yes e ↦ rw (update-miss (update f i (f i)) k l j ne, e, update-hit f i (f i)) refl
  | no other ↦ update-miss (update f i (f i)) k l j ne ∙ update-miss f i (f i) j other
]

-- The block is not in the list that it is removed from.
out_of_list :
    (size fuel : ℕ) (z : Zone) (page k : ℕ)
    → IsPlace size page
    → k ≤ 10
    → IsSplit size z page k
    → remove_node (suc fuel) z.links (z.page_list k) page ≡ some (z.links, z.page_list k)
out_of_list size fuel z page k place small (order, previous, below, halves, top) =
    remove_none z.links (z.page_list k) page fuel previous (elim (ℕ_discrete k 10) [
      | yes e ↦ inl (ap (λ (t : ℕ). (z.page_list t).count) e ∙ top)
      | no less ↦
          let ((front, back, count), at) = halves k (omega arith) (omega arith) in
          let (a, b, c) = half_apart size page k 10 place (omega arith) (omega arith) in
          inr (omega (arith, count), (λ e. b (sym front ∙ e)))
    ])

-- The zone after the split to the order `k`.
abbrev pub halved : ℕ → Zone → ℕ → ℕ → Zone
halved size z page k =
    let other = half size page k in
    record z {
      page_list =
          update (update z.page_list (suc k) (z.page_list (suc k))) k
            (record { front = other; back = other; count = 1 });
      order = update (update z.order page k) other k;
      flags = update z.flags other (bit_or (z.flags other) 1);
    }

pub split_page-halved :
    (size fuel : ℕ) (z : Zone) (page k : ℕ)
    → IsPlace size page
    → k < 10
    → IsSplit size z page (suc k)
    → split_page size (suc fuel) z page ≡ some (halved size z page k)
unfolding split_page
split_page-halved size fuel z page k place small split =
    let (order, previous, below, halves, top) = split in
    let a : (suc k == 0) ≡ false = ground arith in
    let b : ltb 10 (suc k) ≡ false = ground arith in
    let c : suc k - 1 ≡ k = omega arith in
    let removed = out_of_list size fuel z page (suc k) place small split in
    let (apart, other, given) = half_apart size page k 10 place small (omega arith) in
    let miss = update-miss z.page_list (suc k) (z.page_list (suc k)) k (omega arith) in
    let added =
      add_empty z.links (z.page_list k) (half size page k) (below k (omega arith)) given in
    rw (order, a, b, c, removed, miss, added) refl

pub halved-IsSplit :
    (size : ℕ) (z : Zone) (page k : ℕ)
    → IsPlace size page
    → k < 10
    → IsSplit size z page (suc k)
    → IsSplit size (halved size z page k) page k
halved-IsSplit size z page k place small (order, previous, below, halves, top) =
    let other : ℕ = half size page k in
    let (apart, ne, given) = half_apart size page k 10 place small (omega arith) in
    let one : NodeList = record { front = other; back = other; count = 1 } in
    let kept = update_twice z.page_list (suc k) k one in
    (
      update-miss (update z.order page k) other k page (λ e. ne (sym e))
          ∙ update-hit z.order page k,
      previous,
      (λ j less. ap (λ (l : NodeList). l.count) (kept j (omega arith)) ∙ below j (omega arith)),
      (λ j le less. elim (ℕ_discrete j k) [
        | yes e ↦
            let here = update-hit (update z.page_list (suc k) (z.page_list (suc k))) k one in
            (
              subst (λ (l : NodeList). IsOnly l (half size page j))
                  (sym
                    (ap (update (update z.page_list (suc k) (z.page_list (suc k))) k one) e ∙ here))
                  (rw e (refl, refl, refl)),
              rw e (update-hit (update z.order page k) other k),
            )
        | no more ↦
            let (only, at) = halves j (omega arith) less in
            let (distinct, off, nonzero) = half_apart size page j 10 place less (omega arith) in
            let (differ, off2, nonzero2) =
              half_apart size page k j place (omega arith) (omega arith) in
            (
              subst (λ (l : NodeList). IsOnly l (half size page j)) (sym (kept j more)) only,
              update-miss (update z.order page k) other k (half size page j) (λ e. differ (sym e))
                  ∙ update-miss z.order page k (half size page j) off
                  ∙ at,
            )
      ]),
      ap (λ (l : NodeList). l.count) (kept 10 (omega arith)) ∙ top,
    )
