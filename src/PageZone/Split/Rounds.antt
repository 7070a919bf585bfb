-- ===== src/PageZone/Split/Rounds.antt =====
-- Splitting: the block of order 10 that is the only one of a zone, and an allocation from it.
use nite_os_project.Common.{
  ℕ, zero, suc, ◌+◌, ◌-◌, ◌<◌, ◌≤◌, ◌≡◌, ◌≢◌, refl, sym, ap, ◌∙◌, arith, bit_and, bit_or, ltb, ◌==◌,
  false, some, update, update-hit, update-miss,
}
use nite_os_project.PageZone.{
  NodeList, extract, Zone, half, expand_page, expand_loop, find_order, take_page, allocate_ordered,
}
use mathlib.Core.Path.{subst}
use nite_os_project.PageZone.Split.{
  IsOnly, IsPlace, IsSplit, half_apart, halved, split_page-halved, halved-IsSplit,
}

-- The rounds of the loop from the order `d + k` down to `k`.
expand_loop-IsSplit :
    (size fuel d k i : ℕ) (z : Zone) (page : ℕ)
    → IsPlace size page
    → i ≡ d + k
    → i ≤ 10
    → bit_and (z.flags page) 2 ≡ 0
    → IsSplit size z page i
    → (s : Zone) × (expand_loop size (suc fuel) d z page ≡ some (s, page))
      × (s.flags page ≡ z.flags page)
      × IsSplit size s page k
unfolding expand_loop expand_page
expand_loop-IsSplit size fuel zero k i z page place is top usable split =
    let at : i ≡ k = omega arith in
    (z, refl, refl, subst (λ (t : ℕ). IsSplit size z page t) at split)
expand_loop-IsSplit size fuel (suc d) k i z page place is top usable whole =
    let above : i ≡ suc (d + k) = omega arith in
    let split = subst (λ (t : ℕ). IsSplit size z page t) above whole in
    let s : Zone = halved size z page (d + k) in
    let next = halved-IsSplit size z page (d + k) place (omega arith) split in
    let (apart, ne, given) = half_apart size page (d + k) 10 place (omega arith) (omega arith) in
    let same : s.flags page ≡ z.flags page =
      update-miss z.flags (half size page (d + k)) (bit_or (z.flags (half size page (d + k))) 1)
        page (λ e. ne (sym e)) in
    let (t, e, kept, ends) =
      expand_loop-IsSplit size fuel d k (d + k) s page place refl (omega arith)
        (ap (λ (f : ℕ). bit_and f 2) same ∙ usable) next in
    let a : (page == 0) ≡ false = ground arith in
    (
      t,
      rw (a, usable, split_page-halved size fuel z page (d + k) place (omega arith) split) e,
      kept ∙ same,
      ends,
    )

find_order_last :
    (z : Zone) (d k : ℕ)
    → d + k ≡ 10
    → ((j : ℕ) → j < 10 → (z.page_list j).count ≡ 0)
    → (z.page_list 10).count ≡ 1
    → find_order z k (suc d) ≡ some 10
unfolding find_order
find_order_last z zero k e empty last = let f : k ≡ 10 = omega arith in rw (f, last) refl
find_order_last z (suc d) k e empty last =
    let here = empty k (omega arith) in
    rw here (find_order_last z d (k + 1) (omega arith) empty last)

-- The block at `page`, of order 10, is the only one of the zone.
abbrev pub IsWhole : ℕ → Zone → ℕ → Type 0
IsWhole size z page =
    IsPlace size page
    × IsOnly (z.page_list 10) page
    × ((j : ℕ) → j < 10 → (z.page_list j).count ≡ 0)
    × (z.order page ≡ 10)
    × (bit_and (z.flags page) 2 ≡ 0)
    × ((z.links page).previous ≡ 0)

-- When a zone has one block, of order 10, not the kernel's, with no previous one, and with records
-- below 2^64, an allocation of an order `k` up to 10 gives this block with the order `k`, no longer
-- marked as free; of what is left of it, the half of each order from `k` to 9 is alone in the list
-- of its order, with this order in its record, and the other lists are empty.
pub allocate_ordered-IsWhole :
    (size fuel : ℕ) (z : Zone) (page k : ℕ)
    → IsWhole size z page
    → k ≤ 10
    → (s : Zone) × (allocate_ordered size (suc fuel) z k ≡ some (s, page))
      × (s.flags page ≡ bit_and (z.flags page) 254)
      × IsSplit size s page k
unfolding allocate_ordered take_page extract
allocate_ordered-IsWhole size fuel z page k
      ((a, b, c), (front, back, count), empty, order, usable, previous) small =
    let place : IsPlace size page = (a, b, c) in
    let taken : Zone = record z {
      page_list = update z.page_list 10 (record { front = 0; back = 0; count = 0 });
    } in
    let split : IsSplit size taken page 10 = (
      order,
      previous,
      (λ j less.
          let other : j ≢ 10 = omega arith in
          ap (λ (l : NodeList). l.count)
            (update-miss z.page_list 10 (record { front = 0; back = 0; count = 0 }) j other)
          ∙ empty j less),
      (λ j le less. absurd (omega arith)),
      refl,
    ) in
    let (s, e, kept, ends) =
      expand_loop-IsSplit size fuel (10 - k) k 10 taken page place (omega arith) (omega arith)
        usable split in
    let top : ltb 10 k ≡ false = ground arith in
    let rounds : 11 - k ≡ suc (10 - k) = omega arith in
    let found = find_order_last z (10 - k) k (omega arith) empty count in
    let given : (page == 0) ≡ false = ground arith in
    let t : Zone = record s { flags = update s.flags page (bit_and (s.flags page) 254) } in
    (
      t,
      rw (top, rounds, found, count, front, e, given) refl,
      update-hit s.flags page (bit_and (s.flags page) 254) ∙ ap (λ (f : ℕ). bit_and f 254) kept,
      ends,
    )
