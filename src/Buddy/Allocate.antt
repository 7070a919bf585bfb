-- ===== src/Buddy/Allocate.antt =====
-- What `allocatePhysMemory4KPages` returns: the first page of the least order that serves, cut down
-- to the rounded size; or null.
use nite_os_project.Common.{
  ℕ, zero, suc, ◌+◌, ◌^◌, ◌<◌, ◌≤◌, ◌≡◌, ◌≢◌, refl, ap, ◌∙◌, arith, true, false, not, ltb, ◌==◌,
  ◌||◌, inl, inr, ◌⊎◌, bit_and,
}
use native.Mathlib.Decide.{dec_le, ℕ_discrete}
use native.Mathlib.Nat.{pow-le-pow_right}
use nite_os_project.Common.Bits.{bit_and-halves, bit_and_ones, two-pow-pos}
use nite_os_project.Align.{align_two_exponent}
use nite_os_project.Align.Power.{align_two_exponent-least}
use nite_os_project.PageQueue.{pop}
use nite_os_project.PageQueue.Fifo.{pop-head}
use nite_os_project.Buddy.{
  PageInfo, Infos, flagged_free, split, buddy_fix_size, BuddyAlloc, queue_at, put_queue, find_order,
  push_half, halve, take_page, allocate_from, allocate,
}
use nite_os_project.Buddy.Page.{split-kept}
use nite_os_project.Buddy.Search.{Serves, find_order_eq}

push_half-info :
    (s : BuddyAlloc) (ord page : ℕ) → (push_half s ord page).info ≡ (split s.info page).1
unfolding push_half
push_half-info s ord page = refl

halve-more :
    (ord amount : ℕ) (s : BuddyAlloc) (page : ℕ)
    → amount < 2 ^ suc ord
    → halve (suc ord) amount s page ≡ halve ord amount (push_half s ord page) page
unfolding halve
halve-more ord amount s page h = ground arith

halve-done :
    (ord amount : ℕ) (s : BuddyAlloc) (page : ℕ) → 2 ^ ord ≤ amount → halve ord amount s page ≡ s
unfolding halve
halve-done zero amount s page h = refl
halve-done (suc ord) amount s page h = ground arith

-- The loop that halves leaves the page free, of the order asked for.
halve-info :
    (ord k : ℕ) (s : BuddyAlloc) (page : ℕ)
    → k ≤ ord
    → ord ≤ 10
    → page < 2 ^ 63
    → flagged_free (s.info page) ≡ true
    → (s.info page).order ≡ ord
    → (halve ord (2 ^ k) s page).info page ≡ record (s.info page) { order = k }
halve-info zero k s page le b p f e =
    let same : 0 ≡ k = omega arith in
    ap (λ (t : BuddyAlloc). t.info page) (halve-done zero (2 ^ k) s page (two-pow-pos k))
    ∙ ap (λ (o : ℕ). record (s.info page) { order = o }) (e ∙ same)
halve-info (suc ord) k s page le b p f e = elim (dec_le (suc ord) k) [
  | yes ge ↦
      let same : suc ord ≡ k = omega arith in
      let enough : 2 ^ suc ord ≤ 2 ^ k = pow-le-pow_right (omega arith) ge in
      ap (λ (t : BuddyAlloc). t.info page) (halve-done (suc ord) (2 ^ k) s page enough)
      ∙ ap (λ (o : ℕ). record (s.info page) { order = o }) (e ∙ same)
  | no lt ↦
      let larger : 2 ^ suc k ≤ 2 ^ suc ord = pow-le-pow_right (omega arith) (omega arith) in
      let kept : (push_half s ord page).info page ≡ record (s.info page) { order = ord } =
        ap (λ (m : Infos). m page) (push_half-info s ord page)
        ∙ split-kept s.info page ord f e (omega arith) p in
      let rest =
        halve-info ord k (push_half s ord page) page (omega arith) (omega arith) p
          (ap (λ (i : PageInfo). flagged_free i) kept ∙ f) (ap (λ (i : PageInfo). i.order) kept) in
      ap (λ (t : BuddyAlloc). t.info page)
        (halve-more ord (2 ^ k) s page (omega (arith, two-pow-pos k)))
      ∙ rest
      ∙ ap (λ (i : PageInfo). record i { order = k }) kept
]

allocate-from :
    (s : BuddyAlloc) (amount k ord : ℕ)
    → 0 < amount
    → amount ≤ 2 ^ k
    → 2 ^ k < amount + amount
    → k ≤ 10
    → find_order 10 0 (2 ^ k) s.lists ≡ ord
    → allocate s amount ≡ allocate_from s (2 ^ k) ord
unfolding allocate buddy_fix_size
allocate-from s amount k ord pos above near b e =
    let fixed : align_two_exponent amount ≡ 2 ^ k =
      align_two_exponent-least k amount (omega arith) pos above near in
    let small : 2 ^ k ≤ 2 ^ 10 = pow-le-pow_right (omega arith) b in
    let some_pages : (amount == 0 || ltb (2 ^ 10) amount) ≡ false = ground arith in
    rw (some_pages, fixed, e) refl

allocate_from-empty :
    (s : BuddyAlloc) (amount ord : ℕ) → (s.lists ord).size ≡ 0 → allocate_from s amount ord ≡ (0, s)
unfolding allocate_from
allocate_from-empty s amount ord h = ground arith

allocate_from-more :
    (s : BuddyAlloc) (amount ord page : ℕ)
    → (s.lists ord).size ≢ 0
    → (pop (queue_at s ord)).0 ≡ page
    → allocate_from s amount ord
      ≡ (page, take_page (halve ord amount (put_queue s ord (pop (queue_at s ord)).1) page) page)
unfolding allocate_from
allocate_from-more s amount ord page h e =
    let some_left : ((s.lists ord).size == 0) ≡ false = ground arith in rw (some_left, e) refl

take_page-info :
    (s : BuddyAlloc) (page : ℕ)
    → (take_page s page).info page
      ≡ record (s.info page) { flags = bit_and (s.info page).flags 0xFE }
take_page-info s page = ground arith

taken_flag : (f : ℕ) → bit_and (bit_and f 0xFE) 1 ≡ 0
taken_flag f = let halves = bit_and-halves f 0xFE in bit_and_ones 1 (bit_and f 0xFE) ∙ omega arith

-- Let `2 ^ k` be the least power of two not below the amount, and `ord`, at most 10, the least order
-- that serves so many pages. Where the first page of its list is marked free, of that order, and its
-- record below 2^63, `allocate` returns it, cut down to order `k`, with its mark as free away.
pub allocate-block :
    (s : BuddyAlloc) (amount k ord : ℕ)
    → 0 < amount
    → amount ≤ 2 ^ k
    → 2 ^ k < amount + amount
    → k ≤ ord
    → ord ≤ 10
    → (s.lists ord).size ≢ 0
    → ((i : ℕ) → i < ord → ¬ Serves s.lists (2 ^ k) i)
    → (s.lists ord).head < 2 ^ 63
    → (s.info (s.lists ord).head).order ≡ ord
    → flagged_free (s.info (s.lists ord).head) ≡ true
    → ((allocate s amount).0 ≡ (s.lists ord).head)
      × (((allocate s amount).1.info (s.lists ord).head).order ≡ k)
      × (flagged_free ((allocate s amount).1.info (s.lists ord).head) ≡ false)
allocate-block s amount k ord pos above near le b nz none_below p e f =
    let head = (s.lists ord).head in
    let fits : 2 ^ k ≤ 2 ^ ord = pow-le-pow_right (omega arith) le in
    let found = find_order_eq (2 ^ k) ord 10 s.lists b (inr (fits, nz)) none_below in
    let popped = put_queue s ord (pop (queue_at s ord)).1 in
    let result =
      allocate-from s amount k ord pos above near (omega arith) found
      ∙ allocate_from-more s (2 ^ k) ord head nz (pop-head (queue_at s ord) nz) in
    let info =
      ap (λ (r : ℕ × BuddyAlloc). r.1.info head) result
      ∙ take_page-info (halve ord (2 ^ k) popped head) head
      ∙ ap (λ (i : PageInfo). record i { flags = bit_and i.flags 0xFE })
          (halve-info ord k popped head le b p f e) in
    (
      ap (λ (r : ℕ × BuddyAlloc). r.0) result,
      ap (λ (i : PageInfo). i.order) info,
      ap (λ (i : PageInfo). flagged_free i) info
          ∙ ap (λ (t : ℕ). not (t == 0)) (taken_flag (s.info head).flags),
    )

order_small : (amount k : ℕ) → amount ≤ 1024 → 2 ^ k < amount + amount → k ≤ 10
order_small amount k h near = elim (dec_le k 10) [
  | yes le ↦ le
  | no gt ↦
      let large : 2 ^ 11 ≤ 2 ^ k = pow-le-pow_right (omega arith) {i = 11} {j = k} (omega arith) in
      absurd (omega arith)
]

allocate-empty :
    (s : BuddyAlloc) (amount k : ℕ)
    → 0 < amount
    → amount ≤ 2 ^ k
    → 2 ^ k < amount + amount
    → amount ≤ 1024
    → ((i : ℕ) → i ≤ 10 → ¬ Serves s.lists (2 ^ k) i)
    → allocate s amount ≡ (0, s)
allocate-empty s amount k pos above near small none_fit =
    let b = order_small amount k small near in
    let fits : 2 ^ k ≤ 2 ^ 10 = pow-le-pow_right (omega arith) b in
    let empty : (s.lists 10).size ≡ 0 = elim (ℕ_discrete (s.lists 10).size 0) [
      | yes e ↦ e
      | no n ↦ absurd (none_fit 10 (omega arith) (fits, n))
    ] in
    let found =
      find_order_eq (2 ^ k) 10 10 s.lists (omega arith) (inl refl)
        (λ i l. none_fit i (omega arith)) in
    allocate-from s amount k 10 pos above near b found ∙ allocate_from-empty s (2 ^ k) 10 empty

-- `allocate` answers null, and changes nothing, to no pages, to more than 1024, and where no order
-- up to 10 serves.
pub allocate-null :
    (s : BuddyAlloc) (amount k : ℕ)
    → amount ≡ 0
      ⊎ (1024 < amount)
      ⊎ ((0 < amount)
          × (amount ≤ 2 ^ k)
          × (2 ^ k < amount + amount)
          × ((i : ℕ) → i ≤ 10 → ¬ Serves s.lists (2 ^ k) i))
    → allocate s amount ≡ (0, s)
unfolding allocate
allocate-null s amount k (inl h) = ground arith
allocate-null s amount k (inr (inl h)) = ground arith
allocate-null s amount k (inr (inr (pos, above, near, none_fit))) = elim (dec_le amount 1024) [
  | yes small ↦ allocate-empty s amount k pos above near small none_fit
  | no large ↦ ground arith
]
