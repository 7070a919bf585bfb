-- ===== src/PageZone/Orders.antt =====
-- `PAGE_ORDER` after `ALIGN_PAGE`: the order that an amount of pages is given.
use nite_os_project.Common.{
  ℕ, zero, suc, ◌+◌, ◌-◌, ◌^◌, ◌<◌, ◌≤◌, ◌≡◌, refl, ap, ◌∙◌, arith, ltb, false, some,
}
use nite_os_project.Common.Words.{sub64}
use nite_os_project.Align.{smear}
use nite_os_project.Align.Power.{smear_power}
use nite_os_project.VirtualMemory.Space.{align_page}
use nite_os_project.PageZone.{order_loop, page_order}
use native.Mathlib.Decide.{dec_le}
use native.Mathlib.Nat.{pow-le-pow_right, pow-suc}

power_order : (k : ℕ) → k ≤ 10 → page_order (2 ^ k) ≡ some k
unfolding order_loop
power_order zero h = refl
power_order (suc zero) h = refl
power_order (suc (suc zero)) h = refl
power_order (suc (suc (suc zero))) h = refl
power_order (suc (suc (suc (suc zero)))) h = refl
power_order (suc (suc (suc (suc (suc zero))))) h = refl
power_order (suc (suc (suc (suc (suc (suc zero)))))) h = refl
power_order (suc (suc (suc (suc (suc (suc (suc zero))))))) h = refl
power_order (suc (suc (suc (suc (suc (suc (suc (suc zero)))))))) h = refl
power_order (suc (suc (suc (suc (suc (suc (suc (suc (suc zero))))))))) h = refl
power_order (suc (suc (suc (suc (suc (suc (suc (suc (suc (suc zero)))))))))) h = refl
power_order (suc (suc (suc (suc (suc (suc (suc (suc (suc (suc (suc k))))))))))) h =
    absurd (omega arith)

large_order : (size : ℕ) → 1024 ≤ size → page_order size ≡ some 10
unfolding order_loop
large_order size h = let stop : ltb size 1024 ≡ false = ground arith in rw stop refl

align_page_power : (n x : ℕ) → n ≤ 32 → 0 < x → x ≤ 2 ^ n → 2 ^ n < x + x → align_page x ≡ 2 ^ n
unfolding align_page smear
align_page_power n x small positive above near =
    let fits : 2 ^ n ≤ 2 ^ 32 = pow-le-pow_right (omega arith) {j = 32} small in
    let start : sub64 x 1 ≡ x - 1 = omega arith in
    let whole = smear_power n x small positive above near in rw start (omega arith)

-- The powers of two around a number.
bracket : (x n : ℕ) → 0 < x → x ≤ 2 ^ n → (k : ℕ) × (k ≤ n) × (x ≤ 2 ^ k) × (2 ^ k < x + x)
bracket x zero positive h = (0, omega arith, h, omega arith)
bracket x (suc n) positive h = elim (dec_le x (2 ^ n)) [
  | yes p ↦ let (k, le, above, near) = bracket x n positive p in (k, omega arith, above, near)
  | no p ↦ (suc n, omega arith, h, omega (arith, pow-suc 2 n))
]

power_least : (x k j : ℕ) → 2 ^ k < x + x → x ≤ 2 ^ j → k ≤ j
power_least x k j near h = elim (dec_le k j) [
  | yes p ↦ p
  | no p ↦
      let more : 2 ^ suc j ≤ 2 ^ k = pow-le-pow_right (omega arith) {j = k} (omega arith) in
      omega (arith, pow-suc 2 j)
]

-- An amount from 1 to 2^32 has an order from 0 to 10, which no power of two that holds the amount
-- is below; the block of the order holds the amount when this is at most 1024, and else the order
-- is 10, so that the block is too small.
pub page_order-align_page :
    (amount : ℕ)
    → 0 < amount
    → amount ≤ 2 ^ 32
    → (k : ℕ) × (page_order (align_page amount) ≡ some k)
      × (k ≤ 10)
      × ((j : ℕ) → amount ≤ 2 ^ j → k ≤ j)
      × (amount ≤ 1024 → amount ≤ 2 ^ k)
      × (1024 < amount → (k ≡ 10) × (2 ^ k < amount))
page_order-align_page amount positive small =
    let (k, le, above, near) = bracket amount 32 positive small in
    let aligned = align_page_power k amount le positive above near in
    elim (dec_le k 10) [
      | yes p ↦
          let fits : 2 ^ k ≤ 2 ^ 10 = pow-le-pow_right (omega arith) {j = 10} p in
          (
            k,
            ap page_order aligned ∙ power_order k p,
            p,
            (λ j h. power_least amount k j near h),
            (λ h. above),
            (λ h. absurd (omega arith)),
          )
      | no p ↦
          let large : 2 ^ 11 ≤ 2 ^ k =
            pow-le-pow_right (omega arith) {i = 11} {j = k} (omega arith) in
          (
            10,
            ap page_order aligned ∙ large_order (2 ^ k) (omega arith),
            omega arith,
            (λ j h. let least = power_least amount k j near h in omega arith),
            (λ h. h),
            (λ h. (refl, h)),
          )
    ]
