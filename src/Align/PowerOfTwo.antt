-- ===== src/Align/PowerOfTwo.antt =====
-- `alignDown`, `alignUp` and `divCeil` at an alignment that is a power of two.
use nite_os_project.Common.{ℕ, ◌+◌, ◌-◌, ◌*◌, ◌/◌, ◌%◌, ◌^◌, ◌≤◌, ◌<◌, ◌≡◌, sym, ap, ◌∙◌, arith}
use nite_os_project.Common.Words.{add64, sub64}
use nite_os_project.Common.Bits.{bit_and_high, two-pow-pos, two-pow-add, pred-mul}
use nite_os_project.Align.{align_down, align_up, complement, div_ceil}
use native.Mathlib.Nat.{
  mod-eq_of_lt, pow-le-pow_right, div-lt_iff_lt-mul, mod-lt, div-add-mod', mul-mod_left,
}

-- `~(2^k - 1)` has ones above the `k` low bits.
mask_lem : (k m : ℕ) → k + m ≡ 64 → k < 64 → complement (sub64 (2 ^ k) 1) ≡ (2 ^ m - 1) * 2 ^ k
mask_lem k m h less =
    let whole : 2 ^ k * 2 ^ m ≡ 2 ^ 64 = sym (two-pow-add k m) ∙ ap (λ (t : ℕ). 2 ^ t) h in
    let positive : 0 < 2 ^ k = two-pow-pos k in
    let other : 0 < 2 ^ m = two-pow-pos m in
    let small : 2 ^ k ≤ 2 ^ 64 = pow-le-pow_right (omega arith) {j = 64} (omega arith) in
    let wrap : (2 ^ k + 2 ^ 64 - 1) % 2 ^ 64 ≡ 2 ^ k - 1 = omega arith in
    rw wrap (omega (arith, whole, pred-mul (2 ^ m) (2 ^ k)))

module _ (k : ℕ) (less : k < 64) where
  align_down_lem : (x : ℕ) → x < 2 ^ 64 → align_down x (2 ^ k) ≡ x / 2 ^ k * 2 ^ k
  unfolding align_down
  align_down_lem x h =
      let whole : 2 ^ 64 ≡ 2 ^ (64 - k) * 2 ^ k =
        ap (λ (t : ℕ). 2 ^ t) {x = 64} (omega arith) ∙ two-pow-add (64 - k) k in
      let fits : x / 2 ^ k < 2 ^ (64 - k) = (div-lt_iff_lt-mul (two-pow-pos k)).1 (omega arith) in
      rw (mask_lem k (64 - k) (omega arith) less, bit_and_high k (64 - k) x)
        (ap (λ (t : ℕ). t * 2 ^ k) (mod-eq_of_lt fits))

  -- `alignDown` is the greatest multiple of the alignment that is not above the address.
  pub align_down-greatest :
      (x : ℕ)
      → x < 2 ^ 64
      → (align_down x (2 ^ k) % 2 ^ k ≡ 0)
        × (align_down x (2 ^ k) ≤ x)
        × (x < align_down x (2 ^ k) + 2 ^ k)
  align_down-greatest x h =
      let low : x % 2 ^ k < 2 ^ k = mod-lt x (two-pow-pos k) in
      rw (align_down_lem x h) (
        mul-mod_left (x / 2 ^ k) (2 ^ k),
        omega (arith, div-add-mod' x (2 ^ k)),
        omega (arith, div-add-mod' x (2 ^ k)),
      )

  align_up_lem :
      (x : ℕ) → x + 2 ^ k ≤ 2 ^ 64 → align_up x (2 ^ k) ≡ align_down (x + 2 ^ k - 1) (2 ^ k)
  unfolding align_up align_down
  align_up_lem x h =
      let positive : 0 < 2 ^ k = two-pow-pos k in
      let sum : sub64 (add64 x (2 ^ k)) 1 ≡ x + 2 ^ k - 1 = omega arith in rw sum

  -- `alignUp` is the least multiple of the alignment that is not below the address, if their sum
  -- does not pass 2^64.
  pub align_up-least :
      (x : ℕ)
      → x + 2 ^ k ≤ 2 ^ 64
      → (align_up x (2 ^ k) % 2 ^ k ≡ 0)
        × (x ≤ align_up x (2 ^ k))
        × (align_up x (2 ^ k) < x + 2 ^ k)
  align_up-least x h =
      let positive : 0 < 2 ^ k = two-pow-pos k in
      let (multiple, below, near) = align_down-greatest (x + 2 ^ k - 1) (omega arith) in
      rw (align_up_lem x h) (multiple, omega arith, omega arith)

-- `divCeil` is the least number of blocks of size `b` that hold `a`.
pub div_ceil-least : (a b : ℕ) → 0 < b → (a ≤ div_ceil a b * b) × (div_ceil a b * b < a + b)
unfolding div_ceil
div_ceil-least a b h = let low : a % b < b = mod-lt a h in ground (arith, div-add-mod' a b)
