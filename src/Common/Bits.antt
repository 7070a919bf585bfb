-- ===== src/Common/Bits.antt =====
-- Laws of the native `bit_and` and `bit_or` at variables: masks of ones, shifts, disjoint fields.
use Prim.Native.Nat.{
  ℕ, zero, suc, ◌+◌, ◌-◌, ◌*◌, ◌/◌, ◌%◌, ◌^◌, ◌≤◌, ◌<◌, min, max, bit_and, bit_or, digits, bitwise,
  bit_and-bitwise, bit_or-bitwise,
}
use mathlib.Core.Path.{◌≡◌, refl, sym, ap, ◌∙◌}
use native.Mathlib.Omega.{arith}
use native.Mathlib.Decide.{dec_le}
use native.Mathlib.Nat.{
  pow-suc, pow-succ', one-le-pow, mod-lt, mod-eq_of_lt, div-add-mod', mul-add-mod_self_right,
  div-div-eq-div-mul,
}

-- `digits` walks both numbers from the lowest digit, on a count for which the first one serves.
module _ (alone : ℕ → ℕ) (join : ℕ → ℕ → ℕ) where
  -- One more round than the number needs changes nothing.
  spare_round :
      (rounds x y : ℕ)
      → x ≤ rounds
      → digits alone join (suc rounds) x y ≡ digits alone join rounds x y
  spare_round zero zero y le = refl
  spare_round zero (suc x) y le = absurd (omega arith)
  spare_round (suc rounds) zero y le = refl
  spare_round (suc rounds) (suc x) y le =
      ap (λ (t : ℕ). t * 2 + join (suc x % 2) (y % 2))
        (spare_round rounds (suc x / 2) (y / 2) (omega arith))

  spare_rounds :
      (rounds x y : ℕ) → x ≤ rounds → digits alone join rounds x y ≡ bitwise alone join x y
  spare_rounds zero zero y le = refl
  spare_rounds zero (suc x) y le = absurd (omega arith)
  spare_rounds (suc rounds) x y le = elim (dec_le x rounds) [
    | yes less ↦ spare_round rounds x y less ∙ spare_rounds rounds x y less
    | no all ↦ ap (λ (t : ℕ). digits alone join t x y) (exact rounds x le all)
  ]
    where
      exact : (n k : ℕ) → k ≤ suc n → ¬ (k ≤ n) → suc n ≡ k
      exact n k le more = omega arith

  -- The result at the halves, with the lowest digits joined.
  bitwise-halves :
      (x y : ℕ)
      → bitwise alone join (suc x) y
        ≡ bitwise alone join (suc x / 2) (y / 2) * 2 + join (suc x % 2) (y % 2)
  bitwise-halves x y =
      ap (λ (t : ℕ). t * 2 + join (suc x % 2) (y % 2))
        (spare_rounds x (suc x / 2) (y / 2) (omega arith))

bit_and_none : (y : ℕ) → bit_and 0 y ≡ 0
bit_and_none y = bit_and-bitwise 0 y

pub bit_or_none : (y : ℕ) → bit_or 0 y ≡ y
bit_or_none y = bit_or-bitwise 0 y

pub bit_and-halves : (x y : ℕ) → bit_and x y ≡ bit_and (x / 2) (y / 2) * 2 + min (x % 2) (y % 2)
bit_and-halves zero y = omega (arith, bit_and_none y, bit_and_none (y / 2))
bit_and-halves (suc x) y =
    bit_and-bitwise (suc x) y
    ∙ bitwise-halves (λ d. zero) min x y
    ∙ ap (λ (t : ℕ). t * 2 + min (suc x % 2) (y % 2)) (sym (bit_and-bitwise (suc x / 2) (y / 2)))

pub bit_or-halves : (x y : ℕ) → bit_or x y ≡ bit_or (x / 2) (y / 2) * 2 + max (x % 2) (y % 2)
bit_or-halves zero y = omega (arith, bit_or_none y, bit_or_none (y / 2))
bit_or-halves (suc x) y =
    bit_or-bitwise (suc x) y
    ∙ bitwise-halves (λ d. d) max x y
    ∙ ap (λ (t : ℕ). t * 2 + max (suc x % 2) (y % 2)) (sym (bit_or-bitwise (suc x / 2) (y / 2)))

-- A second operand of zero.
right_zero : (bound x : ℕ) → x ≤ bound → (bit_and x 0 ≡ 0) × (bit_or x 0 ≡ x)
right_zero bound zero le = (bit_and_none 0, bit_or_none 0)
right_zero zero (suc x) le = absurd (omega arith)
right_zero (suc bound) (suc x) le =
    let (and_half, or_half) = right_zero bound (suc x / 2) (omega arith) in
    (omega (arith, bit_and-halves (suc x) 0), omega (arith, bit_or-halves (suc x) 0))

pub bit_and-zero : (x : ℕ) → bit_and x 0 ≡ 0
bit_and-zero x = (right_zero x x (omega arith)).0

pub bit_or-zero : (x : ℕ) → bit_or x 0 ≡ x
bit_or-zero x = (right_zero x x (omega arith)).1

mod-double : (a p : ℕ) → 0 < p → a % (p * 2) ≡ a / 2 % p * 2 + a % 2
mod-double a p h =
    let low : a / 2 % p < p = mod-lt (a / 2) h in
    let split : a ≡ a / 2 / p * (p * 2) + (a / 2 % p * 2 + a % 2) =
      omega (arith, div-add-mod' (a / 2) p) in
    ap (λ (t : ℕ). t % (p * 2)) split
    ∙ mul-add-mod_self_right (a / 2 / p) (p * 2) (a / 2 % p * 2 + a % 2)
    ∙ mod-eq_of_lt (omega arith)

bit_and-even : (a c : ℕ) → bit_and a (c * 2) ≡ bit_and (a / 2) c * 2
bit_and-even a c =
    let half : c * 2 / 2 ≡ c = omega arith in
    omega (arith, bit_and-halves a (c * 2), ap (bit_and (a / 2)) half)

bit_and-odd : (a c : ℕ) → bit_and a (c * 2 + 1) ≡ bit_and (a / 2) c * 2 + a % 2
bit_and-odd a c =
    let half : (c * 2 + 1) / 2 ≡ c = omega arith in
    omega (arith, bit_and-halves a (c * 2 + 1), ap (bit_and (a / 2)) half)

bit_or-even : (a b : ℕ) → bit_or (a * 2) b ≡ bit_or a (b / 2) * 2 + b % 2
bit_or-even a b =
    let half : a * 2 / 2 ≡ a = omega arith in
    omega (arith, bit_or-halves (a * 2) b, ap (λ (t : ℕ). bit_or t (b / 2)) half)

mul-pow-suc : (x k : ℕ) → x * 2 ^ suc k ≡ x * 2 ^ k * 2
mul-pow-suc x k = rw (pow-suc 2 k) (omega arith)

pub two-pow-pos : (k : ℕ) → 0 < 2 ^ k
two-pow-pos k = one-le-pow k 2 (omega arith)

-- A mask of `k` ones keeps the low `k` bits.
pub bit_and_ones : (k a : ℕ) → bit_and a (2 ^ k - 1) ≡ a % 2 ^ k
bit_and_ones zero a = omega (arith, bit_and-zero a)
bit_and_ones (suc k) a =
    let ones : 2 ^ suc k - 1 ≡ (2 ^ k - 1) * 2 + 1 = omega (arith, pow-suc 2 k, two-pow-pos k) in
    rw (ones, bit_and-odd a (2 ^ k - 1), bit_and_ones k (a / 2), pow-suc 2 k)
      (sym (mod-double a (2 ^ k) (two-pow-pos k)))

-- A mask of `m` ones above `k` zeros clears the low `k` bits.
pub bit_and_high : (k m a : ℕ) → bit_and a ((2 ^ m - 1) * 2 ^ k) ≡ a / 2 ^ k % 2 ^ m * 2 ^ k
bit_and_high zero m a =
    let unit : (2 ^ m - 1) * 1 ≡ 2 ^ m - 1 = omega arith in
    let whole : a / 1 ≡ a = omega arith in rw (unit, whole, bit_and_ones m a) (omega arith)
bit_and_high (suc k) m a =
    let shifted : (2 ^ m - 1) * 2 ^ suc k ≡ (2 ^ m - 1) * 2 ^ k * 2 = mul-pow-suc (2 ^ m - 1) k in
    let halves : a / 2 ^ suc k ≡ a / 2 / 2 ^ k =
      ap (λ (t : ℕ). a / t) (pow-succ' 2 k) ∙ sym (div-div-eq-div-mul a 2 (2 ^ k)) in
    rw (shifted, bit_and-even a ((2 ^ m - 1) * 2 ^ k), bit_and_high k m (a / 2), halves)
      (sym (mul-pow-suc (a / 2 / 2 ^ k % 2 ^ m) k))

-- Fields that do not overlap are joined by `|` as by `+`.
pub bit_or_disjoint : (k a b : ℕ) → b < 2 ^ k → bit_or (a * 2 ^ k) b ≡ a * 2 ^ k + b
bit_or_disjoint zero a b h =
    let none_low : b ≡ 0 = omega arith in
    let unit : a * 1 ≡ a = omega arith in rw (none_low, unit) (omega (arith, bit_or-zero a))
bit_or_disjoint (suc k) a b h =
    let shifted : a * 2 ^ suc k ≡ a * 2 ^ k * 2 = mul-pow-suc a k in
    rw
      (shifted, bit_or-even (a * 2 ^ k) b, bit_or_disjoint k a (b / 2) (omega (arith, pow-suc 2 k)))
      (omega arith)

pub two-pow-add : (k m : ℕ) → 2 ^ (k + m) ≡ 2 ^ k * 2 ^ m
two-pow-add zero m = let bare : 0 + m ≡ m = omega arith in rw bare (omega arith)
two-pow-add (suc k) m =
    let outer : suc k + m ≡ suc (k + m) = omega arith in
    rw (outer, pow-suc 2 (k + m), pow-suc 2 k, two-pow-add k m) (omega arith)

pub pred-mul : (a b : ℕ) → (a - 1) * b ≡ a * b - b
pred-mul zero b = omega arith
pred-mul (suc a) b = let less_one : suc a - 1 ≡ a = omega arith in rw less_one (omega arith)

le-bit_or_fuel : (n a b : ℕ) → a ≤ n → (a ≤ bit_or a b) × (b ≤ bit_or a b)
le-bit_or_fuel n zero b h = omega (arith, bit_or_none b)
le-bit_or_fuel zero (suc a) b h = absurd (omega arith)
le-bit_or_fuel (suc n) (suc a) b h =
    omega (arith, bit_or-halves (suc a) b, le-bit_or_fuel n (suc a / 2) (b / 2) (omega arith))

pub le-bit_or : (a b : ℕ) → (a ≤ bit_or a b) × (b ≤ bit_or a b)
le-bit_or a b = le-bit_or_fuel a a b (omega arith)

pub bit_or-lt : (n a b : ℕ) → a < 2 ^ n → b < 2 ^ n → bit_or a b < 2 ^ n
bit_or-lt zero a b p q =
    let none_left : a ≡ 0 = omega arith in rw none_left (omega (arith, bit_or_none b))
bit_or-lt (suc n) a b p q = omega (
  arith,
  pow-suc 2 n,
  bit_or-halves a b,
  bit_or-lt n (a / 2) (b / 2) (omega (arith, pow-suc 2 n)) (omega (arith, pow-suc 2 n)),
)

-- A field above the reach of both operands is kept.
pub bit_or_above :
    (s h l z : ℕ) → l < 2 ^ s → z < 2 ^ s → bit_or (h * 2 ^ s + l) z ≡ h * 2 ^ s + bit_or l z
bit_or_above zero h l z p q =
    let no_l : l ≡ 0 = omega arith in
    let no_z : z ≡ 0 = omega arith in
    let whole : h * 1 + 0 ≡ h = omega arith in rw (no_l, no_z, whole, bit_or-zero h) (omega arith)
bit_or_above (suc s) h l z p q =
    let shifted : h * 2 ^ suc s ≡ h * 2 ^ s * 2 = mul-pow-suc h s in
    let half : (h * 2 ^ s * 2 + l) / 2 ≡ h * 2 ^ s + l / 2 = omega arith in
    let inner =
      bit_or_above s h (l / 2) (z / 2) (omega (arith, pow-suc 2 s)) (omega (arith, pow-suc 2 s)) in
    rw shifted (
      omega (
        arith,
        bit_or-halves (h * 2 ^ s * 2 + l) z,
        bit_or-halves l z,
        ap (λ (t : ℕ). bit_or t (z / 2)) half,
        inner,
      ))

bit_or_comm_fuel : (n a b : ℕ) → a ≤ n → b ≤ n → bit_or a b ≡ bit_or b a
bit_or_comm_fuel zero a b p q = let no_a : a ≡ b = omega arith in rw no_a refl
bit_or_comm_fuel (suc n) a b p q = omega (
  arith,
  bit_or-halves a b,
  bit_or-halves b a,
  bit_or_comm_fuel n (a / 2) (b / 2) (omega arith) (omega arith),
)

pub bit_or_comm : (a b : ℕ) → bit_or a b ≡ bit_or b a
bit_or_comm a b = bit_or_comm_fuel (max a b) a b (omega arith) (omega arith)
