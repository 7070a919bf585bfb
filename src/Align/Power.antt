-- ===== src/Align/Power.antt =====
-- `alignTwoExponent` against the powers of two that it stands for.
use nite_os_project.Common.{
  ℕ, zero, suc, ◌+◌, ◌-◌, ◌*◌, ◌/◌, ◌^◌, ◌≤◌, ◌<◌, ◌≡◌, ap, ◌∙◌, arith, bit_or,
}
use mathlib.Core.Path.{subst}
use nite_os_project.Common.Words.{add64, sub64}
use nite_os_project.Common.Bits.{
  two-pow-pos, two-pow-add, pred-mul, le-bit_or, bit_or-lt, bit_or_above,
}
use nite_os_project.Align.{smear, align_two_exponent}
use native.Mathlib.Decide.{dec_le}
use native.Mathlib.Nat.{
  pow-le-pow_right, div-le_self, pow-suc, div-lt_iff_lt-mul, le-div_iff_mul-le,
}

-- Of the `n` bits of `y` the highest `j` are ones.
abbrev HighOnes : ℕ → ℕ → ℕ → Type 0
HighOnes n j y = (y < 2 ^ n) × (2 ^ n ≤ y + 2 ^ (n - j))

distribute : (a b c k : ℕ) → a ≡ b + c → a * k ≡ b * k + c * k
distribute a b c k h = ap (λ (t : ℕ). t * k) h ∙ expand
  where
    expand : (b + c) * k ≡ b * k + c * k
    expand = omega arith

high_part : (S T K y : ℕ) → 0 < K → T ≤ S → S * K ≤ y + T * K → S - T ≤ y / K
high_part S T K y positive le h =
    let d : ℕ = S - T in
    let split : S ≡ T + d = omega arith in
    let product : S * K ≡ T * K + d * K = distribute S T d K split in
    (le-div_iff_mul-le positive).1 (omega arith)

-- With `J` and `S` the powers of two of the two parts of the word.
or_shifted :
    (s K y : ℕ)
    → 0 < K
    → y < K * 2 ^ s
    → K * 2 ^ s ≤ y + 2 ^ s
    → bit_or y (y / K) ≡ K * 2 ^ s - 2 ^ s + bit_or (y - (K * 2 ^ s - 2 ^ s)) (y / K)
or_shifted s K y positive below ones =
    let fits : y / K < 2 ^ s = (div-lt_iff_lt-mul positive).1 (omega arith) in
    let top : (K - 1) * 2 ^ s ≡ K * 2 ^ s - 2 ^ s = pred-mul K (2 ^ s) in
    let low : ℕ = y - (K - 1) * 2 ^ s in
    let split : y ≡ (K - 1) * 2 ^ s + low = omega arith in
    let joined = bit_or_above s (K - 1) low (y / K) (omega arith) fits in
    let same : low ≡ y - (K * 2 ^ s - 2 ^ s) = omega arith in
    ap (λ (t : ℕ). bit_or t (y / K)) split
    ∙ joined
    ∙ ap (λ (t : ℕ). t + bit_or low (y / K)) top
    ∙ ap (λ (t : ℕ). K * 2 ^ s - 2 ^ s + bit_or t (y / K)) same

smear-lt : (n j y : ℕ) → y < 2 ^ n → smear j y < 2 ^ n
unfolding smear
smear-lt n j y h = bit_or-lt n y (y / 2 ^ j) h (le_lt (div-le_self y (2 ^ j)) h)
  where
    le_lt : {a b c : ℕ} → a ≤ b → b < c → a < c
    le_lt p q = omega arith

le-smear : (j y : ℕ) → y ≤ smear j y
unfolding smear
le-smear j y = (le-bit_or y (y / 2 ^ j)).0

smear-HighOnes_inside :
    (j s y : ℕ)
    → y < 2 ^ j * 2 ^ s
    → 2 ^ j * 2 ^ s ≤ y + 2 ^ s
    → 2 ^ s ≤ 2 ^ (s - j) * 2 ^ j
    → 2 ^ j * 2 ^ s ≤ smear j y + 2 ^ (s - j)
unfolding smear
smear-HighOnes_inside j s y below ones reach =
    let smaller : 2 ^ (s - j) ≤ 2 ^ s = pow-le-pow_right (omega arith) (omega arith) in
    omega (
      arith,
      two-pow-pos j,
      or_shifted s (2 ^ j) y (two-pow-pos j) below ones,
      high_part (2 ^ s) (2 ^ (s - j)) (2 ^ j) y (two-pow-pos j) smaller (omega arith),
      le-bit_or (y - (2 ^ j * 2 ^ s - 2 ^ s)) (y / 2 ^ j),
    )

pow-reach : (j s : ℕ) → 2 ^ s ≤ 2 ^ (s - j) * 2 ^ j
pow-reach j s = elim (dec_le s j) [
  | yes p ↦
      let exponent : s - j ≡ 0 = omega arith in
      let larger : 2 ^ s ≤ 2 ^ j = pow-le-pow_right (omega arith) p in rw exponent (omega arith)
  | no p ↦
      let exponent : s ≡ s - j + j = omega arith in
      let whole : 2 ^ s ≡ 2 ^ (s - j) * 2 ^ j =
        ap (λ (t : ℕ). 2 ^ t) exponent ∙ two-pow-add (s - j) j in
      omega arith
]

smear-HighOnes : (n j y : ℕ) → HighOnes n j y → HighOnes n (j + j) (smear j y)
smear-HighOnes n j y (below, ones) = (
  smear-lt n j y below,
  elim (dec_le j n) [
    | yes p ↦
        let s : ℕ = n - j in
        let exponent : n ≡ j + s = omega arith in
        let rest : n - (j + j) ≡ s - j = omega arith in
        let whole : 2 ^ n ≡ 2 ^ j * 2 ^ s = ap (λ (t : ℕ). 2 ^ t) exponent ∙ two-pow-add j s in
        rw rest
          (omega (arith, smear-HighOnes_inside j s y (omega arith) (omega arith) (pow-reach j s)))
    | no p ↦
        let done : n - j ≡ 0 = omega arith in
        let done_too : n - (j + j) ≡ 0 = omega arith in
        rw done_too (omega (arith, le-smear j y, ap (λ (t : ℕ). 2 ^ t) done))
  ],
)

half_le : (n : ℕ) → 2 ^ n ≤ 2 ^ (n - 1) + 2 ^ (n - 1)
half_le zero = omega arith
half_le (suc n) =
    let less_one : suc n - 1 ≡ n = omega arith in rw less_one (omega (arith, pow-suc 2 n))

wraps : (n y : ℕ) → n < 64 → 2 ^ n ≤ 2 ^ 63 → HighOnes n 64 y → add64 y 1 ≡ 2 ^ n
wraps n y less small (below, ones) =
    let none_left : n - 64 ≡ 0 = omega arith in
    let last : 2 ^ n ≤ y + 1 = subst (λ (t : ℕ). 2 ^ n ≤ y + 2 ^ t) none_left ones in omega arith

smears-HighOnes :
    (n y : ℕ) → HighOnes n 1 y → HighOnes n 32 (smear 16 (smear 8 (smear 4 (smear 2 (smear 1 y)))))
smears-HighOnes n y ones =
    let h2 = smear-HighOnes n 1 y ones in
    let h4 = smear-HighOnes n 2 (smear 1 y) h2 in
    let h8 = smear-HighOnes n 4 (smear 2 (smear 1 y)) h4 in
    let h16 = smear-HighOnes n 8 (smear 4 (smear 2 (smear 1 y))) h8 in
    smear-HighOnes n 16 (smear 8 (smear 4 (smear 2 (smear 1 y)))) h16

-- The steps up to 16 are enough up to 2^32.
pub smear_power :
    (n x : ℕ)
    → n ≤ 32
    → 0 < x
    → x ≤ 2 ^ n
    → 2 ^ n < x + x
    → smear 16 (smear 8 (smear 4 (smear 2 (smear 1 (x - 1))))) + 1 ≡ 2 ^ n
smear_power n x less positive above near =
    let y : ℕ = smear 16 (smear 8 (smear 4 (smear 2 (smear 1 (x - 1))))) in
    let (below, ones) = smears-HighOnes n (x - 1) (omega arith, omega (arith, half_le n)) in
    let none_left : n - 32 ≡ 0 = omega arith in
    let last = subst (λ (t : ℕ). 2 ^ n ≤ y + 2 ^ t) none_left ones in omega arith

-- `alignTwoExponent` gives the least power of two that is not below a number from 1 to 2^63.
pub align_two_exponent-least :
    (n x : ℕ) → n < 64 → 0 < x → x ≤ 2 ^ n → 2 ^ n < x + x → align_two_exponent x ≡ 2 ^ n
unfolding align_two_exponent
align_two_exponent-least n x less positive above near =
    let small : 2 ^ n ≤ 2 ^ 63 = pow-le-pow_right (omega arith) {j = 63} (omega arith) in
    let start : sub64 x 1 ≡ x - 1 = omega arith in
    let h32 = smears-HighOnes n (x - 1) (omega arith, omega (arith, half_le n)) in
    rw start (
      wraps n _ less small
        (smear-HighOnes n 32 (smear 16 (smear 8 (smear 4 (smear 2 (smear 1 (x - 1)))))) h32))
