-- ===== src/Align/Pow.antt =====
-- `pow` against the power that it stands for, and `Range`.
use nite_os_project.Common.{
  ℕ, zero, suc, ◌+◌, ◌*◌, ◌/◌, ◌%◌, ◌^◌, ◌≤◌, ◌<◌, ◌≡◌, sym, ap, ◌∙◌, arith, bit_and, some, true,
  false, ◌≢◌, ◌==◌,
}
use nite_os_project.Common.Bits.{bit_and_ones}
use nite_os_project.Align.{pow_loop, pow, Range, constraint_to_range, is_in_range}
use native.Mathlib.Decide.{ℕ_discrete}
use native.Mathlib.Nat.{
  pow-zero, pow-suc, mod-eq_of_lt, mod-lt, mul_comm, div-add-mod', mul-add-mod_self_right,
}

rearrange : (q m r b : ℕ) → (q * m + r) * b ≡ q * b * m + r * b
rearrange q m r b = omega arith

mul-mod_left : (a b m : ℕ) → a % m * b % m ≡ a * b % m
mul-mod_left a b m =
    let split : a * b ≡ a / m * b * m + a % m * b =
      ap (λ (t : ℕ). t * b) (sym (div-add-mod' a m)) ∙ expand in
    sym (ap (λ (t : ℕ). t % m) split ∙ mul-add-mod_self_right (a / m * b) m (a % m * b))
  where
    expand : (a / m * m + a % m) * b ≡ a / m * b * m + a % m * b
    expand = rearrange (a / m) m (a % m) b

mul-mod_right : (a b m : ℕ) → a * (b % m) % m ≡ a * b % m
mul-mod_right a b m =
    ap (λ (t : ℕ). t % m) (mul_comm a (b % m))
    ∙ mul-mod_left b a m
    ∙ ap (λ (t : ℕ). t % m) (mul_comm b a)

pow-mod : (b m k : ℕ) → (b % m) ^ k % m ≡ b ^ k % m
pow-mod b m zero = rw (pow-zero (b % m), pow-zero b)
pow-mod b m (suc k) =
    rw (pow-suc (b % m) k, pow-suc b k)
      (mul-mod_right ((b % m) ^ k) b m
        ∙ sym (mul-mod_left ((b % m) ^ k) b m)
        ∙ ap (λ (t : ℕ). t * b % m) (pow-mod b m k)
        ∙ mul-mod_left (b ^ k) b m)

square-pow : (b k : ℕ) → (b * b) ^ k ≡ b ^ (k * 2)
square-pow b zero =
    let none_left : 0 * 2 ≡ 0 = omega arith in rw (none_left, pow-zero b, pow-zero (b * b))
square-pow b (suc k) =
    let double : suc k * 2 ≡ suc (suc (k * 2)) = omega arith in
    rw (double, pow-suc (b * b) k, pow-suc b (suc (k * 2)), pow-suc b (k * 2), square-pow b k)
      (regroup (b ^ (k * 2)) b)
  where
    regroup : (p b : ℕ) → p * (b * b) ≡ p * b * b
    regroup p b = omega arith

-- One round of the loop keeps `result * base ^ exp` modulo `m`.
round_even : (r b e m : ℕ) → e % 2 ≡ 0 → r * ((b * b) % m) ^ (e / 2) % m ≡ r * b ^ e % m
round_even r b e m even =
    let halves : e / 2 * 2 ≡ e = omega arith in
    sym (mul-mod_right r (((b * b) % m) ^ (e / 2)) m)
    ∙ ap (λ (t : ℕ). r * t % m)
        (pow-mod (b * b) m (e / 2) ∙ ap (λ (t : ℕ). t % m) (square-pow b (e / 2)))
    ∙ mul-mod_right r (b ^ (e / 2 * 2)) m
    ∙ ap (λ (t : ℕ). r * b ^ t % m) halves

round_odd : (r b e m : ℕ) → e % 2 ≡ 1 → (r * b % m) * ((b * b) % m) ^ (e / 2) % m ≡ r * b ^ e % m
round_odd r b e m odd =
    let halves : suc (e / 2 * 2) ≡ e = omega arith in
    mul-mod_left (r * b) (((b * b) % m) ^ (e / 2)) m
    ∙ sym (mul-mod_right (r * b) (((b * b) % m) ^ (e / 2)) m)
    ∙ ap (λ (t : ℕ). r * b * t % m)
        (pow-mod (b * b) m (e / 2) ∙ ap (λ (t : ℕ). t % m) (square-pow b (e / 2)))
    ∙ mul-mod_right (r * b) (b ^ (e / 2 * 2)) m
    ∙ ap (λ (t : ℕ). t % m) (gather r b (b ^ (e / 2 * 2)))
    ∙ ap (λ (t : ℕ). r * t % m) (sym (pow-suc b (e / 2 * 2)))
    ∙ ap (λ (t : ℕ). r * b ^ t % m) halves
  where
    gather : (r b p : ℕ) → r * b * p ≡ r * (p * b)
    gather r b p = omega arith

times_one : (r : ℕ) → r * 1 ≡ r
times_one r = omega arith

unit_power : (r b e : ℕ) → e ≡ 0 → r < 2 ^ 64 → r ≡ r * b ^ e % 2 ^ 64
unit_power r b e h small = sym (
    ap (λ (t : ℕ). r * b ^ t % 2 ^ 64) h
    ∙ ap (λ (t : ℕ). r * t % 2 ^ 64) (pow-zero b)
    ∙ ap (λ (t : ℕ). t % 2 ^ 64) (times_one r)
    ∙ mod-eq_of_lt small)

one_times : (r : ℕ) → 1 * r ≡ r
one_times r = omega arith

pow_loop_stop : (fuel r b e : ℕ) → e ≡ 0 → pow_loop (suc fuel) r b e ≡ some r
unfolding pow_loop
pow_loop_stop fuel r b e h = ground arith

pow_loop_even :
    (fuel r b e : ℕ)
    → e ≢ 0
    → bit_and e 1 ≡ 0
    → pow_loop (suc fuel) r b e ≡ pow_loop fuel r (b * b % 2 ^ 64) (e / 2)
unfolding pow_loop
pow_loop_even zero r b e h low = ground arith
pow_loop_even (suc fuel) r b e h low = rw (ne_zero, low)
  where
    ne_zero : (e == 0) ≡ false
    ne_zero = ground arith

pow_loop_odd :
    (fuel r b e : ℕ)
    → e ≢ 0
    → bit_and e 1 ≡ 1
    → pow_loop (suc fuel) r b e ≡ pow_loop fuel (r * b % 2 ^ 64) (b * b % 2 ^ 64) (e / 2)
unfolding pow_loop
pow_loop_odd zero r b e h low = ground arith
pow_loop_odd (suc fuel) r b e h low = rw (ne_zero, low)
  where
    ne_zero : (e == 0) ≡ false
    ne_zero = ground arith

pow_loop_lem :
    (fuel result base exp : ℕ)
    → exp < 2 ^ fuel
    → result < 2 ^ 64
    → pow_loop (suc fuel) result base exp ≡ some (result * base ^ exp % 2 ^ 64)
pow_loop_lem zero result base exp enough small =
    let none_left : exp ≡ 0 = omega arith in
    pow_loop_stop zero result base exp none_left
    ∙ ap some (unit_power result base exp none_left small)
pow_loop_lem (suc fuel) result base exp enough small = elim (ℕ_discrete exp 0) [
  | yes none_left ↦
      pow_loop_stop (suc fuel) result base exp none_left
      ∙ ap some (unit_power result base exp none_left small)
  | no more ↦ elim (ℕ_discrete (exp % 2) 0) [
    | yes even ↦
        pow_loop_even (suc fuel) result base exp more (bit_and_ones 1 exp ∙ even)
        ∙ pow_loop_lem fuel result (base * base % 2 ^ 64) (exp / 2) (omega (arith, pow-suc 2 fuel))
            small
        ∙ ap some (round_even result base exp (2 ^ 64) even)
    | no odd ↦
        let one : exp % 2 ≡ 1 = omega arith in
        pow_loop_odd (suc fuel) result base exp more (bit_and_ones 1 exp ∙ one)
        ∙ pow_loop_lem fuel (result * base % 2 ^ 64) (base * base % 2 ^ 64) (exp / 2)
            (omega (arith, pow-suc 2 fuel)) (mod-lt (result * base) (omega arith))
        ∙ ap some (round_odd result base exp (2 ^ 64) one)
  ]
]

-- The loop of `pow` ends for every exponent of 64 bits, with the power modulo 2^64.
pub pow_lem : (base exp : ℕ) → exp < 2 ^ 64 → pow base exp ≡ some (base ^ exp % 2 ^ 64)
unfolding pow
pow_lem base exp h =
    pow_loop_lem 64 1 base exp h (omega arith)
    ∙ ap (λ (t : ℕ). some (t % 2 ^ 64)) (one_times (base ^ exp))

-- `constraintToRange` of a range that is not empty lies in it, and changes only what did not.
pub constraint_to_range_lem :
    (r : Range) (value : ℕ)
    → r.min ≤ r.max
    → (is_in_range r (constraint_to_range r value) ≡ true)
      × (is_in_range r value ≡ true → constraint_to_range r value ≡ value)
unfolding is_in_range constraint_to_range
constraint_to_range_lem r value h = ground arith
