-- ===== src/Common/Blocks.antt =====
-- `bit_and` and `bit_or` on numbers cut at a bit: each part by itself.
use Prim.Native.Nat.{ℕ, zero, suc, ◌+◌, ◌*◌, ◌/◌, ◌^◌, ◌<◌, bit_and, bit_or}
use mathlib.Core.Path.{◌≡◌}
use native.Mathlib.Omega.{arith}
use native.Mathlib.Nat.{pow-suc}
use nite_os_project.Common.Bits.{bit_and-halves, bit_or-halves, bit_and-zero, bit_or-zero}

doubled : (x k : ℕ) → x * 2 ^ suc k ≡ x * 2 ^ k * 2
doubled x k = rw (pow-suc 2 k) (omega arith)

pub bit_and_cut :
    (s h l k j : ℕ)
    → l < 2 ^ s
    → j < 2 ^ s
    → bit_and (h * 2 ^ s + l) (k * 2 ^ s + j) ≡ bit_and h k * 2 ^ s + bit_and l j
bit_and_cut zero h l k j p q =
    let no_l : l ≡ 0 = omega arith in
    let no_j : j ≡ 0 = omega arith in
    let left : h * 1 + 0 ≡ h = omega arith in
    let right : k * 1 + 0 ≡ k = omega arith in
    rw (no_l, no_j, left, right, bit_and-zero 0) (omega arith)
bit_and_cut (suc s) h l k j p q =
    let a : (h * 2 ^ s * 2 + l) / 2 ≡ h * 2 ^ s + l / 2 = omega arith in
    let b : (k * 2 ^ s * 2 + j) / 2 ≡ k * 2 ^ s + j / 2 = omega arith in
    let inner =
      bit_and_cut s h (l / 2) k (j / 2) (omega (arith, pow-suc 2 s)) (omega (arith, pow-suc 2 s)) in
    let halves = bit_and-halves (h * 2 ^ s * 2 + l) (k * 2 ^ s * 2 + j) in
    rw (doubled h s, doubled k s, doubled (bit_and h k) s)
      (omega (arith, rw (a, b) at halves, bit_and-halves l j, inner))

pub bit_or_cut :
    (s h l k j : ℕ)
    → l < 2 ^ s
    → j < 2 ^ s
    → bit_or (h * 2 ^ s + l) (k * 2 ^ s + j) ≡ bit_or h k * 2 ^ s + bit_or l j
bit_or_cut zero h l k j p q =
    let no_l : l ≡ 0 = omega arith in
    let no_j : j ≡ 0 = omega arith in
    let left : h * 1 + 0 ≡ h = omega arith in
    let right : k * 1 + 0 ≡ k = omega arith in
    rw (no_l, no_j, left, right, bit_or-zero 0) (omega arith)
bit_or_cut (suc s) h l k j p q =
    let a : (h * 2 ^ s * 2 + l) / 2 ≡ h * 2 ^ s + l / 2 = omega arith in
    let b : (k * 2 ^ s * 2 + j) / 2 ≡ k * 2 ^ s + j / 2 = omega arith in
    let inner =
      bit_or_cut s h (l / 2) k (j / 2) (omega (arith, pow-suc 2 s)) (omega (arith, pow-suc 2 s)) in
    let halves = bit_or-halves (h * 2 ^ s * 2 + l) (k * 2 ^ s * 2 + j) in
    rw (doubled h s, doubled k s, doubled (bit_or h k) s)
      (omega (arith, rw (a, b) at halves, bit_or-halves l j, inner))
