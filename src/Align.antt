-- ===== src/Align.antt =====
-- Kernel/inc/xtra-math/align.h and div.h, Kernel/inc/stdcxx/math.h and range.h, at `uint64_t`.
pub mod PowerOfTwo
pub mod Power
pub mod Pow
mod Tests
use nite_os_project.Common.{
  ℕ, zero, suc, ◌+◌, ◌-◌, ◌/◌, ◌%◌, ◌^◌, Bool, ◌&&◌, bit_and, bit_or, ltb, leb, ◌==◌, if◌then◌else◌,
  Option, none, some,
}
use nite_os_project.Common.Words.{add64, sub64, mul64}

-- `~x`
abbrev pub complement : ℕ → ℕ
complement x = 2 ^ 64 - 1 - x

pub align_down : ℕ → ℕ → ℕ
align_down addr align = bit_and addr (complement (sub64 align 1))

pub align_up : ℕ → ℕ → ℕ
align_up addr align = bit_and (sub64 (add64 addr align) 1) (complement (sub64 align 1))

-- `x |= x >> k`
unfoldable pub smear : ℕ → ℕ → ℕ
smear k x = bit_or x (x / 2 ^ k)

pub align_two_exponent : ℕ → ℕ
align_two_exponent x =
    add64 (smear 32 (smear 16 (smear 8 (smear 4 (smear 2 (smear 1 (sub64 x 1))))))) 1

-- `a % b != 0` as a number
pub div_ceil : ℕ → ℕ → ℕ
div_ceil a b = a / b + (if a % b == 0 then 0 else 1)

pub div_floor : ℕ → ℕ → ℕ
div_floor a b = a / b

-- The loop of `pow`, on fuel; `none` means that the fuel ran out.
pow_loop : ℕ → ℕ → ℕ → ℕ → Option ℕ
pow_loop zero result base exp = none
pow_loop (suc fuel) result base exp =
    let rest =
      pow_loop fuel (if bit_and exp 1 == 0 then result else mul64 result base) (mul64 base base)
        (exp / 2) in
    if exp == 0 then some result else rest

-- An exponent of 64 bits makes at most 64 rounds.
pub pow : ℕ → ℕ → Option ℕ
pow base exp = pow_loop 65 1 base exp

-- `Range<uint64_t>`
pub record Range : Type 0 where
  pub min : ℕ
  pub max : ℕ

pub constraint_to_range : Range → ℕ → ℕ
constraint_to_range r value =
    if ltb value r.min then r.min else if ltb r.max value then r.max else value

pub is_in_range : Range → ℕ → Bool
is_in_range r value = leb r.min value && leb value r.max
