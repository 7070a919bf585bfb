-- ===== src/Encoding/Utf16.antt =====
-- `Utf16` of Kernel/inc/stdcxx/encoding.h against the surrogate pairs of Unicode.
use nite_os_project.Common.{
  ℕ, ◌+◌, ◌-◌, ◌/◌, ◌%◌, ◌<◌, ◌≤◌, ◌≡◌, arith, bit_and, Bool, false, ltb, ◌==◌, if◌then◌else◌, List,
  [], ◌∷◌, length, ◌⊎◌,
}
use nite_os_project.Common.Bits.{bit_and_high}

pub get_unit_length : ℕ → ℕ
get_unit_length unit = if bit_and unit 0xFC00 == 0xD800 then 2 else 1

pub get_rune_length : ℕ → ℕ
get_rune_length rune = if ltb rune 0x10000 then 1 else if ltb rune 0x110000 then 2 else 0

pub encode : Bool
encode = false

pub decode : Bool
decode = false

-- The first unit of a character, and the second one of those from `0x10000` on.
abbrev pub first_unit : ℕ → ℕ
first_unit rune = if ltb rune 0x10000 then rune else 0xD800 + (rune - 0x10000) / 1024

abbrev pub other_units : ℕ → List ℕ
other_units rune = if ltb rune 0x10000 then [] else (0xDC00 + (rune - 0x10000) % 1024) ∷ []

first_unit_lem :
    (rune : ℕ)
    → rune < 0x110000
    → (rune < 0xD800) ⊎ (0xE000 ≤ rune)
    → get_unit_length (first_unit rune) ≡ get_rune_length rune
unfolding get_unit_length get_rune_length
first_unit_lem rune h s = ground (arith, bit_and_high 10 6 (first_unit rune))

-- For a character below `0x110000` that is no surrogate, `getRuneLength` is the number of units that
-- UTF-16 gives it, and `getUnitLength` of its first unit is the same number.
pub get_unit_length-first_unit :
    (rune : ℕ)
    → rune < 0x110000
    → (rune < 0xD800) ⊎ (0xE000 ≤ rune)
    → (get_rune_length rune ≡ 1 + length (other_units rune))
      × (get_unit_length (first_unit rune) ≡ get_rune_length rune)
unfolding get_rune_length
get_unit_length-first_unit rune h s = (ground arith, first_unit_lem rune h s)
