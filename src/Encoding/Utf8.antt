-- ===== src/Encoding/Utf8.antt =====
-- `Utf8` of Kernel/inc/stdcxx/encoding.h against the encoding of RFC 3629.
use nite_os_project.Common.{
  ℕ, ◌+◌, ◌/◌, ◌%◌, ◌<◌, ◌≡◌, ◌∙◌, arith, bit_and, Bool, false, ltb, ◌==◌, if◌then◌else◌, List, [],
  ◌∷◌, length,
}
use nite_os_project.Common.Bits.{bit_and_high}

pub get_unit_length : ℕ → ℕ
get_unit_length unit =
    if bit_and unit 0x80 == 0
    then 1
    else if bit_and unit 0xE0 == 0xC0
    then 2
    else if bit_and unit 0xF0 == 0xE0
    then 3
    else if bit_and unit 0xF8 == 0xF0
    then 4
    else 0

pub get_rune_length : ℕ → ℕ
get_rune_length rune =
    if ltb rune 0x80
    then 1
    else if ltb rune 0x800
    then 2
    else if ltb rune 0x10000
    then 3
    else if ltb rune 0x110000
    then 4
    else 0

pub encode : Bool
encode = false

pub decode : Bool
decode = false

-- The bytes of a character, as RFC 3629 has them: the first one, and those behind it.
abbrev pub first_byte : ℕ → ℕ
first_byte rune =
    if ltb rune 0x80
    then rune
    else if ltb rune 0x800
    then 0xC0 + rune / 64
    else if ltb rune 0x10000
    then 0xE0 + rune / 4096
    else 0xF0 + rune / 262144

abbrev pub continuation : ℕ → ℕ
continuation digit = 0x80 + digit % 64

abbrev pub other_bytes : ℕ → List ℕ
other_bytes rune =
    if ltb rune 0x80
    then []
    else if ltb rune 0x800
    then continuation rune ∷ []
    else if ltb rune 0x10000
    then continuation (rune / 64) ∷ continuation rune ∷ []
    else continuation (rune / 4096) ∷ continuation (rune / 64) ∷ continuation rune ∷ []

-- The length by the value of the byte.
unit_ranges : ℕ → ℕ
unit_ranges unit =
    if ltb unit 0x80
    then 1
    else if ltb unit 0xC0
    then 0
    else if ltb unit 0xE0
    then 2
    else if ltb unit 0xF0
    then 3
    else if ltb unit 0xF8
    then 4
    else 0

get_unit_length_lem : (unit : ℕ) → unit < 256 → get_unit_length unit ≡ unit_ranges unit
unfolding get_unit_length unit_ranges
get_unit_length_lem unit h = ground (
  arith,
  bit_and_high 7 1 unit,
  bit_and_high 5 3 unit,
  bit_and_high 4 4 unit,
  bit_and_high 3 5 unit,
)

continuation-length : (digit : ℕ) → get_unit_length (continuation digit) ≡ 0
unfolding unit_ranges
continuation-length digit = get_unit_length_lem (continuation digit) (omega arith) ∙ ground arith

-- Each byte starts no character.
abbrev pub Continue : List ℕ → Type 0
Continue [] = Unit
Continue (b ∷ bs) = (get_unit_length b ≡ 0) × Continue bs

first_byte-range :
    (rune : ℕ)
    → rune < 0x110000
    → (first_byte rune < 256) × (unit_ranges (first_byte rune) ≡ get_rune_length rune)
unfolding unit_ranges get_rune_length
first_byte-range rune h = ground arith

other_bytes-length :
    (rune : ℕ) → rune < 0x110000 → get_rune_length rune ≡ 1 + length (other_bytes rune)
unfolding get_rune_length
other_bytes-length rune h = ground arith

other_bytes-Continue : (rune : ℕ) → Continue (other_bytes rune)
other_bytes-Continue rune = ground (
  arith,
  continuation-length rune,
  continuation-length (rune / 64),
  continuation-length (rune / 4096),
)

-- For a character below `0x110000`, `getRuneLength` is the number of bytes that RFC 3629 gives it,
-- `getUnitLength` of its first byte is the same number, and that of each other byte is 0.
pub get_unit_length-first_byte :
    (rune : ℕ)
    → rune < 0x110000
    → (get_rune_length rune ≡ 1 + length (other_bytes rune))
      × (get_unit_length (first_byte rune) ≡ get_rune_length rune)
      × Continue (other_bytes rune)
get_unit_length-first_byte rune h =
    let (small, range) = first_byte-range rune h in
    (
      other_bytes-length rune h,
      get_unit_length_lem (first_byte rune) small ∙ range,
      other_bytes-Continue rune,
    )
