-- ===== src/Bitmap.antt =====
-- `Std::Bitmap<uint64_t>` of Kernel/inc/stdcxx/bitmap.h. A shift of an `int` beyond its width and an
-- access outside the words have no result.
pub mod Fill
pub mod FindFree
mod Tests
use nite_os_project.Common.{
  ℕ, zero, suc, ◌+◌, ◌-◌, ◌/◌, ◌%◌, ◌^◌, bit_and, bit_or, Bool, true, false, not, ◌&&◌, ltb, leb,
  ◌==◌, if◌then◌else◌, ◌>>=◌, Option, none, some, List, [], ◌∷◌, get_elem?, set,
}
use nite_os_project.Common.Words.{add64, sub64}

pub record Bitmap : Type 0 where
  pub size : ℕ
  pub words : List ℕ

-- `_bits`
abbrev pub bits : ℕ
bits = 64

-- `1 << k` as a `uint64_t`: bit 31 is the sign of an `int`, and spreads.
pub mask : ℕ → Option ℕ
mask k = if ltb k 31 then some (2 ^ k) else if k == 31 then some (2 ^ 64 - 2 ^ 31) else none

-- `~x`
abbrev pub inverted : ℕ → ℕ
inverted x = 2 ^ 64 - 1 - x

abbrev pub ones : ℕ
ones = 2 ^ 64 - 1

set_bit : List ℕ → ℕ → Option (List ℕ)
set_bit words pos = do
  word ← get_elem? words (pos / bits)
  m ← mask (pos % bits)
  some (set words (pos / bits) (bit_or word m))

clear_bit : List ℕ → ℕ → Option (List ℕ)
clear_bit words pos = do
  word ← get_elem? words (pos / bits)
  m ← mask (pos % bits)
  some (set words (pos / bits) (bit_and word (inverted m)))

pub set_at : Bitmap → ℕ → Option Bitmap
set_at b pos = do words ← set_bit b.words pos; some (record b { words = words })

pub clear_at : Bitmap → ℕ → Option Bitmap
clear_at b pos = do words ← clear_bit b.words pos; some (record b { words = words })

pub test : Bitmap → ℕ → Option Bool
test b pos = do
  word ← get_elem? b.words (pos / bits)
  m ← mask (pos % bits)
  some (not (bit_and word m == 0))

-- The assignment of a whole word.
abbrev fill_word : List ℕ → ℕ → ℕ → Option (List ℕ)
fill_word words pos word =
    get_elem? words (pos / bits) >>= λ old. some (set words (pos / bits) word)

-- A round takes a whole word.
abbrev pub whole : ℕ → ℕ → Bool
whole pos amount = pos % bits == 0 && leb bits amount

-- The loop of `setAll`, on fuel; `none` also means that the fuel ran out.
pub set_all : ℕ → List ℕ → ℕ → ℕ → Option (List ℕ)
set_all zero words pos amount = none
set_all (suc fuel) words pos amount =
    let word = fill_word words pos ones >>= λ d. set_all fuel d (add64 pos bits) (amount - bits) in
    let bit = set_bit words pos >>= λ d. set_all fuel d (add64 pos 1) (amount - 1) in
    if amount == 0 then some words else if whole pos amount then word else bit

-- The loop of `clearAll`, on fuel; its second branch leaves the amount as it is.
pub clear_all : ℕ → List ℕ → ℕ → ℕ → Option (List ℕ)
clear_all zero words pos amount = none
clear_all (suc fuel) words pos amount =
    let word = fill_word words pos 0 >>= λ d. clear_all fuel d (add64 pos bits) (amount - bits) in
    let bit = clear_bit words pos >>= λ d. clear_all fuel d (add64 pos 1) amount in
    if amount == 0 then some words else if whole pos amount then word else bit

-- The last test of a round of `findFree`: a run that is long enough is set and its start returned.
pub found_run : Option (ℕ × List ℕ) → List ℕ → ℕ → ℕ → ℕ → Option (ℕ × List ℕ)
found_run rest words amount pos free =
    let start = sub64 pos free in
    let filled = set_all (suc amount) words start amount >>= λ d. some (start, d) in
    if leb amount free then filled else rest

-- The loop of `findFree`, on fuel, with the position and the length of the free run before it; the
-- position returned is 0 where there is no run.
pub find_free : ℕ → List ℕ → ℕ → ℕ → ℕ → ℕ → Option (ℕ × List ℕ)
find_free zero words size amount pos free = none
find_free (suc fuel) words size amount pos free =
    let again = find_free fuel words size amount in
    let full = again (add64 pos bits) 0 in
    let empty =
      found_run (again (add64 pos bits) (add64 free bits)) words amount (add64 pos bits)
        (add64 free bits) in
    let one = λ (run : ℕ). found_run (again (add64 pos 1) run) words amount (add64 pos 1) run in
    let bit = λ (word : ℕ).
      mask (pos % bits) >>= λ m. one (if bit_and word m == 0 then add64 free 1 else 0) in
    if ltb free amount && ltb pos size
    then (get_elem? words (pos / bits) >>= λ word.
        if inverted word == 0 then full else if word == 0 then empty else bit word)
    else some (0, words)

-- `BitmapDouble::at`: the two indices, which mask with the dimensions.
pub double_index : ℕ → ℕ → ℕ → ℕ × ℕ
double_index dimension_l1 dimension_l2 pos =
    let word = pos / bits in
    (bit_and (word % 2 ^ 32) dimension_l1, bit_and (word / dimension_l1 % 2 ^ 32) dimension_l2)
