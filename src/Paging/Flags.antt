-- ===== src/Paging/Flags.antt =====
-- The setters of `MapLevel<L>::Entry` against `setFlags` and `clearFlags` with the masks of `VmmFlags`
-- of Kernel/inc/arch-x86_64/hwmem.h.
use nite_os_project.Common.{
  ℕ, zero, suc, ◌+◌, ◌-◌, ◌*◌, ◌/◌, ◌%◌, ◌^◌, ◌<◌, ◌≡◌, sym, ap, ◌∙◌, arith, Bool, true, false,
  bit_and, bit_or, none, some, if◌then◌else◌,
}
use mathlib.Core.Path.{ap₂}
use native.Mathlib.Nat.{div-lt_iff_lt-mul, mod-lt, mod-eq_of_lt, div-add-mod'}
use nite_os_project.Common.Bits.{
  two-pow-pos, two-pow-add, bit_and-halves, bit_or-halves, bit_and_ones, bit_or-zero,
}
use nite_os_project.Common.Blocks.{bit_and_cut, bit_or_cut}
use nite_os_project.Common.Bitfield.{set_field, write}
use nite_os_project.Paging.Entry.{
  VmmFlags, flag_present, flag_writable, flag_user, flag_write_through, flag_disable_cache,
  flag_accessed, flag_dirty, flag_attribute, flag_page_size, flag_global, flag_disable_execute,
  Setter, set_present, set_writable, set_user, set_write_through, set_cache_disabled, set_accessed,
  set_dirty, set_page_size, set_attribute, set_global, set_disable_execute, allowed, set, set_flags,
  clear_flags, mask_of,
}

low_bit_set : (q : ℕ) → bit_or q 1 ≡ q / 2 * 2 + 1
low_bit_set q = omega (arith, bit_or-halves q 1, bit_or-zero (q / 2))

low_bit_cleared : (m q : ℕ) → q < 2 ^ m * 2 → bit_and q ((2 ^ m - 1) * 2) ≡ q / 2 * 2
low_bit_cleared m q h =
    let ones : (2 ^ m - 1) * 2 / 2 ≡ 2 ^ m - 1 = omega arith in
    let even : (2 ^ m - 1) * 2 % 2 ≡ 0 = omega arith in
    let parts = bit_and-halves q ((2 ^ m - 1) * 2) in
    let halves = rw (ones, even) at parts in
    let kept : q / 2 % 2 ^ m ≡ q / 2 = mod-eq_of_lt (omega arith) in
    omega (arith, halves, bit_and_ones m (q / 2), kept)

mask_parts : (a p w : ℕ) → 0 < a → 0 < p → w ≡ a * 2 * p → w - 1 - p ≡ (a - 1) * 2 * p + (p - 1)
mask_parts (suc b) p w positive some_bits h =
    let less : suc b - 1 ≡ b = omega arith in rw less (omega (arith, h))
mask_parts zero p w positive some_bits h = absurd (omega arith)

-- A field of one bit that is set, as the parts above and below it.
set_field_parts :
    (k v word : ℕ)
    → v < 2
    → set_field k 1 v word ≡ (word / 2 ^ k / 2 * 2 + v) * 2 ^ k + word % 2 ^ k
unfolding set_field
set_field_parts k v word small =
    let cut : v % 2 ≡ v = omega arith in
    ap (λ (t : ℕ). word / 2 ^ k / 2 * t + v % 2 * 2 ^ k + word % 2 ^ k) (two-pow-add k 1)
    ∙ ap (λ (t : ℕ). word / 2 ^ k / 2 * (2 ^ k * 2) + t * 2 ^ k + word % 2 ^ k) cut
    ∙ gather (word / 2 ^ k / 2) (2 ^ k) (word % 2 ^ k)
  where
    gather : (h p r : ℕ) → h * (p * 2) + v * p + r ≡ (h * 2 + v) * p + r
    gather h p r = omega arith

set_field-set_flags : (k word : ℕ) → set_field k 1 1 word ≡ bit_or word (2 ^ k)
set_field-set_flags k word =
    let q = word / 2 ^ k in
    let r = word % 2 ^ k in
    let below : r < 2 ^ k = mod-lt word (two-pow-pos k) in
    let unit : 2 ^ k ≡ 1 * 2 ^ k + 0 = omega arith in
    set_field_parts k 1 word (omega arith)
    ∙ sym (
        ap₂ bit_or (sym (div-add-mod' word (2 ^ k))) unit
        ∙ bit_or_cut k q r 1 0 below (two-pow-pos k)
        ∙ ap₂ (λ h l. h * 2 ^ k + l) (low_bit_set q) (bit_or-zero r))

set_field-clear_flags :
    (k word : ℕ) → k < 64 → word < 2 ^ 64 → set_field k 1 0 word ≡ bit_and word (2 ^ 64 - 1 - 2 ^ k)
set_field-clear_flags k word inside small =
    let q = word / 2 ^ k in
    let r = word % 2 ^ k in
    let m = 63 - k in
    let below : r < 2 ^ k = mod-lt word (two-pow-pos k) in
    let exponent : 64 ≡ m + 1 + k = omega arith in
    let product : 2 ^ 64 ≡ 2 ^ m * 2 * 2 ^ k =
      ap (λ (t : ℕ). 2 ^ t) exponent
      ∙ two-pow-add (m + 1) k
      ∙ ap (λ (t : ℕ). t * 2 ^ k) (two-pow-add m 1) in
    let high : q < 2 ^ m * 2 = (div-lt_iff_lt-mul (two-pow-pos k)).1 (omega (arith, product)) in
    let mask : 2 ^ 64 - 1 - 2 ^ k ≡ (2 ^ m - 1) * 2 * 2 ^ k + (2 ^ k - 1) =
      mask_parts (2 ^ m) (2 ^ k) (2 ^ 64) (two-pow-pos m) (two-pow-pos k) product in
    set_field_parts k 0 word (omega arith)
    ∙ sym (
        ap₂ bit_and (sym (div-add-mod' word (2 ^ k))) mask
        ∙ bit_and_cut k q r ((2 ^ m - 1) * 2) (2 ^ k - 1) below (omega (arith, two-pow-pos k))
        ∙ ap₂ (λ h l. h * 2 ^ k + l) (low_bit_cleared m q high ∙ omega arith)
            (bit_and_ones k r ∙ mod-eq_of_lt below))

-- The setter of the bit that a flag of `VmmFlags` names.
unfoldable pub setter_for : VmmFlags → Bool → Setter
setter_for flag_present v = set_present v
setter_for flag_writable v = set_writable v
setter_for flag_user v = set_user v
setter_for flag_write_through v = set_write_through v
setter_for flag_disable_cache v = set_cache_disabled v
setter_for flag_accessed v = set_accessed v
setter_for flag_dirty v = set_dirty v
setter_for flag_attribute v = set_attribute v
setter_for flag_page_size v = set_page_size v
setter_for flag_global v = set_global v
setter_for flag_disable_execute v = set_disable_execute v

chosen : {x y : ℕ} (b : Bool) → b ≡ true → x ≡ y → (if b then some x else none) ≡ some y
chosen true h e = ap some e
chosen false h e = absurd (ground (arith, h))

-- At every level where the setter of a bit compiles, with true it changes a word of 64 bits as
-- `setFlags` with the mask of the flag that names this bit, and with false as `clearFlags`.
pub set-mask_of :
    (level : ℕ) (f : VmmFlags) (flags : ℕ)
    → flags < 2 ^ 64
    → allowed level (setter_for f true) ≡ true
    → (set level (setter_for f true) flags ≡ some (set_flags (mask_of f) flags))
      × (set level (setter_for f false) flags ≡ some (clear_flags (mask_of f) flags))
unfolding set write set_flags clear_flags mask_of setter_for allowed
set-mask_of level flag_present flags small h = (
  chosen _ h (set_field-set_flags 0 flags),
  chosen _ h (set_field-clear_flags 0 flags (omega arith) small),
)
set-mask_of level flag_writable flags small h = (
  chosen _ h (set_field-set_flags 1 flags),
  chosen _ h (set_field-clear_flags 1 flags (omega arith) small),
)
set-mask_of level flag_user flags small h = (
  chosen _ h (set_field-set_flags 2 flags),
  chosen _ h (set_field-clear_flags 2 flags (omega arith) small),
)
set-mask_of level flag_write_through flags small h = (
  chosen _ h (set_field-set_flags 3 flags),
  chosen _ h (set_field-clear_flags 3 flags (omega arith) small),
)
set-mask_of level flag_disable_cache flags small h = (
  chosen _ h (set_field-set_flags 4 flags),
  chosen _ h (set_field-clear_flags 4 flags (omega arith) small),
)
set-mask_of level flag_accessed flags small h = (
  chosen _ h (set_field-set_flags 5 flags),
  chosen _ h (set_field-clear_flags 5 flags (omega arith) small),
)
set-mask_of level flag_dirty flags small h = (
  chosen _ h (set_field-set_flags 6 flags),
  chosen _ h (set_field-clear_flags 6 flags (omega arith) small),
)
set-mask_of level flag_attribute flags small h = (
  chosen _ h (set_field-set_flags 7 flags),
  chosen _ h (set_field-clear_flags 7 flags (omega arith) small),
)
set-mask_of level flag_page_size flags small h = (
  chosen _ h (set_field-set_flags 7 flags),
  chosen _ h (set_field-clear_flags 7 flags (omega arith) small),
)
set-mask_of level flag_global flags small h = (
  chosen _ h (set_field-set_flags 8 flags),
  chosen _ h (set_field-clear_flags 8 flags (omega arith) small),
)
set-mask_of level flag_disable_execute flags small h = (
  chosen _ h (set_field-set_flags 63 flags),
  chosen _ h (set_field-clear_flags 63 flags (omega arith) small),
)
