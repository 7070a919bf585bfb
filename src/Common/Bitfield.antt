-- ===== src/Common/Bitfield.antt =====
-- Bit-fields of a word: the `width` bits from bit `low` on, as GCC lays them out on x86-64.
use Prim.Native.Nat.{ℕ, ◌+◌, ◌-◌, ◌*◌, ◌/◌, ◌%◌, ◌^◌, ◌≤◌, ◌<◌}
use mathlib.Core.Path.{◌≡◌, sym, ap, ◌∙◌}
use mathlib.Core.Logic.{◌≢◌, ◌⊎◌, inl, inr, ite, if_pos, if_neg}
use native.Mathlib.Omega.{arith}
use native.Mathlib.Nat.{
  mod-lt, mod-eq_of_lt, div-add-mod', mul-add-mod_self_right, div-div-eq-div-mul, mul-add-div_right,
  div-eq_of_lt,
}
use nite_os_project.Common.Bits.{two-pow-pos, two-pow-add}

unfoldable pub get_field : ℕ → ℕ → ℕ → ℕ
get_field low width word = word / 2 ^ low % 2 ^ width

-- What does not fit the field is cut off.
unfoldable pub set_field : ℕ → ℕ → ℕ → ℕ → ℕ
set_field low width value word =
    word / 2 ^ low / 2 ^ width * 2 ^ (low + width) + value % 2 ^ width * 2 ^ low + word % 2 ^ low

div_of_sum : (q p r : ℕ) → 0 < p → r < p → (q * p + r) / p ≡ q
div_of_sum q p r positive h =
    mul-add-div_right positive q r ∙ ap (λ (t : ℕ). q + t) (div-eq_of_lt h) ∙ drop_zero q
  where
    drop_zero : (n : ℕ) → n + 0 ≡ n
    drop_zero n = omega arith

mod_of_sum : (q p r : ℕ) → r < p → (q * p + r) % p ≡ r
mod_of_sum q p r h = mul-add-mod_self_right q p r ∙ mod-eq_of_lt h

module _ (low width value word : ℕ) where
  -- The word with its field set, as the part from bit `low` on and the part below.
  set_field-split :
      set_field low width value word
      ≡ (word / 2 ^ low / 2 ^ width * 2 ^ width + value % 2 ^ width) * 2 ^ low + word % 2 ^ low
  unfolding set_field
  set_field-split =
      ap (λ (t : ℕ). word / 2 ^ low / 2 ^ width * t + value % 2 ^ width * 2 ^ low + word % 2 ^ low)
        (two-pow-add low width)
      ∙ gather (word / 2 ^ low / 2 ^ width) (2 ^ low) (2 ^ width) (value % 2 ^ width)
          (word % 2 ^ low)
    where
      gather : (q p w v r : ℕ) → q * (p * w) + v * p + r ≡ (q * w + v) * p + r
      gather q p w v r = omega arith

  set_field-div :
      set_field low width value word / 2 ^ low
      ≡ word / 2 ^ low / 2 ^ width * 2 ^ width + value % 2 ^ width
  set_field-div =
      ap (λ (t : ℕ). t / 2 ^ low) set_field-split
      ∙ div_of_sum _ (2 ^ low) (word % 2 ^ low) (two-pow-pos low) (mod-lt word (two-pow-pos low))

  -- The field reads back what was written, cut to its width.
  pub get_field-set_field : get_field low width (set_field low width value word) ≡ value % 2 ^ width
  unfolding get_field
  get_field-set_field =
      ap (λ (t : ℕ). t % 2 ^ width) set_field-div
      ∙ mod_of_sum (word / 2 ^ low / 2 ^ width) (2 ^ width) (value % 2 ^ width)
          (mod-lt value (two-pow-pos width))

  -- The bits below the field are kept, and so are those above.
  pub set_field-mod : set_field low width value word % 2 ^ low ≡ word % 2 ^ low
  set_field-mod =
      ap (λ (t : ℕ). t % 2 ^ low) set_field-split
      ∙ mod_of_sum _ (2 ^ low) (word % 2 ^ low) (mod-lt word (two-pow-pos low))

  pub set_field-above :
      set_field low width value word / 2 ^ low / 2 ^ width ≡ word / 2 ^ low / 2 ^ width
  set_field-above =
      ap (λ (t : ℕ). t / 2 ^ width) set_field-div
      ∙ div_of_sum (word / 2 ^ low / 2 ^ width) (2 ^ width) (value % 2 ^ width) (two-pow-pos width)
          (mod-lt value (two-pow-pos width))

-- Two words with the same bits below `low` have the same field below `low`.
below_lem : (q l w r x : ℕ) → (q * 2 ^ (l + (w + r)) + x) / 2 ^ l % 2 ^ w ≡ x / 2 ^ l % 2 ^ w
below_lem q l w r x =
    let high : q * 2 ^ (l + (w + r)) ≡ q * 2 ^ r * 2 ^ w * 2 ^ l =
      ap (λ (t : ℕ). q * t) (two-pow-add l (w + r) ∙ ap (λ (t : ℕ). 2 ^ l * t) (two-pow-add w r))
      ∙ reorder q (2 ^ l) (2 ^ w) (2 ^ r) in
    ap (λ (t : ℕ). (t + x) / 2 ^ l % 2 ^ w) high
    ∙ ap (λ (t : ℕ). t % 2 ^ w) (mul-add-div_right (two-pow-pos l) (q * 2 ^ r * 2 ^ w) x)
    ∙ mul-add-mod_self_right (q * 2 ^ r) (2 ^ w) (x / 2 ^ l)
  where
    reorder : (q a b c : ℕ) → q * (a * (b * c)) ≡ q * c * b * a
    reorder q a b c = omega arith

field_of_mod : (l w low x : ℕ) → l + w ≤ low → x / 2 ^ l % 2 ^ w ≡ x % 2 ^ low / 2 ^ l % 2 ^ w
field_of_mod l w low x h =
    let exponent : low ≡ l + (w + (low - (l + w))) = omega arith in
    ap (λ (t : ℕ). t / 2 ^ l % 2 ^ w) (sym (div-add-mod' x (2 ^ low)))
    ∙ ap (λ (t : ℕ). (x / 2 ^ low * 2 ^ t + x % 2 ^ low) / 2 ^ l % 2 ^ w) exponent
    ∙ below_lem (x / 2 ^ low) l w (low - (l + w)) (x % 2 ^ low)

get_field-below :
    (l w low x y : ℕ) → l + w ≤ low → x % 2 ^ low ≡ y % 2 ^ low → get_field l w x ≡ get_field l w y
unfolding get_field
get_field-below l w low x y h same =
    field_of_mod l w low x h
    ∙ ap (λ (t : ℕ). t / 2 ^ l % 2 ^ w) same
    ∙ sym (field_of_mod l w low y h)

div_of_sum_power :
    (low width l x : ℕ)
    → low + width ≤ l
    → x / 2 ^ l ≡ x / 2 ^ low / 2 ^ width / 2 ^ (l - (low + width))
div_of_sum_power low width l x h =
    let exponent : l ≡ low + (width + (l - (low + width))) = omega arith in
    ap (λ (t : ℕ). x / 2 ^ t) exponent
    ∙ ap (λ (t : ℕ). x / t) (two-pow-add low (width + (l - (low + width))))
    ∙ sym (div-div-eq-div-mul x (2 ^ low) (2 ^ (width + (l - (low + width)))))
    ∙ ap (λ (t : ℕ). x / 2 ^ low / t) (two-pow-add width (l - (low + width)))
    ∙ sym (div-div-eq-div-mul (x / 2 ^ low) (2 ^ width) (2 ^ (l - (low + width))))

get_field-above :
    (l w low width x y : ℕ)
    → low + width ≤ l
    → x / 2 ^ low / 2 ^ width ≡ y / 2 ^ low / 2 ^ width
    → get_field l w x ≡ get_field l w y
unfolding get_field
get_field-above l w low width x y h same =
    ap (λ (t : ℕ). t % 2 ^ w)
      (div_of_sum_power low width l x h
        ∙ ap (λ (t : ℕ). t / 2 ^ (l - (low + width))) same
        ∙ sym (div_of_sum_power low width l y h))

-- The bit-fields of a struct: where each begins, how wide it is, and that no two overlap.
pub record Layout : Type 1 where
  pub Field : Type 0
  pub discrete : Discrete Field
  pub low : Field → ℕ
  pub width : Field → ℕ
  pub apart : (f g : Field) → f ≢ g → (low f + width f ≤ low g) ⊎ (low g + width g ≤ low f)

module _ (layout : Layout) where
  open layout use {Field, discrete, low, width, apart}

  unfoldable pub read : Field → ℕ → ℕ
  read f word = get_field (low f) (width f) word

  unfoldable pub write : Field → ℕ → ℕ → ℕ
  write f value word = set_field (low f) (width f) value word

  -- A write is read back by its own field, and no other field sees it.
  pub read-write :
      (f g : Field) (value word : ℕ)
      → read g (write f value word) ≡ ite (discrete g f) (value % 2 ^ width f) (read g word)
  unfolding read write
  read-write f g value word = elim (discrete g f) [
    | yes same ↦ rw (if_pos (discrete g f) same) (
        ap (λ (k : Field). get_field (low k) (width k) (set_field (low f) (width f) value word))
          same
        ∙ get_field-set_field (low f) (width f) value word)
    | no differ ↦ rw (if_neg (discrete g f) differ) (elim (apart g f differ) [
      | inl under ↦
          get_field-below (low g) (width g) (low f) _ word under
            (set_field-mod (low f) (width f) value word)
      | inr over ↦
          get_field-above (low g) (width g) (low f) (width f) _ word over
            (set_field-above (low f) (width f) value word)
    ])
  ]
