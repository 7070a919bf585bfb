-- ===== src/Ahci/Slot.antt =====
-- `findSlot` finds the first command slot that is free.
use nite_os_project.Common.{
  ℕ, zero, suc, ◌+◌, ◌*◌, ◌/◌, ◌%◌, ◌^◌, ◌<◌, ◌≡◌, ◌⊎◌, inl, inr, refl, sym, ap, ◌∙◌, arith,
  bit_and, bit_or, ◌==◌, Bool-cases, none, some,
}
use nite_os_project.Common.Bits.{bit_and_ones}
use nite_os_project.Ahci.{slot_loop, find_slot}
use native.Mathlib.Nat.{pow-suc, div-div-eq-div-mul}

-- The bit `k` of a word.
abbrev pub bit : ℕ → ℕ → ℕ
bit word k = word / 2 ^ k % 2

bit-suc : (word k : ℕ) → bit word (suc k) ≡ bit (word / 2) k
bit-suc word k =
    let twice : 2 ^ suc k ≡ 2 * 2 ^ k = omega (arith, pow-suc 2 k) in
    ap (λ (d : ℕ). word / d % 2) twice
    ∙ ap (λ (d : ℕ). d % 2) (sym (div-div-eq-div-mul word 2 (2 ^ k)))

-- The first `n` bits are ones.
abbrev pub Taken : ℕ → ℕ → Type 0
Taken word n = (k : ℕ) → k < n → bit word k ≡ 1

Taken-suc : (word n : ℕ) → bit word 0 ≡ 1 → Taken (word / 2) n → Taken word (suc n)
Taken-suc word n low high zero p = low
Taken-suc word n low high (suc k) p = bit-suc word k ∙ high k (omega arith)

slot_loop-first :
    (n i slots : ℕ)
    → ((k : ℕ) × (slot_loop n i slots ≡ some (i + k)) × (k < n) × (bit slots k ≡ 0) × Taken slots k)
      ⊎ ((slot_loop n i slots ≡ none) × Taken slots n)
unfolding slot_loop
slot_loop-first zero i slots = inr (refl, λ k p. absurd (omega arith))
slot_loop-first (suc n) i slots = elim (Bool-cases (bit_and slots 1 == 0)) [
  | inl free ↦
      let zero_bit : bit slots 0 ≡ 0 = ground (arith, bit_and_ones 1 slots) in
      inl (0, rw free (ap some (omega arith)), omega arith, zero_bit, λ k p. absurd (omega arith))
  | inr used ↦
      let one_bit : bit slots 0 ≡ 1 = ground (arith, bit_and_ones 1 slots) in
      elim (slot_loop-first n (suc i) (slots / 2)) [
        | inl (k, e, b, z, taken) ↦ inl (
          suc k,
          rw used (e ∙ ap some (omega arith)),
          omega arith,
          bit-suc slots k ∙ z,
          Taken-suc slots k one_bit taken,
        )
        | inr (e, taken) ↦ inr (rw used e, Taken-suc slots n one_bit taken)
      ]
]

-- `findSlot` gives the first of the 32 slots whose bit is clear in both registers together, or -1
-- where all 32 bits are set.
pub find_slot-first :
    (sact ci : ℕ)
    → ((k : ℕ) × (find_slot sact ci ≡ some k)
        × (k < 32)
        × (bit (bit_or sact ci) k ≡ 0)
        × Taken (bit_or sact ci) k)
      ⊎ ((find_slot sact ci ≡ none) × Taken (bit_or sact ci) 32)
unfolding find_slot
find_slot-first sact ci = elim (slot_loop-first 32 0 (bit_or sact ci)) [
  | inl (k, e, b, z, taken) ↦ inl (k, e ∙ ap some (omega arith), b, z, taken)
  | inr full ↦ inr full
]
