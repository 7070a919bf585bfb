-- ===== src/MemRange/Search.antt =====
-- `find` gives the first place in the range where the bytes stand.
use nite_os_project.Common.{
  ◌^◌, bit_or, ℕ, zero, suc, ◌+◌, ◌<◌, ◌≤◌, ◌≡◌, ◌≢◌, ◌⊎◌, inl, inr, refl, ap, ◌∙◌, subst, arith,
  Bool, true, false, ◌==◌, ◌&&◌, Bool-cases,
}
use nite_os_project.Common.Bits.{bit_or-lt}
use nite_os_project.Paging.Map.{copy_as_io_address}
use nite_os_project.MemRange.{AddressRange, range_of, find_rsdp, match_loop, find_loop, find}

module _ (memory : ℕ → ℕ) (r : AddressRange) (value : ℕ → ℕ) (size : ℕ) where
  -- The bytes stand at the index `i` of the range; their end may lie behind that of the range.
  abbrev pub Stands : ℕ → Type 0
  Stands i = (j : ℕ) → j < size → memory (r.base + i + j) ≡ value j

  match_loop-Stands :
      (at n j : ℕ)
      → (match_loop memory at value n j ≡ true)
          × ((k : ℕ) → j ≤ k → k < j + n → memory (at + k) ≡ value k)
        ⊎ (match_loop memory at value n j ≡ false)
          × (k : ℕ) × (k < j + n)
          × (memory (at + k) ≢ value k)
  unfolding match_loop
  match_loop-Stands at zero j = inl (refl, λ k p q. absurd (omega arith))
  match_loop-Stands at (suc n) j = elim (Bool-cases (memory (at + j) == value j)) [
    | inr differ ↦ inr (rw differ refl, j, omega arith, ground arith)
    | inl same ↦ elim (match_loop-Stands at n (suc j)) [
      | inr (e, k, b, ne) ↦ inr (rw same e, k, omega arith, ne)
      | inl (e, all) ↦ inl (
        rw same e,
        λ k p q. elim (Bool-cases (k == j)) [
          | inl hit ↦ (let here : k ≡ j = ground arith in rw here (ground arith))
          | inr miss ↦ all k (ground arith) (omega arith)
        ],
      )
    ]
  ]

  -- The test of a round of `find`.
  abbrev tested : ℕ → Bool
  tested i = (memory (r.base + i) == value 0) && match_loop memory (r.base + i) value size 0

  tested-Stands :
      (i : ℕ) → 0 < size → (tested i ≡ true) × Stands i ⊎ (tested i ≡ false) × ¬ Stands i
  tested-Stands i pos = elim (match_loop-Stands (r.base + i) size 0) [
    | inr (e, k, b, ne) ↦ inr (ground arith, λ s. ne (s k (omega arith)))
    | inl (e, all) ↦
        let first : memory (r.base + i) ≡ value 0 =
          ap memory (omega arith) ∙ all 0 (omega arith) (omega arith) in
        inl (ground arith, λ j b. all j (omega arith) (omega arith))
  ]

  -- The result of the loop from `i` on: the first place, or 0.
  abbrev pub First : ℕ → ℕ → ℕ → Type 0
  First i n found =
      ((i ≤ found) × (found < i + n) × Stands found × ((m : ℕ) → i ≤ m → m < found → ¬ Stands m))
      ⊎ ((found ≡ 0) × ((m : ℕ) → i ≤ m → m < i + n → ¬ Stands m))

  not_before :
      (i b : ℕ)
      → ¬ Stands i
      → ((m : ℕ) → suc i ≤ m → m < b → ¬ Stands m)
      → (m : ℕ) → i ≤ m
      → m < b
      → ¬ Stands m
  not_before i b other later m p q = elim (Bool-cases (m == i)) [
    | inl hit ↦ (let here : i ≡ m = ground arith in subst (λ k. ¬ Stands k) here other)
    | inr miss ↦ later m (ground arith) q
  ]

  First-step : (i n found : ℕ) → ¬ Stands i → First (suc i) n found → First i (suc n) found
  First-step i n found other (inl (le, lt, stands, before)) =
      inl (omega arith, omega arith, stands, not_before i found other before)
  First-step i n found other (inr (z, never)) =
      inr (z, λ m p q. not_before i (suc i + n) other never m p (omega arith))

  find_loop-hit : (n i : ℕ) → tested i ≡ true → find_loop memory r value size (suc n) i ≡ i
  unfolding find_loop
  find_loop-hit n i h = rw h refl

  find_loop-miss :
      (n i : ℕ)
      → tested i ≡ false
      → find_loop memory r value size (suc n) i ≡ find_loop memory r value size n (suc i)
  unfolding find_loop
  find_loop-miss n i h = rw h refl

  find_loop-First : (n i : ℕ) → 0 < size → First i n (find_loop memory r value size n i)
  unfolding find_loop
  find_loop-First zero i pos = inr (refl, λ m p q. absurd (omega arith))
  find_loop-First (suc n) i pos = elim (tested-Stands i pos) [
    | inl (hit, stands) ↦
        rw (find_loop-hit n i hit)
          (inl (omega arith, omega arith, stands, λ m p q. absurd (omega arith)))
    | inr (miss, other) ↦
        rw (find_loop-miss n i miss) (First-step i n _ other (find_loop-First n (suc i) pos))
  ]

  -- `find` of at least one byte gives the first index of the range where the bytes stand, or 0 where
  -- they stand at none; the end of the bytes may lie behind that of the range.
  pub find-First : 0 < size → First 0 r.size (find memory r value size)
  unfolding find
  find-First pos = elim (Bool-cases (r.size == 0)) [
    | inl z ↦ rw z (inr (refl, λ m p q. absurd (ground arith)))
    | inr nz ↦ rw nz (find_loop-First r.size 0 pos)
  ]

module _ (memory : ℕ → ℕ) where
  find-le :
      (r : AddressRange) (value : ℕ → ℕ) (size : ℕ) → 0 < size → find memory r value size ≤ r.size
  find-le r value size pos = elim (find-First memory r value size pos) [
    | inl (le, lt, stands, before) ↦ omega arith
    | inr (z, never) ↦ omega arith
  ]

  -- Whatever the memory holds, the address that the constructor of the ACPI device takes is not 0, which
  -- it tests to see whether there is a root pointer.
  pub find_rsdp-ne : (signature : ℕ → ℕ) → find_rsdp memory signature ≢ 0
  unfolding find_rsdp copy_as_io_address
  find_rsdp-ne signature e =
      let a = find memory (range_of 0 0x7C00) signature 8 in
      let b = find memory (range_of 0x80000 0xA0000) signature 8 in
      let c = find memory (range_of 0xE0000 0x100000) signature 8 in
      let la = find-le (range_of 0 0x7C00) signature 8 (omega arith) in
      let lb = find-le (range_of 0x80000 0xA0000) signature 8 (omega arith) in
      let lc = find-le (range_of 0xE0000 0x100000) signature 8 (omega arith) in
      let ab : bit_or a b < 2 ^ 21 = bit_or-lt 21 a b (omega arith) (omega arith) in
      let abc : bit_or (bit_or a b) c < 2 ^ 21 = bit_or-lt 21 (bit_or a b) c ab (omega arith) in
      omega arith
