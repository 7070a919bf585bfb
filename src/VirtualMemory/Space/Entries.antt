-- ===== src/VirtualMemory/Space/Entries.antt =====
-- The entries that the constructor of `KernelAddressSpace` leaves.
use nite_os_project.Common.{
  ℕ, zero, suc, ◌+◌, ◌-◌, ◌*◌, ◌/◌, ◌%◌, ◌^◌, ◌<◌, ◌≤◌, ◌≡◌, inl, inr, refl, sym, ap, ◌∙◌, subst,
  arith, bit_and, true, not, ◌==◌, Bool-cases, update, update-hit, update-miss,
}
use nite_os_project.Common.Bits.{bit_and_ones, bit_and-zero, bit_or_none}
use nite_os_project.Common.Blocks.{bit_and_cut}
use nite_os_project.VirtualMemory.{is_present, set_page_frame}
use nite_os_project.VirtualMemory.Frames.{set_page_frame_lem}
use nite_os_project.VirtualMemory.Heap.{is_huge}
use nite_os_project.VirtualMemory.Space.{fill}

fill-below :
    (left : ℕ) (f : ℕ → ℕ → ℕ) (table : ℕ → ℕ) (i : ℕ)
    → left ≤ 512
    → i < 512 - left
    → fill left f table i ≡ table i
unfolding fill
fill-below zero f table i h b = refl
fill-below (suc left) f table i h b =
    fill-below left f (update table (511 - left) (f (511 - left) (table (511 - left)))) i
      (omega arith) (omega arith)
    ∙ update-miss table (511 - left) (f (511 - left) (table (511 - left))) i (ground arith)

pub fill_lem :
    (left : ℕ) (f : ℕ → ℕ → ℕ) (table : ℕ → ℕ) (i : ℕ)
    → left ≤ 512
    → 512 - left ≤ i
    → i < 512
    → fill left f table i ≡ f i (table i)
unfolding fill
fill_lem zero f table i h a b = absurd (omega arith)
fill_lem (suc left) f table i h a b =
    let k = 511 - left in
    let new = f k (table k) in
    elim (Bool-cases (i == k)) [
      | inl first ↦
          let e : k ≡ i = ground arith in
          fill-below left f (update table k new) i (omega arith) (ground arith)
          ∙ subst (λ (q : ℕ). update table k new q ≡ f q (table q)) e (update-hit table k new)
      | inr later ↦
          fill_lem left f (update table k new) i (omega arith) (ground arith) b
          ∙ ap (f i) (update-miss table k new i (ground arith))
    ]

-- `SetPageFrame` of an entry that is 0, with an address of 48 bits and a flag of 12 bits.
pub fresh_frame :
    (addr flags : ℕ)
    → addr % 4096 ≡ 0
    → addr < 2 ^ 48
    → flags < 4096
    → set_page_frame 0 addr flags ≡ addr + flags
fresh_frame addr flags h b f = set_page_frame_lem 0 addr flags f ∙ omega (arith, bit_or_none flags)

pub is_present_flags :
    (addr : ℕ) → addr % 4096 ≡ 0 → (flags : ℕ) → flags % 2 ≡ 1 → is_present (addr + flags) ≡ true
is_present_flags addr h flags odd =
    let one : bit_and (addr + flags) 1 ≡ 1 = omega (arith, bit_and_ones 1 (addr + flags)) in
    rw one refl

-- The bit 7 of an entry whose flags have 8 bits.
pub is_huge_flags :
    (addr flags : ℕ) → addr % 4096 ≡ 0 → flags < 256 → is_huge (addr + flags) ≡ is_huge flags
is_huge_flags addr flags h b =
    let parts : addr / 256 * 2 ^ 8 + flags ≡ addr + flags = omega arith in
    let low : bit_and (addr + flags) 0x80 ≡ bit_and flags 0x80 =
      ap (λ (e : ℕ). bit_and e 0x80) (sym parts)
      ∙ bit_and_cut 8 (addr / 256) flags 0 0x80 b (omega arith)
      ∙ omega (arith, bit_and-zero (addr / 256)) in
    ap (λ (e : ℕ). not (e == 0)) low

pub fill-beyond :
    (left : ℕ) (f : ℕ → ℕ → ℕ) (table : ℕ → ℕ) (i : ℕ) → 512 ≤ i → fill left f table i ≡ table i
unfolding fill
fill-beyond zero f table i h = refl
fill-beyond (suc left) f table i h =
    let k = 511 - left in
    let new = f k (table k) in
    fill-beyond left f (update table k new) i h ∙ update-miss table k new i (omega arith)
