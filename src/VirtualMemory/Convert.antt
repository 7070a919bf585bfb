-- ===== src/VirtualMemory/Convert.antt =====
-- The conversion of virtual addresses of the kernel, of its image and of pages that were mapped.
use nite_os_project.Common.{
  ℕ, ◌+◌, ◌-◌, ◌/◌, ◌%◌, ◌^◌, ◌<◌, ◌≤◌, ◌≡◌, ◌≢◌, inl, inr, refl, sym, arith, true, ◌==◌,
  Bool-cases, update-others,
}
use nite_os_project.Common.Bits.{bit_and_ones}
use nite_os_project.VirtualMemory.{
  Tables, kernel_virtual_base, pml4_index, pdpt_index, pdir_index, page_index, convert_kernel,
  convert_virt_to_phys, set_entry,
}

-- An address with the last entry of the top table.
abbrev pub IsKernel : ℕ → Type 0
IsKernel v = (2 ^ 64 - 2 ^ 39 ≤ v) × (v < 2 ^ 64)

pub pml4_index_lem : (v : ℕ) → IsKernel v → (pml4_index v == 511) ≡ true
pml4_index_lem v h =
    let i : pml4_index v ≡ 511 = omega (arith, bit_and_ones 9 (v / 2 ^ 39), h) in rw i refl

pub pdpt_index_lem : (v : ℕ) → pdpt_index v ≡ v / 2 ^ 30 % 512
pdpt_index_lem v = bit_and_ones 9 (v / 2 ^ 30)

pub pdir_index_lem : (v : ℕ) → pdir_index v ≡ v / 2 ^ 21 % 512
pdir_index_lem v = bit_and_ones 9 (v / 2 ^ 21)

pub page_index_lem : (v : ℕ) → page_index v ≡ v / 2 ^ 12 % 512
page_index_lem v = bit_and_ones 9 (v / 2 ^ 12)

-- The first GiB from the base of the kernel on is converted to the address less that base, whatever
-- the tables hold.
pub convert_virt_to_phys-image :
    (s : Tables) (offset : ℕ)
    → offset < 2 ^ 30
    → convert_virt_to_phys s (kernel_virtual_base + offset) ≡ offset
unfolding convert_virt_to_phys convert_kernel
convert_virt_to_phys-image s offset h =
    let v = kernel_virtual_base + offset in
    let top = pml4_index_lem v (omega arith, omega arith) in
    let i : pdpt_index v ≡ 510 = omega (arith, pdpt_index_lem v) in
    let image : (pdpt_index v == pdpt_index kernel_virtual_base) ≡ true = rw i refl in
    rw (top, image) (omega (arith, pdir_index_lem v))

-- The entry of the page of an address.
abbrev pub entry_at : Tables → ℕ → ℕ
entry_at s v = s.entries (s.pointers (pdpt_index v) (pdir_index v)) (page_index v)

-- No table stands for two places.
abbrev pub IsInjective : Tables → Type 0
IsInjective s =
    (p q i j : ℕ) → s.pointers p q ≡ s.pointers i j → s.pointers p q ≢ 0 → (p ≡ i) × (q ≡ j)

other_page :
    (v w : ℕ)
    → IsKernel v
    → IsKernel w
    → v / 4096 ≢ w / 4096
    → (pdpt_index v ≡ pdpt_index w) × (pdir_index v ≡ pdir_index w)
    → page_index v ≢ page_index w
other_page v w hv hw ne (e, f) g = ne (
    omega (
      arith,
      hv,
      hw,
      e,
      f,
      g,
      pdpt_index_lem v,
      pdpt_index_lem w,
      pdir_index_lem v,
      pdir_index_lem w,
      page_index_lem v,
      page_index_lem w,
    ))

pub set_entry-other :
    (s : Tables) (v w entry : ℕ)
    → IsInjective s
    → IsKernel v
    → IsKernel w
    → v / 4096 ≢ w / 4096
    → s.pointers (pdpt_index v) (pdir_index v) ≢ 0
    → entry_at (set_entry s (s.pointers (pdpt_index v) (pdir_index v)) (page_index v) entry) w
      ≡ entry_at s w
set_entry-other s v w entry inj hv hw ne exists =
    let table = s.pointers (pdpt_index v) (pdir_index v) in
    let other = s.pointers (pdpt_index w) (pdir_index w) in
    update-others s.entries table (page_index v) entry other (page_index w)
      (elim (Bool-cases (other == table)) [
        | inr apart ↦ inl (ground arith)
        | inl same ↦
            let e : table ≡ other = ground arith in
            let places = inj (pdpt_index v) (pdir_index v) (pdpt_index w) (pdir_index w) e exists in
            inr (λ g. other_page v w hv hw ne places (sym g))
      ])
