-- ===== src/Paging/Layout.antt =====
-- The constants of Kernel/inc/arch-x86_64/hwmem.h and the parts of an address (`pml4IndexOf` and
-- its kin).
use nite_os_project.Common.{
  ℕ, ◌+◌, ◌-◌, ◌*◌, ◌/◌, ◌%◌, ◌^◌, ◌≤◌, ◌<◌, ◌≡◌, Bool, true, false, arith, bit_and,
}
use nite_os_project.Common.Bits.{bit_and_ones, bit_and_high}

abbrev pub page_frame : ℕ
page_frame = 0xFFFFFFFFF000

abbrev pub kernel_virtual_base : ℕ
kernel_virtual_base = 0xffffffff80000000

abbrev pub io_virtual_base : ℕ
io_virtual_base = kernel_virtual_base - 0x100000000

-- A `bool` that is assigned to a bit-field.
abbrev pub bit_of : Bool → ℕ
bit_of true = 1
bit_of false = 0

pub bit_of-le : (b : Bool) → bit_of b ≤ 1
bit_of-le true = omega arith
bit_of-le false = omega arith

unfoldable pub pml4_index_of : ℕ → ℕ
pml4_index_of addr = bit_and (addr / 2 ^ 39) 0x1FF

unfoldable pub pdpt_index_of : ℕ → ℕ
pdpt_index_of addr = bit_and (addr / 2 ^ 30) 0x1FF

unfoldable pub pdir_index_of : ℕ → ℕ
pdir_index_of addr = bit_and (addr / 2 ^ 21) 0x1FF

unfoldable pub page_index_of : ℕ → ℕ
page_index_of addr = bit_and (addr / 2 ^ 12) 0x1FF

-- `PAGE_FRAME` keeps bits 12 to 47.
pub page_frame_lem : (a : ℕ) → bit_and a page_frame ≡ a / 2 ^ 12 % 2 ^ 36 * 2 ^ 12
page_frame_lem a = bit_and_high 12 36 a

-- The four indices are below 512, and with the offset in the page they make up the low 48 bits of
-- the address.
pub index_lem :
    (a : ℕ)
    → (pml4_index_of a < 512)
      × (pdpt_index_of a < 512)
      × (pdir_index_of a < 512)
      × (page_index_of a < 512)
      × (pml4_index_of a * 2 ^ 39
            + pdpt_index_of a * 2 ^ 30
            + pdir_index_of a * 2 ^ 21
            + page_index_of a * 2 ^ 12
            + a % 2 ^ 12
          ≡ a % 2 ^ 48)
unfolding pml4_index_of pdpt_index_of pdir_index_of page_index_of
index_lem a =
    let i4 : bit_and (a / 2 ^ 39) 511 ≡ a / 2 ^ 39 % 512 = bit_and_ones 9 (a / 2 ^ 39) in
    let i3 : bit_and (a / 2 ^ 30) 511 ≡ a / 2 ^ 30 % 512 = bit_and_ones 9 (a / 2 ^ 30) in
    let i2 : bit_and (a / 2 ^ 21) 511 ≡ a / 2 ^ 21 % 512 = bit_and_ones 9 (a / 2 ^ 21) in
    let i1 : bit_and (a / 2 ^ 12) 511 ≡ a / 2 ^ 12 % 512 = bit_and_ones 9 (a / 2 ^ 12) in
    (omega arith, omega arith, omega arith, omega arith, omega arith)

-- Pages at the same four indices are the same page, for addresses of 48 bits.
pub index_injective :
    (a b : ℕ)
    → a < 2 ^ 48
    → b < 2 ^ 48
    → pml4_index_of a ≡ pml4_index_of b
    → pdpt_index_of a ≡ pdpt_index_of b
    → pdir_index_of a ≡ pdir_index_of b
    → page_index_of a ≡ page_index_of b
    → a / 2 ^ 12 ≡ b / 2 ^ 12
index_injective a b ha hb e4 e3 e2 e1 = omega (arith, index_lem a, index_lem b)
