-- ===== src/Paging/Tests.antt =====
-- Runs of the page table entries, and the theorems at concrete entries.
use nite_os_project.Common.{◌+◌, ◌-◌, ◌*◌, ◌/◌, ◌^◌, ◌≡◌, refl, true, false, arith, none, some}
use nite_os_project.Common.Bitfield.{set_field, write}
use nite_os_project.Paging.Layout.{
  pml4_index_of, pdpt_index_of, pdir_index_of, page_index_of, kernel_virtual_base, io_virtual_base,
  index_injective,
}
use nite_os_project.Paging.Flags.{setter_for, set-mask_of}
use nite_os_project.Paging.Entry.{
  set_writable, set_page_size, set_address, set, allowed, flag_writable, set_flags, clear_flags,
  mask_of,
}

-- The kernel's half of the address space begins in the last entry of the top table.
kernel_indices :
    (pml4_index_of kernel_virtual_base ≡ 511)
    × (pdpt_index_of kernel_virtual_base ≡ 510)
    × (pdpt_index_of io_virtual_base ≡ 506)
unfolding pml4_index_of pdpt_index_of
kernel_indices = (refl, refl, refl)

page_size_refused : set 1 (set_page_size true) 0 ≡ none
unfolding set
page_size_refused = refl

index_injective_example : 0x1234567 / 2 ^ 12 ≡ 0x1234000 / 2 ^ 12
unfolding pml4_index_of pdpt_index_of pdir_index_of page_index_of
index_injective_example =
    index_injective 0x1234567 0x1234000 (omega arith) (omega arith) refl refl refl refl

-- Bit 1 of a word with all bits set is cleared, and bit 0 stays.
cleared : set 4 (set_writable false) (2 ^ 64 - 1) ≡ some (2 ^ 64 - 3)
unfolding set write set_field
cleared = refl

writable_allowed : allowed 4 (setter_for flag_writable true) ≡ true
unfolding allowed setter_for
writable_allowed = refl

set-mask_of_example :
    (set 4 (setter_for flag_writable true) (2 ^ 64 - 3)
      ≡ some (set_flags (mask_of flag_writable) (2 ^ 64 - 3)))
    × (set 4 (setter_for flag_writable false) (2 ^ 64 - 3)
        ≡ some (clear_flags (mask_of flag_writable) (2 ^ 64 - 3)))
set-mask_of_example = set-mask_of 4 flag_writable (2 ^ 64 - 3) (omega arith) writable_allowed

-- The entry of the page at 1 MB, and the address that it stands for.
entered : set 1 (set_address 0x100000) 1 ≡ some (0x100000 * 2 ^ 12 + 1)
unfolding set write set_field
entered = refl
