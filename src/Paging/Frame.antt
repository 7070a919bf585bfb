-- ===== src/Paging/Frame.antt =====
-- The `address` setters of Kernel/inc/arch-x86_64/hwmem.h against the frame that the processor reads.
use nite_os_project.Common.{
  ℕ, ◌*◌, ◌/◌, ◌%◌, ◌^◌, ◌<◌, ◌≡◌, ◌↔◌, arith, bit_and, some, ◌∙◌, ap, sym,
}
use nite_os_project.Common.Bitfield.{get_field, get_field-set_field, set_field, write}
use nite_os_project.Paging.Layout.{page_frame, page_frame_lem}
use nite_os_project.Paging.Entry.{set_address, set}

-- The physical address in an entry: its bits 12 to 51, in their places.
pub frame_of : ℕ → ℕ
frame_of flags = get_field 12 40 flags * 2 ^ 12

frame_lem :
    (level a flags : ℕ) {after : ℕ}
    → set level (set_address a) flags ≡ some after
    → frame_of after ≡ a / 2 ^ 12 % 2 ^ 28 * 2 ^ 24
unfolding frame_of set write
frame_lem level a flags {after} h =
    let field : get_field 12 40 (set_field 12 40 (bit_and a page_frame) flags)
        ≡ bit_and a page_frame % 2 ^ 40 =
      get_field-set_field 12 40 (bit_and a page_frame) flags in
    let word : set_field 12 40 (bit_and a page_frame) flags ≡ after = cc in
    ap frame_of (sym word) ∙ omega (arith, field, page_frame_lem a)

-- Of the pages in 48 bits of physical memory only the one at 0 is entered where the processor
-- looks for it: `address` does not shift the address to the member's place in the page number.
pub set_address-frame :
    (level a flags : ℕ) {after : ℕ}
    → a < 2 ^ 48
    → a % 2 ^ 12 ≡ 0
    → set level (set_address a) flags ≡ some after
    → (frame_of after ≡ a) ↔ (a ≡ 0)
set_address-frame level a flags small aligned h = (
  λ same. omega (arith, frame_lem level a flags h),
  λ zero_page. omega (arith, frame_lem level a flags h),
)
