-- ===== src/VirtualMemory/Frames.antt =====
-- The bits of an entry: what `SetPageFrame` writes, and what the conversion reads.
use nite_os_project.Common.{
  ℕ, ◌+◌, ◌-◌, ◌*◌, ◌/◌, ◌%◌, ◌^◌, ◌<◌, ◌≡◌, refl, sym, ap, ◌∙◌, arith, bit_and, bit_or, true,
}
use nite_os_project.Common.Bits.{
  bit_and_ones, bit_and_high, bit_or_above, bit_or_disjoint, bit_or-zero, bit_or-lt, bit_or-halves,
}
use nite_os_project.Common.Blocks.{bit_and_cut, bit_or_cut}
use nite_os_project.VirtualMemory.{page_frame, without_frame, set_page_frame, is_present}

-- The bits 12 to 47.
abbrev pub frame_of : ℕ → ℕ
frame_of entry = entry / 2 ^ 12 % 2 ^ 36 * 2 ^ 12

pub bit_and_frame :
    (entry offset : ℕ)
    → offset < 4096
    → bit_and entry (page_frame + offset) ≡ frame_of entry + bit_and (entry % 4096) offset
bit_and_frame entry offset h =
    let parts : entry / 2 ^ 12 * 2 ^ 12 + entry % 4096 ≡ entry = omega arith in
    let mask : (2 ^ 36 - 1) * 2 ^ 12 + offset ≡ page_frame + offset = omega arith in
    ap (λ (e : ℕ). bit_and e (page_frame + offset)) (sym parts)
    ∙ ap (bit_and (entry / 2 ^ 12 * 2 ^ 12 + entry % 4096)) (sym mask)
    ∙ bit_and_cut 12 (entry / 2 ^ 12) (entry % 4096) (2 ^ 36 - 1) offset (omega arith) h
    ∙ ap (λ (f : ℕ). f * 2 ^ 12 + bit_and (entry % 4096) offset) (bit_and_ones 36 (entry / 2 ^ 12))

pub page_frame_lem : (addr : ℕ) → bit_and addr page_frame ≡ frame_of addr
page_frame_lem addr = bit_and_high 12 36 addr

without_frame_lem :
    (page : ℕ) → without_frame page ≡ bit_and (page / 2 ^ 48) 0xFFFF * 2 ^ 36 * 2 ^ 12 + page % 4096
without_frame_lem page =
    let parts : page / 2 ^ 48 * 2 ^ 48 + page % 2 ^ 48 ≡ page = omega arith in
    let low : bit_and (page % 2 ^ 48) 0xFFF ≡ page % 4096 =
      bit_and_ones 12 (page % 2 ^ 48) ∙ omega arith in
    ap without_frame (sym parts)
    ∙ bit_and_cut 48 (page / 2 ^ 48) (page % 2 ^ 48) 0xFFFF 0xFFF (omega arith) (omega arith)
    ∙ omega (arith, low)

-- The bits above the frame, which stay.
abbrev high_bits : ℕ → ℕ
high_bits page = bit_and (page / 2 ^ 48) 0xFFFF * 2 ^ 36

pub set_page_frame_lem :
    (page addr flags : ℕ)
    → flags < 4096
    → set_page_frame page addr flags
      ≡ (high_bits page + addr / 2 ^ 12 % 2 ^ 36) * 2 ^ 12 + bit_or (page % 4096) flags
unfolding set_page_frame
set_page_frame_lem page addr flags h =
    let f = addr / 2 ^ 12 % 2 ^ 36 in
    let l = page % 4096 in
    let shifted : f * 2 ^ 12 ≡ f * 2 ^ 12 + 0 = omega arith in
    let joined : bit_or (without_frame page) (bit_and addr page_frame)
        ≡ (high_bits page + f) * 2 ^ 12 + l =
      ap (λ (w : ℕ). bit_or w (bit_and addr page_frame)) (without_frame_lem page)
      ∙ ap (bit_or (high_bits page * 2 ^ 12 + l)) (page_frame_lem addr ∙ shifted)
      ∙ bit_or_cut 12 (high_bits page) l f 0 (omega arith) (omega arith)
      ∙ ap (λ (w : ℕ). w * 2 ^ 12 + bit_or l 0)
          (bit_or_disjoint 36 (bit_and (page / 2 ^ 48) 0xFFFF) f (omega arith))
      ∙ ap (λ (w : ℕ). (high_bits page + f) * 2 ^ 12 + w) (bit_or-zero l) in
    ap (λ (e : ℕ). bit_or e flags) joined
    ∙ bit_or_above 12 (high_bits page + f) l flags (omega arith) h

-- What a written entry says: the frame of the address, and in the low bits the flags besides what
-- they were.
pub frame_of-set_page_frame :
    (page addr flags : ℕ)
    → flags < 4096
    → (frame_of (set_page_frame page addr flags) ≡ frame_of addr)
      × (set_page_frame page addr flags % 4096 ≡ bit_or (page % 4096) flags)
frame_of-set_page_frame page addr flags h =
    let low = bit_or-lt 12 (page % 4096) flags (omega arith) h in
    omega (arith, set_page_frame_lem page addr flags h, low)

pub is_present-set_page_frame :
    (page addr flags : ℕ)
    → flags < 4096
    → flags % 2 ≡ 1
    → is_present (set_page_frame page addr flags) ≡ true
is_present-set_page_frame page addr flags h odd =
    let (f, low) = frame_of-set_page_frame page addr flags h in
    let bit = bit_and_ones 1 (set_page_frame page addr flags) in
    let halves = bit_or-halves (page % 4096) flags in
    let one : bit_and (set_page_frame page addr flags) 1 ≡ 1 =
      omega (arith, bit, low, halves, odd) in
    rw one refl
