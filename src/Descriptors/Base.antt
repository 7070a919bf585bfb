-- ===== src/Descriptors/Base.antt =====
-- The base address in a descriptor, as the processor reassembles it, and the halves of a register.
use nite_os_project.Common.{ℕ, ◌+◌, ◌*◌, ◌/◌, ◌%◌, ◌^◌, ◌<◌, ◌≡◌, ◌∙◌, arith, bit_and}
use nite_os_project.Common.Bits.{bit_and_ones, bit_or_disjoint}
use nite_os_project.Descriptors.{
  GdtTssEntry, IdtEntry, tss_entry, idt_entry, split_msr, join_msr, gdt_package,
}

abbrev pub tss_base : GdtTssEntry → ℕ
tss_base e = e.base_low + e.base_medium * 2 ^ 16 + e.base_high * 2 ^ 24 + e.base_upper * 2 ^ 32

abbrev pub idt_base : IdtEntry → ℕ
idt_base e = e.base_low + e.base_medium * 2 ^ 16 + e.base_high * 2 ^ 32

-- The members of a task state descriptor fit their widths, and the processor reads from them the
-- address that the constructor was given.
pub tss_base-tss_entry :
    (tss : ℕ)
    → tss < 2 ^ 64
    → (tss_base (gdt_package tss).tss ≡ tss)
      × ((gdt_package tss).tss.base_low < 2 ^ 16)
      × ((gdt_package tss).tss.base_medium < 2 ^ 8)
      × ((gdt_package tss).tss.base_high < 2 ^ 8)
      × ((gdt_package tss).tss.base_upper < 2 ^ 32)
unfolding tss_entry gdt_package
tss_base-tss_entry tss h =
    let low : bit_and tss 0xffff ≡ tss % 2 ^ 16 = bit_and_ones 16 tss in
    let medium : bit_and (tss / 2 ^ 16) 0xff ≡ tss / 2 ^ 16 % 2 ^ 8 =
      bit_and_ones 8 (tss / 2 ^ 16) in
    let high : bit_and (tss / 2 ^ 24) 0xff ≡ tss / 2 ^ 24 % 2 ^ 8 = bit_and_ones 8 (tss / 2 ^ 24) in
    let upper : bit_and (tss / 2 ^ 32) 0xffffffff ≡ tss / 2 ^ 32 % 2 ^ 32 =
      bit_and_ones 32 (tss / 2 ^ 32) in
    omega arith

-- The processor reads from an interrupt descriptor the address, selector and flags that its
-- constructor was given.
pub idt_base-idt_entry :
    (num base sel flags ist : ℕ)
    → base < 2 ^ 64
    → (idt_base (idt_entry num base sel flags ist) ≡ base)
      × ((idt_entry num base sel flags ist).selector ≡ sel)
      × ((idt_entry num base sel flags ist).flags ≡ flags)
      × ((idt_entry num base sel flags ist).ist ≡ ist)
unfolding idt_entry
idt_base-idt_entry num base sel flags ist h =
    let low : bit_and base 0xffff ≡ base % 2 ^ 16 = bit_and_ones 16 base in
    let medium : bit_and (base / 2 ^ 16) 0xffff ≡ base / 2 ^ 16 % 2 ^ 16 =
      bit_and_ones 16 (base / 2 ^ 16) in
    let high : bit_and (base / 2 ^ 32 % 2 ^ 32) 0xffffffff ≡ base / 2 ^ 32 % 2 ^ 32 % 2 ^ 32 =
      bit_and_ones 32 (base / 2 ^ 32 % 2 ^ 32) in
    omega arith

-- `rdmsr` joins the halves that `wrmsr` makes of a 64-bit value to that value.
pub join_msr-split_msr :
    (value : ℕ) → value < 2 ^ 64 → join_msr (split_msr value).1 (split_msr value).0 ≡ value
unfolding join_msr split_msr
join_msr-split_msr value h =
    let low : bit_and value 0xFFFFFFFF ≡ value % 2 ^ 32 = bit_and_ones 32 value in
    let fits : value / 2 ^ 32 * 2 ^ 32 % 2 ^ 64 ≡ value / 2 ^ 32 * 2 ^ 32 = omega arith in
    rw (fits, low)
      (bit_or_disjoint 32 (value / 2 ^ 32) (value % 2 ^ 32) (omega arith) ∙ omega arith)
