-- ===== src/Descriptors.antt =====
-- Kernel/inc/arch-x86_64/tables.h: the entries of the descriptor tables and how they hold a base
-- address, and the packing of a model-specific register in Kernel/inc/arch-x86_64/hwcpus.h.
pub mod Base
mod Tests
use nite_os_project.Common.{
  ℕ, zero, suc, ◌+◌, ◌*◌, ◌/◌, ◌%◌, ◌^◌, bit_and, bit_or, List, [], ◌∷◌, get_elem?, Option,
}
use mathlib.Core.Option

pub record GdtEntry : Type 0 where
  pub limit_low : ℕ
  pub base_low : ℕ
  pub base_medium : ℕ
  pub access : ℕ
  pub granularity : ℕ
  pub base_high : ℕ

pub record GdtTssEntry : Type 0 where
  pub len : ℕ
  pub base_low : ℕ
  pub base_medium : ℕ
  pub flags_a : ℕ
  pub flags_b : ℕ
  pub base_high : ℕ
  pub base_upper : ℕ
  pub reserved : ℕ

-- `sizeof(TaskStateSegment)`: 4 + 3 * 8 + 8 + 7 * 8 + 4 + 4 + 2 + 2 bytes, packed, rounded up to
-- the alignment of its first member.
abbrev pub size_of_tss : ℕ
size_of_tss = 112

-- `GdtTssEntry(TaskStateSegment&)`, at the address of the segment. An assignment to a narrower
-- member cuts the number to its width.
pub tss_entry : ℕ → GdtTssEntry
tss_entry tss = record {
  len = size_of_tss;
  base_low = bit_and tss 0xffff % 2 ^ 16;
  base_medium = bit_and (tss / 2 ^ 16) 0xff % 2 ^ 8;
  flags_a = 0b10001001;
  flags_b = 0;
  base_high = bit_and (tss / 2 ^ 24) 0xff % 2 ^ 8;
  base_upper = bit_and (tss / 2 ^ 32) 0xffffffff % 2 ^ 32;
  reserved = 0;
}

pub record IdtEntry : Type 0 where
  pub base_low : ℕ
  pub selector : ℕ
  pub ist : ℕ
  pub flags : ℕ
  pub base_medium : ℕ
  pub base_high : ℕ
  pub reserved : ℕ

-- `IdtEntry()`
pub empty_idt_entry : IdtEntry
empty_idt_entry = record {
  base_low = 0;
  selector = 0;
  ist = 0;
  flags = 0;
  base_medium = 0;
  base_high = 0;
  reserved = 0;
}

-- `IdtEntry(num, base, sel, flags, ist)`
pub idt_entry : ℕ → ℕ → ℕ → ℕ → ℕ → IdtEntry
idt_entry num base sel flags ist = record {
  base_low = bit_and base 0xffff % 2 ^ 16;
  selector = sel;
  ist = ist;
  flags = flags;
  base_medium = bit_and (base / 2 ^ 16) 0xffff % 2 ^ 16;
  base_high = bit_and (base / 2 ^ 32 % 2 ^ 32) 0xffffffff;
  reserved = 0;
}

gdt_entry : ℕ → ℕ → ℕ → GdtEntry
gdt_entry limit access granularity = record {
  limit_low = limit;
  base_low = 0;
  base_medium = 0;
  access = access;
  granularity = granularity;
  base_high = 0;
}

abbrev pub long_mode_pages : ℕ
long_mode_pages = bit_or (bit_or (2 ^ 5) (2 ^ 7)) 0x0F

pub record GdtPackage : Type 0 where
  pub entries : List GdtEntry
  pub tss : GdtTssEntry

-- The segments that both constructors of `GdtPackage` list; the sixth is left zero.
pub segments : List GdtEntry
unfolding gdt_entry
segments =
    gdt_entry 0 0 0
    ∷ gdt_entry 0xFFFF 0x9A long_mode_pages
    ∷ gdt_entry 0xFFFF 0x92 long_mode_pages
    ∷ gdt_entry 0xFFFF 0xFA long_mode_pages
    ∷ gdt_entry 0xFFFF 0xF2 long_mode_pages
    ∷ gdt_entry 0 0 0
    ∷ []

-- `GdtPackage(TaskStateSegment&)`
pub gdt_package : ℕ → GdtPackage
unfolding segments tss_entry
gdt_package tss = record { entries = segments; tss = tss_entry tss }

-- `wrmsr` splits the value into the registers EAX and EDX; `rdmsr` joins them.
pub split_msr : ℕ → ℕ × ℕ
split_msr value = (bit_and value 0xFFFFFFFF, value / 2 ^ 32)

pub join_msr : ℕ → ℕ → ℕ
join_msr high low = bit_or (high * 2 ^ 32 % 2 ^ 64) low

-- The twelve letters of the vendor: byte `i % 4` of register `i / 4`.
vendor_from : ℕ → ℕ → List ℕ → List (Option ℕ)
vendor_from zero i regs = []
vendor_from (suc left) i regs =
    Option.map (λ r. bit_and (r / 2 ^ (i % 4 * 8)) 0xFF) (get_elem? regs (i / 4))
    ∷ vendor_from left (suc i) regs

-- `cpuid().vendor`, from the registers that the instruction fills.
pub vendor_of : List ℕ → List (Option ℕ)
unfolding vendor_from
vendor_of regs = vendor_from 12 0 regs
