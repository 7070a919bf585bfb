-- ===== src/MemRange.antt =====
-- `AddressRange` of Kernel/inc/siberix/mem/range.h over a memory that is a byte for each address, and
-- its clients: the search for the root pointer in Kernel/src/impls/acpi.cpp and
-- Kernel/src/impls/smbios.cpp.
pub mod Search
pub mod Fill
mod Tests
use nite_os_project.Common.{ℕ, zero, suc, ◌+◌, bit_or, Bool, true, false, ◌==◌, ◌&&◌, if◌then◌else◌}
use nite_os_project.Paging.Map.{copy_as_io_address}

pub record AddressRange : Type 0 where
  pub base : ℕ
  pub size : ℕ

-- `rangeOf`.
abbrev pub range_of : ℕ → ℕ → AddressRange
range_of base size = record { base = base; size = size }

-- The loop of `set` from `i` on, by the rounds left.
pub set_loop : ℕ → ℕ → (ℕ → ℕ) → ℕ → ℕ → ℕ → ℕ
set_loop base value memory zero i = memory
set_loop base value memory (suc n) i =
    set_loop base value (λ a. if a == base + i then value else memory a) n (suc i)

pub set : AddressRange → ℕ → (ℕ → ℕ) → ℕ → ℕ
set r value memory = set_loop r.base value memory r.size 0

pub clear : AddressRange → (ℕ → ℕ) → ℕ → ℕ
clear r memory = set r 0 memory

module _ (memory : ℕ → ℕ) where
  -- Whether the inner loop gets from `j` to the end of the bytes that are looked for.
  pub match_loop : ℕ → (ℕ → ℕ) → ℕ → ℕ → Bool
  match_loop at value zero j = true
  match_loop at value (suc n) j =
      let rest = match_loop at value n (suc j) in if memory (at + j) == value j then rest else false

  -- The loop of `find` from `i` on, by the rounds left. The parameter `offset` is not used.
  pub find_loop : AddressRange → (ℕ → ℕ) → ℕ → ℕ → ℕ → ℕ
  find_loop r value size zero i = 0
  find_loop r value size (suc n) i =
      let rest = find_loop r value size n (suc i) in
      let at = r.base + i in
      if (memory at == value 0) && match_loop at value size 0 then i else rest

  pub find : AddressRange → (ℕ → ℕ) → ℕ → ℕ
  find r value size = if r.size == 0 then 0 else find_loop r value size r.size 0

  -- The address that the constructor of `AcpiMgmtDevice` takes for that of the root pointer, by the
  -- bytes of its signature.
  pub find_rsdp : (ℕ → ℕ) → ℕ
  find_rsdp signature = copy_as_io_address (
      bit_or
        (bit_or (find (range_of 0 0x7C00) signature 8)
          (find (range_of 0x80000 0xA0000) signature 8))
        (find (range_of 0xE0000 0x100000) signature 8))

  -- The constructor of `SmbiosDevice`: the version and the address that it keeps, or none.
  pub find_smbios : (ℕ → ℕ) → (ℕ → ℕ) → ℕ × ℕ
  find_smbios signature2 signature3 =
      let range = range_of (copy_as_io_address 0xF0000) 0x10000 in
      let second = find range signature2 4 in
      let third = find range signature3 5 in
      if second == 0 then (if third == 0 then (0, 0) else (3, third)) else (2, second)
