-- ===== src/Acpi.antt =====
-- The search of the ACPI tables, `AcpiMgmtDevice::findTable` of Kernel/src/impls/acpi.cpp, and the
-- checksum of Kernel/inc/drivers/acpi/spec.h.
pub mod Find
pub mod Signature
mod Tests
use nite_os_project.Common.{
  ℕ, zero, suc, ◌+◌, ◌-◌, ◌/◌, bit_and, Bool, true, false, ltb, ◌==◌, if◌then◌else◌, ◌>>=◌, Option,
  none, some, List, [], ◌∷◌, get_elem?,
}
use nite_os_project.Common.Words.{add64, sub64}
use nite_os_project.Paging.Map.{copy_as_io_address}
use nite_os_project.Strings.{Str, new_string, equals}

-- The tables that the constructor has found. `rsdt` and `xsdt` are their lengths and pointers.
pub record AcpiMgmtDevice : Type 0 where
  pub rsdp_revision : Option ℕ
  pub rsdt : ℕ × List ℕ
  pub xsdt : ℕ × List ℕ
  pub fadt_dsdt : Option ℕ

abbrev pub sizeof_table : ℕ
sizeof_table = 36

-- `AcpiTable::checksum`, the loop from index `i` on by the rounds left; `none` is a read behind the
-- memory that holds the table.
pub checksum_loop : ℕ → ℕ → List ℕ → ℕ → Option ℕ
checksum_loop zero i bytes sum = some sum
checksum_loop (suc n) i bytes sum =
    get_elem? bytes i >>= λ b. checksum_loop n (suc i) bytes (add64 sum b)

pub checksum : ℕ → List ℕ → Option ℕ
checksum length bytes = checksum_loop length 0 bytes 0 >>= λ sum. some (bit_and sum 0xFF)

-- The string literal `DSDT`.
abbrev pub dsdt : Str
dsdt = record { storage = some (68 ∷ 83 ∷ 68 ∷ 84 ∷ 0 ∷ []); length = 4 }

-- `memory a` are the bytes from the address `a` on, which the source reads a table's signature from.
module _ (memory : ℕ → List ℕ) where
  -- Whether the table at an entry has the name: `name.equals(table->_signature)`.
  pub has_name : Str → ℕ → Option Bool
  has_name name entry =
      new_string (memory (copy_as_io_address entry)) >>= λ signature. equals name signature

  -- The loop over the entries from `i` on, by the rounds left; `seen` is `_index`. The result is the
  -- address of the table, `some none` for a null pointer, and `none` for a read out of bounds.
  pub find_loop : Str → ℕ → ℕ → ℕ → ℕ → List ℕ → Option (Option ℕ)
  find_loop name index zero i seen pointers = some none
  find_loop name index (suc n) i seen pointers =
      let counted = find_loop name index n (suc i) (suc seen) pointers in
      let others = find_loop name index n (suc i) seen pointers in
      get_elem? pointers i >>= λ entry. has_name name entry >>= λ named.
      if named
      then (if seen == index then some (some (copy_as_io_address entry)) else counted)
      else others

  -- The number of entries, and the loop over them.
  pub find_entry : AcpiMgmtDevice → ℕ → Str → ℕ → Option (Option ℕ)
  find_entry device revision name index =
      if revision == 0
      then find_loop name index (sub64 device.rsdt.0 sizeof_table / 4) 0 0 device.rsdt.1
      else find_loop name index (sub64 device.xsdt.0 sizeof_table / 8) 0 0 device.xsdt.1

  -- A null `m_fadt` is read where the name is `DSDT`.
  pub find_table : AcpiMgmtDevice → Str → ℕ → Option (Option ℕ)
  find_table device name index = elim device.rsdp_revision [
    | none ↦ some none
    | some revision ↦ equals name dsdt >>= λ is_dsdt.
        if is_dsdt
        then (device.fadt_dsdt >>= λ address. some (some (copy_as_io_address address)))
        else find_entry device revision name index
  ]
