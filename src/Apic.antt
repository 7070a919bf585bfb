-- ===== src/Apic.antt =====
-- The interrupt controller: the walk over the MADT and the registers of Kernel/src/impls/apic.cpp.
pub mod Walk
pub mod Registers
mod Tests
use nite_os_project.Common.{
  ℕ, zero, suc, ◌+◌, ◌*◌, bit_and, Bool, true, false, not, ltb, ◌==◌, if◌then◌else◌, ◌>>=◌, Option,
  none, some, List, [], ◌∷◌, ◌++◌,
}
use nite_os_project.Common.Words.{add64}

-- `ApicLocal` with the ids of its entry.
pub record ApicLocal : Type 0 where
  pub apic_id : ℕ
  pub processor_id : ℕ

pub record ApicDevice : Type 0 where
  pub interfaces : List ApicLocal
  pub overrides : List ℕ
  pub io_base_phys : ℕ

-- `ApicDevice::ApicDevice`, which leaves `m_ioBasePhys` as it is.
abbrev pub new_apic : ℕ → ApicDevice
new_apic uninitialised = record { interfaces = []; overrides = []; io_base_phys = uninitialised }

-- The memory is a byte for each address.
module _ (memory : ℕ → ℕ) where
  -- A `uint32_t` of a packed structure, the low byte first.
  pub read32 : ℕ → ℕ
  read32 a =
      memory a + memory (a + 1) * 0x100 + memory (a + 2) * 0x10000 + memory (a + 3) * 0x1000000

  -- The fields of `MadtEntry` and of the entries that are read.
  abbrev pub entry_type : ℕ → ℕ
  entry_type offset = memory offset

  abbrev pub entry_length : ℕ → ℕ
  entry_length offset = memory (offset + 1)

  -- The case of a local APIC; the processor that is registered has the same ids.
  pub local_apic : ApicDevice → ℕ → ApicDevice
  local_apic s offset = if bit_and (read32 (offset + 4)) 0x3 == 0 then s else record s {
    interfaces =
        s.interfaces
        ++ record { apic_id = memory (offset + 3); processor_id = memory (offset + 2) } ∷ [];
  }

  pub io_apic : ApicDevice → ℕ → ApicDevice
  io_apic s offset =
      if read32 (offset + 8) == 0 then record s { io_base_phys = read32 (offset + 4) } else s

  pub source_override : ApicDevice → ℕ → ApicDevice
  source_override s offset = record s { overrides = s.overrides ++ offset ∷ [] }

  -- The `switch`, whose other cases are empty.
  pub read_entry : ApicDevice → ℕ → ApicDevice
  read_entry s offset =
      if entry_type offset == 0
      then local_apic s offset
      else if entry_type offset == 1
      then io_apic s offset
      else if entry_type offset == 2
      then source_override s offset
      else s

  -- The loop over the entries; `none` is that the fuel did not do.
  pub walk : ℕ → ℕ → ℕ → ApicDevice → Option ApicDevice
  walk zero offset end s = none
  walk (suc fuel) offset end s =
      let rest = walk fuel (add64 offset (entry_length offset)) end (read_entry s offset) in
      if ltb offset end then rest else some s

  abbrev pub sizeof_madt : ℕ
  sizeof_madt = 44

  -- `onLoad` up to the loop's end; a null `madt` leaves the device as it is.
  pub on_load : ℕ → ApicDevice → Option ℕ → Option ApicDevice
  on_load fuel s none = some s
  on_load fuel s (some madt) = walk fuel (add64 madt sizeof_madt) (add64 madt (read32 (madt + 4))) s
