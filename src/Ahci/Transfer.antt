-- ===== src/Ahci/Transfer.antt =====
-- What the disk reads from the structures of a command: the block address, the number of sectors and
-- of bytes, and the address of the memory.
use nite_os_project.Common.{ℕ, ◌+◌, ◌*◌, ◌/◌, ◌^◌, ◌<◌, ◌≤◌, ◌≡◌, refl, arith, Bool}
use nite_os_project.Common.Bits.{bit_and_ones}
use nite_os_project.Ahci.{RegHostToDevice, HbaPrdtEntry, host_to_device, prdt_entry}

-- As the standards of ATA and AHCI have them, the low bytes first; a count of 0 bytes in the entry is
-- that of one byte.
abbrev pub block_address : RegHostToDevice → ℕ
block_address f =
    f.lba0 + f.lba1 * 2 ^ 8 + f.lba2 * 2 ^ 16 + f.lba3 * 2 ^ 24 + f.lba4 * 2 ^ 32 + f.lba5 * 2 ^ 40

abbrev pub sector_count : RegHostToDevice → ℕ
sector_count f = f.count_low + f.count_high * 2 ^ 8

abbrev pub byte_count : HbaPrdtEntry → ℕ
byte_count e = e.dbc + 1

abbrev pub memory_address : HbaPrdtEntry → ℕ
memory_address e = e.dba + e.dbau * 2 ^ 32

block_address_lem :
    (lba count : ℕ) (write : Bool)
    → lba < 2 ^ 48
    → block_address (host_to_device lba count write) ≡ lba
unfolding host_to_device
block_address_lem lba count write b = omega (
  arith,
  bit_and_ones 8 lba,
  bit_and_ones 8 (lba / 2 ^ 8),
  bit_and_ones 8 (lba / 2 ^ 16),
  bit_and_ones 8 (lba / 2 ^ 24),
  bit_and_ones 8 (lba / 2 ^ 32),
  bit_and_ones 8 (lba / 2 ^ 40),
)

sector_count_lem :
    (lba count : ℕ) (write : Bool)
    → count < 2 ^ 16
    → sector_count (host_to_device lba count write) ≡ count
unfolding host_to_device
sector_count_lem lba count write b =
    omega (arith, bit_and_ones 8 count, bit_and_ones 8 (count / 2 ^ 8))

byte_count_lem :
    (count buf : ℕ) → 0 < count → count ≤ 8192 → byte_count (prdt_entry count buf) ≡ count * 512
unfolding prdt_entry
byte_count_lem count buf pos b = omega arith

memory_address_lem : (count buf : ℕ) → buf < 2 ^ 64 → memory_address (prdt_entry count buf) ≡ buf
unfolding prdt_entry
memory_address_lem count buf b = omega (arith, bit_and_ones 32 buf, bit_and_ones 32 (buf / 2 ^ 32))

-- From the structures of a command for a block address below `2 ^ 48`, 1 to 8192 sectors and memory
-- below `2 ^ 64`, the disk reads this address, this number of sectors, the bytes of so many sectors
-- and the address of this memory.
pub transfer_lem :
    (lba count buf : ℕ) (write : Bool)
    → lba < 2 ^ 48
    → 0 < count
    → count ≤ 8192
    → buf < 2 ^ 64
    → (block_address (host_to_device lba count write) ≡ lba)
      × (sector_count (host_to_device lba count write) ≡ count)
      × (byte_count (prdt_entry count buf) ≡ count * 512)
      × (memory_address (prdt_entry count buf) ≡ buf)
transfer_lem lba count buf write bl pos bc bb = (
  block_address_lem lba count write bl,
  sector_count_lem lba count write (omega arith),
  byte_count_lem count buf pos bc,
  memory_address_lem count buf bb,
)

-- No sectors are a transfer of 4 MiB.
pub byte_count-none : (buf : ℕ) → byte_count (prdt_entry 0 buf) ≡ 2 ^ 22
unfolding prdt_entry
byte_count-none buf = refl
