-- ===== src/Ahci.antt =====
-- The disk of Kernel/src/impls/ahci-disk.cpp: a command's slot, its structures, and the wait for it.
-- The registers that the controller changes by itself are given by what each read of them yields.
pub mod Slot
pub mod Transfer
pub mod Wait
pub mod Controller
mod Tests
use nite_os_project.Common.{
  ℕ, zero, suc, ◌+◌, ◌-◌, ◌*◌, ◌/◌, ◌%◌, ◌^◌, bit_and, bit_or, Bool, true, false, not, ◌&&◌, ◌==◌,
  if◌then◌else◌, Option, none, some, ltb, List, [], ◌∷◌, ◌++◌,
}
use nite_os_project.Common.Words.{sub32}

-- The loop of `findSlot` from `i` on, by the rounds left; `none` is -1.
pub slot_loop : ℕ → ℕ → ℕ → Option ℕ
slot_loop zero i slots = none
slot_loop (suc n) i slots =
    let rest = slot_loop n (suc i) (slots / 2) in if bit_and slots 1 == 0 then some i else rest

pub find_slot : ℕ → ℕ → Option ℕ
find_slot sact ci = slot_loop 32 0 (bit_or sact ci)

-- `RegHostToDevice`, with the fields that `access` sets.
pub record RegHostToDevice : Type 0 where
  pub fis_type : ℕ
  pub mode : ℕ
  pub port_multiplier : ℕ
  pub command : ℕ
  pub lba0 : ℕ
  pub lba1 : ℕ
  pub lba2 : ℕ
  pub lba3 : ℕ
  pub lba4 : ℕ
  pub lba5 : ℕ
  pub device : ℕ
  pub count_low : ℕ
  pub count_high : ℕ
  pub ctl : ℕ

-- `HbaPrdtEntry`; `_dbc` has 22 bits.
pub record HbaPrdtEntry : Type 0 where
  pub dba : ℕ
  pub dbau : ℕ
  pub dbc : ℕ
  pub i : ℕ

-- The entry of the table, which the rest of is cleared.
pub prdt_entry : ℕ → ℕ → HbaPrdtEntry
prdt_entry count phys_buf = record {
  dba = bit_and phys_buf 0xFFFFFFFF;
  dbau = bit_and (phys_buf / 2 ^ 32) 0xFFFFFFFF;
  dbc = sub32 (count * 2 ^ 9 % 2 ^ 32) 1 % 2 ^ 22;
  i = 1;
}

pub host_to_device : ℕ → ℕ → Bool → RegHostToDevice
host_to_device lba count write = record {
  fis_type = 0x27;
  mode = 1;
  port_multiplier = 0;
  command = if write then 0x35 else 0x25;
  lba0 = bit_and lba 0xFF;
  lba1 = bit_and (lba / 2 ^ 8) 0xFF;
  lba2 = bit_and (lba / 2 ^ 16) 0xFF;
  lba3 = bit_and (lba / 2 ^ 24) 0xFF;
  lba4 = bit_and (lba / 2 ^ 32) 0xFF;
  lba5 = bit_and (lba / 2 ^ 40) 0xFF;
  device = 2 ^ 6;
  count_low = bit_and count 0xFF;
  count_high = bit_and (count / 2 ^ 8) 0xFF;
  ctl = 0x8;
}

-- `read` and `write` count in sectors; the count is a `uint32_t`.
pub sectors : ℕ → ℕ → ℕ × ℕ
sectors offset size = (offset / 512, size / 512 % 2 ^ 32)

-- `ATA_DEV_BUSY | ATA_DEV_DRQ` of the task file data.
abbrev pub is_busy : ℕ → Bool
is_busy tfd = not (bit_and tfd 0x88 == 0)

-- `HBA_PxIS_TFES` of the interrupt status.
abbrev pub has_error : ℕ → Bool
has_error status = not (bit_and status (2 ^ 30) == 0)

-- What the registers yield at the reads of a round of each loop.
pub record Port : Type 0 where
  pub tfd : ℕ → ℕ
  pub ci : ℕ → ℕ
  pub status : ℕ → ℕ

-- The first loop, by the rounds that `spin < 1000000` allows: the value of `spin` behind it.
pub spin_loop : Port → ℕ → ℕ → ℕ
spin_loop port zero spin = spin
spin_loop port (suc n) spin =
    let rest = spin_loop port n (suc spin) in if is_busy (port.tfd spin) then rest else spin

-- The second loop: whether the command came to an end without an error in its round.
pub wait_loop : Port → ℕ → ℕ → ℕ → Option Bool
wait_loop port slot zero round = none
wait_loop port slot (suc fuel) round =
    let rest = wait_loop port slot fuel (suc round) in
    if bit_and (port.ci round) (2 ^ slot) == 0
    then some (not (has_error (port.status round)))
    else if has_error (port.status round)
    then some false
    else rest

pub spin_limit : ℕ
spin_limit = 1000000

-- The registers that `access` writes, in the order of the writes.
pub data Sent : Type 0 where
  sent_ie sent_is sent_serr sent_tfd sent_ci : ℕ → Sent

-- `_HBACommandHeader`, with the fields that `access` sets.
pub record CommandHeader : Type 0 where
  pub cfl : ℕ
  pub a : ℕ
  pub w : ℕ
  pub c : ℕ
  pub p : ℕ
  pub prdbc : ℕ
  pub pmp : ℕ

-- `sizeof(RegHostToDevice)` is 20.
pub command_header : Bool → CommandHeader
command_header write = record {
  cfl = 20 / 4 % 2 ^ 5;
  a = 0;
  w = if write then 1 else 0;
  c = 0;
  p = 0;
  prdbc = 0;
  pmp = 0;
}

-- What `access` writes to the structures of the slot.
pub record Written : Type 0 where
  pub slot : ℕ
  pub header : CommandHeader
  pub fis : RegHostToDevice
  pub entry : HbaPrdtEntry

abbrev pub prepare : ℕ → ℕ → ℕ → Bool → ℕ → Written
prepare lba count phys_buf write slot = record {
  slot = slot;
  header = command_header write;
  fis = host_to_device lba count write;
  entry = prdt_entry count phys_buf;
}

-- What `access` has written, and what it returns; `none` for this is a loop that has not ended.
pub record Access : Type 0 where
  pub registers : List Sent
  pub command : Option Written
  pub result : Option Bool

abbrev pub started : List Sent
started = sent_ie 0xFFFFFFFF ∷ sent_is 0 ∷ []

-- `access` behind the structures: the wait until the disk is ready, the write that issues the
-- command, and the wait for its end.
pub issue : Port → ℕ → Written → Access
issue port fuel command =
    let reset = started ++ (sent_serr 0 ∷ sent_tfd 0 ∷ []) in
    if spin_loop port spin_limit 0 == spin_limit
    then record { registers = reset; command = some command; result = some false }
    else record {
      registers = reset ++ (sent_ci (2 ^ command.slot) ∷ []);
      command = some command;
      result = wait_loop port command.slot fuel 0;
    }

-- `access` after `findSlot`; `none` reads behind the 8 elements of `m_commandTable`.
pub access_slot : Port → ℕ → ℕ → ℕ → ℕ → Bool → Option ℕ → Option Access
access_slot port fuel lba count phys_buf write none =
    some (record { registers = started; command = none; result = some false })
access_slot port fuel lba count phys_buf write (some slot) =
    if ltb slot 8 then some (issue port fuel (prepare lba count phys_buf write slot)) else none

pub access : Port → ℕ → ℕ → ℕ → ℕ → ℕ → ℕ → Bool → Option Access
access port fuel sact ci lba count phys_buf write =
    access_slot port fuel lba count phys_buf write (find_slot sact ci)
