-- ===== src/Ahci/Tests.antt =====
-- A command in slot 1 that ends in its third round.
use nite_os_project.Common.{
  ℕ, ◌+◌, ◌*◌, ◌^◌, ◌<◌, ◌≤◌, ◌≡◌, ◌⊎◌, inl, refl, arith, bit_or, Bool, true, List, [], ◌∷◌, ◌↔◌,
  ltb, if◌then◌else◌, none, some,
}
use nite_os_project.Ahci.{
  Port, find_slot, slot_loop, host_to_device, prdt_entry, access, prepare, sectors, Sent, sent_ie,
  sent_is, sent_serr, sent_tfd, sent_ci,
}
use nite_os_project.Ahci.Controller.{command_table}
use nite_os_project.Ahci.Controller.Areas.{joined, command_table-apart}
use nite_os_project.Ahci.Slot.{bit, Taken, find_slot-first}
use nite_os_project.Ahci.Transfer.{
  block_address, sector_count, byte_count, memory_address, transfer_lem,
}
use nite_os_project.Ahci.Wait.{IsReady, IsFinished, access-IsFinished}

first_free : find_slot 1 0 ≡ some 1
unfolding find_slot slot_loop
first_free = refl

none_free : find_slot 0xFFFF0000 0xFFFF ≡ none
unfolding find_slot slot_loop
none_free = refl

-- A count of more than 32 bits is cut.
sectors_cut : sectors 1024 (512 * (2 ^ 32 + 3)) ≡ (2, 3)
unfolding sectors
sectors_cut = refl

abbrev port : Port
port = record {
  tfd = λ k. if ltb k 1 then 0x80 else 0x50;
  ci = λ k. if ltb k 2 then 2 else 0;
  status = λ k. 0;
}

access-IsFinished_example :
    (sent : List Sent) × (result : Bool) × (access port 3 1 0 77 8 4096 true
      ≡ some (record {
        registers = sent_ie 0xFFFFFFFF ∷ sent_is 0 ∷ sent_serr 0 ∷ sent_tfd 0 ∷ sent;
        command = some (prepare 77 8 4096 true 1);
        result = some result;
      }))
    × (IsReady port 1 → sent ≡ sent_ci (2 ^ 1) ∷ [])
    × (¬ IsReady port 1 → sent ≡ [])
    × ((result ≡ true) ↔ (IsReady port 1 × IsFinished port 1))
access-IsFinished_example =
    access-IsFinished port 3 2 1 0 1 77 8 4096 true first_free (omega arith) (inl refl)
      (omega arith)

find_slot-first_example :
    ((k : ℕ) × (find_slot 5 2 ≡ some k)
      × (k < 32)
      × (bit (bit_or 5 2) k ≡ 0)
      × Taken (bit_or 5 2) k)
    ⊎ ((find_slot 5 2 ≡ none) × Taken (bit_or 5 2) 32)
find_slot-first_example = find_slot-first 5 2

transfer_lem_example :
    (block_address (host_to_device 0x123456789ABC 8 true) ≡ 0x123456789ABC)
    × (sector_count (host_to_device 0x123456789ABC 8 true) ≡ 8)
    × (byte_count (prdt_entry 8 0x100002000) ≡ 8 * 512)
    × (memory_address (prdt_entry 8 0x100002000) ≡ 0x100002000)
transfer_lem_example =
    transfer_lem 0x123456789ABC 8 0x100002000 true (omega arith) (omega arith) (omega arith)
      (omega arith)

command_table-apart_example :
    (0x100000 ≤ joined (command_table 0x100000 1 2))
    × (joined (command_table 0x100000 1 2) + 256 ≤ 0x100000 + 64 * 4096)
    × (((◌≡◌ {A = ℕ} 1 3) × (◌≡◌ {A = ℕ} 2 0))
        ⊎ ((joined (command_table 0x100000 1 2) + 256 ≤ joined (command_table 0x100000 3 0))
            ⊎ (joined (command_table 0x100000 3 0) + 256 ≤ joined (command_table 0x100000 1 2))))
command_table-apart_example =
    command_table-apart 0x100000 1 3 2 0 (omega arith) (omega arith) (omega arith) (omega arith)
      (omega arith)
