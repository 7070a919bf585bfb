-- ===== src/Ahci/Controller/Areas.antt =====
-- The structures of the ports lie apart, in the pages that the controller allocates for them.
use nite_os_project.Common.{ℕ, ◌+◌, ◌*◌, ◌%◌, ◌^◌, ◌<◌, ◌≤◌, ◌≡◌, ◌⊎◌, arith}
use nite_os_project.Common.Bits.{bit_and_ones}
use nite_os_project.Ahci.Controller.{Split, command_list, received_fis, command_table}

abbrev pub joined : Split → ℕ
joined s = s.low + s.high * 2 ^ 32

command_table-joined :
    (base port i : ℕ)
    → port < 32
    → i < 32
    → base + 64 * 4096 ≤ 2 ^ 64
    → joined (command_table base port i) ≡ base + port * 8192 + i * 256
unfolding command_table
command_table-joined base port i bp bi b =
    let phys = (base + port * 2 ^ 13) % 2 ^ 64 + i * 2 ^ 8 in
    omega (arith, bit_and_ones 32 (phys % 2 ^ 64))

command_list-joined :
    (base port : ℕ)
    → port < 32
    → base % 2 ^ 32 + 8 * 4096 ≤ 2 ^ 32
    → joined (command_list base port) ≡ base + port * 1024
unfolding command_list
command_list-joined base port bp b = omega (arith, bit_and_ones 32 base)

received_fis-joined :
    (base port : ℕ)
    → port < 32
    → base % 2 ^ 32 + 2 * 4096 ≤ 2 ^ 32
    → joined (received_fis base port) ≡ base + port * 256
unfolding received_fis
received_fis-joined base port bp b = omega (arith, bit_and_ones 32 base)

-- For two commands `i` and `j` of the ports `p` and `q`, all below 32, and 64 pages from `base` below
-- `2 ^ 64`, each command table lies with its 256 bytes in these pages, and the two are the same or
-- lie apart.
pub command_table-apart :
    (base p q i j : ℕ)
    → p < 32
    → q < 32
    → i < 32
    → j < 32
    → base + 64 * 4096 ≤ 2 ^ 64
    → (base ≤ joined (command_table base p i))
      × (joined (command_table base p i) + 256 ≤ base + 64 * 4096)
      × (((p ≡ q) × (i ≡ j))
          ⊎ ((joined (command_table base p i) + 256 ≤ joined (command_table base q j))
              ⊎ (joined (command_table base q j) + 256 ≤ joined (command_table base p i))))
command_table-apart base p q i j bp bq bi bj b =
    let first = command_table-joined base p i bp bi b in
    let second = command_table-joined base q j bq bj b in
    (omega arith, omega arith, ground (arith, first, second))
