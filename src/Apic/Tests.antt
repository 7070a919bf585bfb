-- ===== src/Apic/Tests.antt =====
-- A table with a local APIC, an I/O APIC and an override, and a window of a concrete device.
use nite_os_project.Common.{
  ℕ, zero, suc, ◌%◌, ◌^◌, ◌≡◌, ◌≢◌, refl, arith, ◌==◌, if◌then◌else◌, some, List, [], ◌∷◌, bit_and,
  true, false,
}
use nite_os_project.Apic.{ApicDevice, new_apic, read32, walk}
use nite_os_project.Apic.Walk.{Entries, entry, finished, Gathers, walk-Gathers}
use nite_os_project.Apic.Registers.{Window, IsWindow, io_red_tbl_write, io_red_tbl_read}
use nite_os_project.Apic.Registers.RedTable.{entry_bits, io_red_tbl_read-io_red_tbl_write}

-- The bytes of a list, from the address 0 on.
abbrev bytes : List ℕ → ℕ → ℕ
bytes [] a = 0
bytes (b ∷ bs) zero = b
bytes (b ∷ bs) (suc a) = bytes bs a

abbrev memory : ℕ → ℕ
memory =
    bytes (
      0 ∷ 8 ∷ 7 ∷ 3 ∷ 1 ∷ 0 ∷ 0 ∷ 0 ∷ 1 ∷ 12 ∷ 2 ∷ 0 ∷ 0 ∷ 16 ∷ 0 ∷ 0 ∷ 0 ∷ 0 ∷ 0 ∷ 0 ∷ 2 ∷ 10 ∷ [])

table-Entries : Entries memory 30 0 (0 ∷ 8 ∷ 20 ∷ [])
table-Entries =
    entry (omega arith) (omega arith) (
      entry (omega arith) (omega arith)
        (entry (omega arith) (omega arith) (finished (omega arith))))

walk-Gathers_example :
    (r : ApicDevice) × (walk memory 4 0 30 (new_apic 0) ≡ some r)
    × Gathers memory (new_apic 0) (0 ∷ 8 ∷ 20 ∷ []) r
walk-Gathers_example =
    walk-Gathers memory 4 0 30 (0 ∷ 8 ∷ 20 ∷ []) (new_apic 0) table-Entries (omega arith)

table-Gathers : Gathers memory (new_apic 0) (0 ∷ 8 ∷ 20 ∷ []) (record {
  interfaces = record { apic_id = 3; processor_id = 7 } ∷ [];
  overrides = 20 ∷ [];
  io_base_phys = 4096;
})
unfolding read32
table-Gathers = (refl, refl, refl)

-- A window that keeps 32 bits of what is written to a register.
abbrev window : Window
window = record {
  State = ℕ × (ℕ → ℕ);
  write_select = λ r s. (r % 2 ^ 8, s.1);
  write_window = λ d s. (s.0, λ q. if q == s.0 then d else s.1 q);
  read_window = λ s. s.1 s.0 % 2 ^ 32;
}

window-IsWindow : IsWindow window
window-IsWindow = record {
  selected = λ s. s.0;
  register = λ s q. s.1 q % 2 ^ 32;
  register-lt = λ s q. omega arith;
  read-register = λ s. refl;
  select-selected = λ r s. refl;
  select-register = λ r q s. refl;
  window-selected = λ d s. refl;
  window-register = λ d s small.
      let here : (s.0 == s.0) ≡ true = ground arith in
      let fits : d % 2 ^ 32 ≡ d = omega arith in rw (here, fits) refl;
  window-others = λ d q s ne. let other : (q == s.0) ≡ false = ground (arith, ne) in rw other refl;
}

abbrev cleared : ℕ × (ℕ → ℕ)
cleared = (0, λ q. 0)

io_red_tbl_read-io_red_tbl_write_example :
    (bit_and
        (io_red_tbl_read window 1 (io_red_tbl_write window 1 0x100000000000021 cleared)).0
        entry_bits
      ≡ bit_and 0x100000000000021 entry_bits)
    × (◌≢◌ {A = ℕ} 2 1
        → bit_and
            (io_red_tbl_read window 2 (io_red_tbl_write window 1 0x100000000000021 cleared)).0
            entry_bits
          ≡ bit_and (io_red_tbl_read window 2 cleared).0 entry_bits)
io_red_tbl_read-io_red_tbl_write_example =
    io_red_tbl_read-io_red_tbl_write window window-IsWindow 1 2 0x100000000000021 cleared
      (omega arith) (omega arith) (omega arith)
