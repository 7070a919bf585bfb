-- ===== src/Apic/Registers.antt =====
-- The registers of the I/O APIC in Kernel/src/impls/apic.cpp: one is selected, and then read or written
-- in the window.
pub mod RedTable
use nite_os_project.Common.{
  ℕ, zero, suc, ◌+◌, ◌*◌, ◌/◌, ◌%◌, ◌^◌, ◌<◌, ◌≤◌, ◌≡◌, ◌≢◌, refl, sym, ap, ◌∙◌, arith, bit_and,
  bit_or, ltb, ◌==◌, if◌then◌else◌,
}
use nite_os_project.Common.Bits.{bit_and_ones, bit_or_disjoint}
use nite_os_project.Common.Words.{add32}

-- The window of the hardware, by what it does to the hardware's state.
pub record Window : Type 1 where
  pub State : Type 0
  pub write_select : ℕ → State → State
  pub write_window : ℕ → State → State
  pub read_window : State → ℕ

-- The bits of a register that software writes, as the I/O APIC is documented: of the identification
-- its four bits, of the version and the arbitration none, and of an entry of the redirection table
-- all but the delivery status (12), the remote IRR (14) and the reserved ones.
pub writable_bits : ℕ → ℕ
writable_bits r =
    if ltb r 0x10
    then (if r == 0 then 0x0F000000 else 0)
    else if ltb r 0x40
    then (if r % 2 == 0 then 0x0001AFFF else 0xFF000000)
    else 0

-- How the I/O APIC is documented: the selection has 8 bits, the window is the register of 32 bits
-- that is selected, and each register keeps what was written to those bits of it that software
-- writes. What the hardware makes of the others is open.
pub record IsWindow (w : Window) : Type 0 where
  pub selected : w.State → ℕ
  pub register : w.State → ℕ → ℕ
  pub register-lt : (s : w.State) (q : ℕ) → register s q < 2 ^ 32
  pub read-register : (s : w.State) → w.read_window s ≡ register s (selected s)
  pub select-selected : (r : ℕ) (s : w.State) → selected (w.write_select r s) ≡ r % 2 ^ 8
  pub select-register :
      (r q : ℕ) (s : w.State)
      → bit_and (register (w.write_select r s) q) (writable_bits q)
        ≡ bit_and (register s q) (writable_bits q)
  pub window-selected : (d : ℕ) (s : w.State) → selected (w.write_window d s) ≡ selected s
  pub window-register :
      (d : ℕ) (s : w.State)
      → d < 2 ^ 32
      → bit_and (register (w.write_window d s) (selected s)) (writable_bits (selected s))
        ≡ bit_and d (writable_bits (selected s))
  pub window-others :
      (d q : ℕ) (s : w.State)
      → q ≢ selected s
      → bit_and (register (w.write_window d s) q) (writable_bits q)
        ≡ bit_and (register s q) (writable_bits q)

module _ (w : Window) where
  open w use {State, write_select, write_window, read_window}

  pub io_reg_write32 : ℕ → ℕ → State → State
  io_reg_write32 reg word s = write_window word (write_select reg s)

  -- What is read, and the state after it.
  pub io_reg_read32 : ℕ → State → ℕ × State
  io_reg_read32 reg s = let s = write_select reg s in (read_window s, s)

  pub io_reg_write64 : ℕ → ℕ → State → State
  io_reg_write64 reg word s =
      let low = bit_and word 0xFFFFFFFF in
      let high = word / 2 ^ 32 % 2 ^ 32 in
      io_reg_write32 (add32 reg 1) high (io_reg_write32 reg low s)

  pub io_reg_read64 : ℕ → State → ℕ × State
  io_reg_read64 reg s =
      let (low, s) = io_reg_read32 reg s in
      let (high, s) = io_reg_read32 (add32 reg 1) s in (bit_or low (high * 2 ^ 32), s)

  -- `IO_APIC_RED_TABLE_ENT`, of a `uint32_t`.
  pub red_table_entry : ℕ → ℕ
  red_table_entry index = add32 0x10 (2 * index)

  pub io_red_tbl_write : ℕ → ℕ → State → State
  io_red_tbl_write index word s = io_reg_write64 (red_table_entry index) word s

  pub io_red_tbl_read : ℕ → State → ℕ × State
  io_red_tbl_read index s = io_reg_read64 (red_table_entry index) s
