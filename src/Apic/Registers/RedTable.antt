-- ===== src/Apic/Registers/RedTable.antt =====
-- Entries of the redirection table keep what is written to the bits that software writes.
use nite_os_project.Common.{
  ℕ, ◌+◌, ◌*◌, ◌/◌, ◌%◌, ◌^◌, ◌<◌, ◌≡◌, ◌≢◌, sym, ap, ◌∙◌, subst, arith, bit_and, bit_or,
}
use mathlib.Core.Path.{ap₂}
use nite_os_project.Common.Bits.{bit_and_ones, bit_or_disjoint, bit_or_comm}
use nite_os_project.Common.Blocks.{bit_and_cut}
use nite_os_project.Common.Words.{add32}
use nite_os_project.Apic.Registers.{
  Window, IsWindow, writable_bits, io_reg_write32, io_reg_read32, io_reg_write64, io_reg_read64,
  red_table_entry, io_red_tbl_write, io_red_tbl_read,
}

-- The bits of an entry that software writes.
abbrev pub entry_bits : ℕ
entry_bits = 0xFF0000000001AFFF

entry_halves :
    (low high : ℕ)
    → low < 2 ^ 32
    → bit_and (bit_or low (high * 2 ^ 32)) entry_bits
      ≡ bit_and high 0xFF000000 * 2 ^ 32 + bit_and low 0x0001AFFF
entry_halves low high small =
    ap (λ (t : ℕ). bit_and t entry_bits)
      (bit_or_comm low (high * 2 ^ 32) ∙ bit_or_disjoint 32 high low small)
    ∙ bit_and_cut 32 high low 0xFF000000 0x0001AFFF small (omega arith)

word_halves :
    (word : ℕ)
    → bit_and word entry_bits
      ≡ bit_and (word / 2 ^ 32) 0xFF000000 * 2 ^ 32 + bit_and (word % 2 ^ 32) 0x0001AFFF
word_halves word =
    let split : word ≡ word / 2 ^ 32 * 2 ^ 32 + word % 2 ^ 32 = omega arith in
    ap (λ (t : ℕ). bit_and t entry_bits) split
    ∙ bit_and_cut 32 (word / 2 ^ 32) (word % 2 ^ 32) 0xFF000000 0x0001AFFF (omega arith)
        (omega arith)

writable_low : (i : ℕ) → i < 24 → writable_bits (0x10 + 2 * i) ≡ 0x0001AFFF
unfolding writable_bits
writable_low i h = ground arith

writable_high : (i : ℕ) → i < 24 → writable_bits (0x10 + 2 * i + 1) ≡ 0xFF000000
unfolding writable_bits
writable_high i h = ground arith

module _ (w : Window) (is : IsWindow w) where
  open w use {State}
  open is use {
    selected, register, register-lt, read-register, select-selected, select-register,
    window-register, window-others,
  }

  -- The bits of a register that software writes.
  abbrev written_bits : State → ℕ → ℕ
  written_bits s q = bit_and (register s q) (writable_bits q)

  select_here : (r : ℕ) (s : State) → r < 2 ^ 8 → selected (w.write_select r s) ≡ r
  select_here r s h = let same : r % 2 ^ 8 ≡ r = omega arith in select-selected r s ∙ same

  write32-same :
      (r d : ℕ) (s : State)
      → r < 2 ^ 8
      → d < 2 ^ 32
      → written_bits (io_reg_write32 w r d s) r ≡ bit_and d (writable_bits r)
  unfolding io_reg_write32
  write32-same r d s small word =
      subst
        (λ (q : ℕ).
          bit_and (register (w.write_window d (w.write_select r s)) q) (writable_bits q)
          ≡ bit_and d (writable_bits q))
        (select_here r s small) (window-register d (w.write_select r s) word)

  write32-others :
      (r q d : ℕ) (s : State)
      → r < 2 ^ 8
      → q ≢ r
      → written_bits (io_reg_write32 w r d s) q ≡ written_bits s q
  unfolding io_reg_write32
  write32-others r q d s small ne =
      window-others d q (w.write_select r s) (λ e. ne (e ∙ select_here r s small))
      ∙ select-register r q s

  -- What a read of a register gives.
  read32-lt : (r : ℕ) (s : State) → (io_reg_read32 w r s).0 < 2 ^ 32
  unfolding io_reg_read32
  read32-lt r s =
      subst (λ (v : ℕ). v < 2 ^ 32) (sym (read-register (w.write_select r s)))
        (register-lt (w.write_select r s) (selected (w.write_select r s)))

  read32-bits :
      (r : ℕ) (s : State)
      → r < 2 ^ 8
      → bit_and (io_reg_read32 w r s).0 (writable_bits r) ≡ written_bits s r
  unfolding io_reg_read32
  read32-bits r s small =
      ap (λ (v : ℕ). bit_and v (writable_bits r))
        (read-register (w.write_select r s)
          ∙ ap (register (w.write_select r s)) (select_here r s small))
      ∙ select-register r r s

  -- The read and the write of an entry, from its register `r` on, whose next one is `n`.
  module _ (r n : ℕ) (next : add32 r 1 ≡ n) (br : r < 2 ^ 8) (bn : n < 2 ^ 8) where
    write64-low :
        (word : ℕ) (s : State)
        → n ≢ r
        → written_bits (io_reg_write64 w r word s) r ≡ bit_and (word % 2 ^ 32) (writable_bits r)
    unfolding io_reg_write64
    write64-low word s ne =
        let low = io_reg_write32 w r (bit_and word 0xFFFFFFFF) s in
        let cut = bit_and_ones 32 word in
        rw next (
          write32-others n r (word / 2 ^ 32 % 2 ^ 32) low bn (λ e. ne (sym e))
          ∙ write32-same r (bit_and word 0xFFFFFFFF) s br (omega (arith, cut))
          ∙ ap (λ (v : ℕ). bit_and v (writable_bits r)) cut)

    write64-high :
        (word : ℕ) (s : State)
        → written_bits (io_reg_write64 w r word s) n
          ≡ bit_and (word / 2 ^ 32 % 2 ^ 32) (writable_bits n)
    unfolding io_reg_write64
    write64-high word s = rw next (
        write32-same n (word / 2 ^ 32 % 2 ^ 32) (io_reg_write32 w r (bit_and word 0xFFFFFFFF) s) bn
          (omega arith))

    write64-others :
        (q word : ℕ) (s : State)
        → q ≢ r
        → q ≢ n
        → written_bits (io_reg_write64 w r word s) q ≡ written_bits s q
    unfolding io_reg_write64
    write64-others q word s ne other = rw next (
        write32-others n q (word / 2 ^ 32 % 2 ^ 32) (io_reg_write32 w r (bit_and word 0xFFFFFFFF) s)
          bn other
        ∙ write32-others r q (bit_and word 0xFFFFFFFF) s br ne)

    read64-bits :
        (s : State)
        → writable_bits r ≡ 0x0001AFFF
        → writable_bits n ≡ 0xFF000000
        → bit_and (io_reg_read64 w r s).0 entry_bits ≡ written_bits s n * 2 ^ 32 + written_bits s r
    unfolding io_reg_read64 io_reg_read32
    read64-bits s low_bits high_bits =
        let after = (io_reg_read32 w r s).1 in
        let low = (io_reg_read32 w r s).0 in
        let high = (io_reg_read32 w n after).0 in
        let whole = entry_halves low high (read32-lt r s) in
        let low_part = ap (bit_and low) (sym low_bits) ∙ read32-bits r s br in
        let high_part =
          ap (bit_and high) (sym high_bits) ∙ read32-bits n after bn ∙ select-register r n s in
        rw next (whole ∙ ap₂ (λ h l. h * 2 ^ 32 + l) high_part low_part)

  -- Where the hardware is as documented, an entry of the redirection table, of those from 0 to 23,
  -- has in the bits that software writes what was written to them last in a word of 64 bits, and a
  -- write to another such entry leaves what these bits read as.
  pub io_red_tbl_read-io_red_tbl_write :
      (i j word : ℕ) (s : State)
      → i < 24
      → j < 24
      → word < 2 ^ 64
      → (bit_and (io_red_tbl_read w i (io_red_tbl_write w i word s)).0 entry_bits
          ≡ bit_and word entry_bits)
        × (j ≢ i
            → bit_and (io_red_tbl_read w j (io_red_tbl_write w i word s)).0 entry_bits
              ≡ bit_and (io_red_tbl_read w j s).0 entry_bits)
  unfolding io_red_tbl_read io_red_tbl_write red_table_entry
  io_red_tbl_read-io_red_tbl_write i j word s bi bj bw =
      let r = 0x10 + 2 * i in
      let q = 0x10 + 2 * j in
      let at_i : add32 0x10 (2 * i) ≡ r = omega arith in
      let at_j : add32 0x10 (2 * j) ≡ q = omega arith in
      let high : word / 2 ^ 32 % 2 ^ 32 ≡ word / 2 ^ 32 = omega arith in
      let written = io_reg_write64 w r word s in
      let read_i = read64-bits r (r + 1) (omega arith) (omega arith) (omega arith) in
      let read_j = read64-bits q (q + 1) (omega arith) (omega arith) (omega arith) in
      let low_part =
        write64-low r (r + 1) (omega arith) (omega arith) (omega arith) word s (omega arith)
        ∙ ap (bit_and (word % 2 ^ 32)) (writable_low i bi) in
      let high_part =
        write64-high r (r + 1) (omega arith) (omega arith) (omega arith) word s
        ∙ ap₂ bit_and high (writable_high i bi) in
      let others = write64-others r (r + 1) (omega arith) (omega arith) (omega arith) in
      rw (at_i, at_j)
        (
          read_i written (writable_low i bi) (writable_high i bi)
              ∙ ap₂ (λ h l. h * 2 ^ 32 + l) high_part low_part
              ∙ sym (word_halves word),
          (λ ne.
              read_j written (writable_low j bj) (writable_high j bj)
              ∙ ap₂ (λ h l. h * 2 ^ 32 + l) (others (q + 1) word s (omega arith) (omega arith))
                  (others q word s (omega arith) (omega arith))
              ∙ sym (read_j s (writable_low j bj) (writable_high j bj))),
        )
