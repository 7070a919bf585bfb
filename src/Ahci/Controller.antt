-- ===== src/Ahci/Controller.antt =====
-- The ports that Kernel/src/impls/ahci-controller.cpp makes disks of, and where the constructor in
-- Kernel/src/impls/ahci-disk.cpp puts the structures of a port.
pub mod Areas
pub mod Probe
use nite_os_project.Common.{
  ℕ, zero, suc, ◌+◌, ◌*◌, ◌/◌, ◌%◌, ◌^◌, bit_and, Bool, true, false, not, ◌&&◌, ◌||◌, ◌==◌,
  if◌then◌else◌, List, [], ◌∷◌,
}
use nite_os_project.Common.Words.{add32, add64}

-- `HBA_PxSSTS_DET_PRESENT`, `HBA_PORT_IPM_ACTIVE`, and the signatures of what is no disk.
abbrev pub det_present : ℕ
det_present = 3

abbrev pub ipm_active : ℕ
ipm_active = 1

pub is_other_device : ℕ → Bool
is_other_device sig = (sig == 0xEB140101) || (sig == 0xC33C0101) || (sig == 0x96690101)

-- The comparison with the state of the port.
pub is_attached : ℕ → Bool
is_attached ssts =
    let ipm = bit_and (ssts / 2 ^ 8) 0x0F in
    let det = bit_and ssts 0x0F in not (not (ipm == det_present) || not (det == ipm_active))

-- The loop over the ports from `i` on, by the rounds left; `status` is what a new disk says of itself.
pub probe_loop : ℕ → (ℕ → ℕ) → (ℕ → ℕ) → (ℕ → ℕ) → ℕ → ℕ → List ℕ
probe_loop implemented ssts sig status zero i = []
probe_loop implemented ssts sig status (suc n) i =
    let rest = probe_loop implemented ssts sig status n (suc i) in
    if bit_and implemented (2 ^ i) == 0
    then rest
    else if not (is_attached (ssts i))
    then rest
    else if is_other_device (sig i)
    then rest
    else if status i == 1
    then i ∷ rest
    else rest

pub probe : ℕ → (ℕ → ℕ) → (ℕ → ℕ) → (ℕ → ℕ) → List ℕ
probe implemented ssts sig status = probe_loop implemented ssts sig status 32 0

-- A 64-bit address in two registers.
pub record Split : Type 0 where
  pub low : ℕ
  pub high : ℕ

pub command_list : ℕ → ℕ → Split
command_list clb_phys port = record {
  low = add32 (bit_and clb_phys 0xFFFFFFFF) (port * 2 ^ 10);
  high = clb_phys / 2 ^ 32;
}

pub received_fis : ℕ → ℕ → Split
received_fis fb_phys port = record {
  low = add32 (bit_and fb_phys 0xFFFFFFFF) (port * 2 ^ 8);
  high = fb_phys / 2 ^ 32;
}

pub command_table : ℕ → ℕ → ℕ → Split
command_table ctba_phys port i =
    let phys = add64 (add64 ctba_phys (port * 2 ^ 13)) (i * 2 ^ 8) in
    record { low = bit_and phys 0xFFFFFFFF; high = phys / 2 ^ 32 }
