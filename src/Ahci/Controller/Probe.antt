-- ===== src/Ahci/Controller/Probe.antt =====
-- The state of a port is compared with the constants the wrong way round.
use nite_os_project.Common.{ℕ, zero, suc, ◌+◌, ◌%◌, ◌<◌, ◌≤◌, ◌≡◌, refl, arith, false, []}
use nite_os_project.Common.Bits.{bit_and_ones}
use nite_os_project.Ahci.Controller.{is_attached, probe_loop, probe}

-- As the standard has it, the low four bits are 3 where a device is there and speaks.
is_attached-present : (ssts : ℕ) → ssts % 16 ≡ 3 → is_attached ssts ≡ false
unfolding is_attached
is_attached-present ssts h = ground (arith, bit_and_ones 4 ssts)

probe_loop-present :
    (implemented : ℕ) (ssts sig status : ℕ → ℕ) (n i : ℕ)
    → ((k : ℕ) → i ≤ k → k < i + n → ssts k % 16 ≡ 3)
    → probe_loop implemented ssts sig status n i ≡ []
unfolding probe_loop
probe_loop-present implemented ssts sig status zero i all = refl
probe_loop-present implemented ssts sig status (suc n) i all =
    let skipped = is_attached-present (ssts i) (all i (omega arith) (omega arith)) in
    let rest =
      probe_loop-present implemented ssts sig status n (suc i)
        (λ k p q. all k (omega arith) (omega arith)) in
    ground (arith, skipped, rest)

-- Where the state of each of the 32 ports says that a device is there and speaks, the controller
-- makes a disk of none.
pub probe-present :
    (implemented : ℕ) (ssts sig status : ℕ → ℕ)
    → ((k : ℕ) → k < 32 → ssts k % 16 ≡ 3)
    → probe implemented ssts sig status ≡ []
unfolding probe
probe-present implemented ssts sig status all =
    probe_loop-present implemented ssts sig status 32 0 (λ k p q. all k (omega arith))
