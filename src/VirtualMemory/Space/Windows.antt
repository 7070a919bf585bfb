-- ===== src/VirtualMemory/Space/Windows.antt =====
-- The windows for input and output that the constructor of `KernelAddressSpace` maps.
use nite_os_project.Common.{
  ℕ, zero, suc, ◌+◌, ◌*◌, ◌/◌, ◌%◌, ◌^◌, ◌<◌, ◌≡◌, refl, ap, ◌∙◌, arith, false, ltb, some,
}
use nite_os_project.Common.Words.{add64}
use nite_os_project.VirtualMemory.{
  Tables, io_virtual_base, pdpt_index, pdir_index, set_page_frame, get_io_mapping,
}
use nite_os_project.VirtualMemory.Convert.{pdpt_index_lem, pdir_index_lem}
use nite_os_project.VirtualMemory.Space.{
  Places, fill, map_io, map_kernel, new_kernel_space, physical,
}
use nite_os_project.VirtualMemory.Space.Entries.{fill_lem}
use nite_os_project.VirtualMemory.Space.Walk.{
  walk, walk_dir, walk_dir-huge, walk_upper, IsPlaced, Holds, IsCleared,
}

module _ (at : Places) (s : Tables) where
  window :
      (k : ℕ)
      → k < 4
      → (new_kernel_space at s).pdpts (506 + k) ≡ set_page_frame 0 (physical at (at.io_at k)) 3
  unfolding new_kernel_space map_io map_kernel
  window zero h = refl
  window (suc zero) h = refl
  window (suc (suc zero)) h = refl
  window (suc (suc (suc zero))) h = refl
  window (suc (suc (suc (suc k)))) h = absurd (omega arith)

  filled :
      (k : ℕ)
      → k < 4
      → (new_kernel_space at s).io_mappings k
        ≡ fill 512
            (λ j old. set_page_frame old (0x40000000 * k + 0x200000 * j) 0x93)
            (s.io_mappings k)
  unfolding new_kernel_space map_io map_kernel
  filled zero h = refl
  filled (suc zero) h = refl
  filled (suc (suc zero)) h = refl
  filled (suc (suc (suc zero))) h = refl
  filled (suc (suc (suc (suc k)))) h = absurd (omega arith)

-- For an address below 4 GiB `GetIOMapping` gives one that the processor translates back to it.
pub walk-get_io_mapping :
    (read : ℕ → ℕ → ℕ) (root : ℕ) (at : Places) (s : Tables) (addr : ℕ)
    → IsPlaced at
    → Holds read root at (new_kernel_space at s)
    → IsCleared s
    → addr < 2 ^ 32
    → (v : ℕ) × (get_io_mapping addr ≡ some v) × (walk read root v ≡ some addr)
unfolding get_io_mapping
walk-get_io_mapping read root at s addr placed holds clear h =
    let v = io_virtual_base + addr in
    let k = addr / 2 ^ 30 in
    let j = addr / 2 ^ 21 % 512 in
    let low : ltb 0xFFFFFFFF addr ≡ false = ground arith in
    let sum : add64 addr io_virtual_base ≡ v = omega arith in
    let small : k < 4 = omega arith in
    let third : pdpt_index v ≡ 506 + k = omega (arith, pdpt_index_lem v) in
    let second : pdir_index v ≡ j = omega (arith, pdir_index_lem v) in
    let base = 0x40000000 * k + 0x200000 * j in
    let (tops, pointers, dirs, windows) = holds in
    let entry : read (physical at (at.io_at k)) (pdir_index v) ≡ set_page_frame 0 base 0x93 =
      ap (read (physical at (at.io_at k))) second
      ∙ windows k j small
      ∙ ap (λ (f : ℕ → ℕ). f j) (filled at s k small)
      ∙ fill_lem 512 _ (s.io_mappings k) j (omega arith) (omega arith) (omega arith)
      ∙ ap (λ (e : ℕ). set_page_frame e base 0x93) (clear.1 k j) in
    (
      v,
      rw (low, sum) refl,
      walk_upper read root at s placed holds v (at.io_at k) (omega arith, omega arith)
            (placed.2 k small) (ap (new_kernel_space at s).pdpts third ∙ window at s k small)
          ∙ ap (λ (e : ℕ). walk_dir read e v) entry
          ∙ walk_dir-huge read base v (omega arith) (omega arith)
          ∙ ap some (omega arith),
    )
