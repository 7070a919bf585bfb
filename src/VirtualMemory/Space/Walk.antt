-- ===== src/VirtualMemory/Space/Walk.antt =====
-- The walk of the processor over the tables that the constructor of `KernelAddressSpace` leaves.
use nite_os_project.Common.{
  ℕ, ◌+◌, ◌*◌, ◌/◌, ◌%◌, ◌^◌, ◌<◌, ◌≤◌, ◌≡◌, refl, ap, ◌∙◌, arith, true, false, not, if◌then◌else◌,
  Option, none, some,
}
use nite_os_project.VirtualMemory.{
  Tables, kernel_virtual_base, pml4_index, pdpt_index, pdir_index, page_index, is_present,
  set_page_frame,
}
use nite_os_project.VirtualMemory.Frames.{frame_of}
use nite_os_project.VirtualMemory.Convert.{IsKernel, pml4_index_lem, pdpt_index_lem, pdir_index_lem}
use nite_os_project.VirtualMemory.Heap.{is_huge}
use nite_os_project.VirtualMemory.Space.{Places, map_io, map_kernel, new_kernel_space, physical}
use nite_os_project.VirtualMemory.Space.Entries.{
  fill_lem, fresh_frame, is_present_flags, is_huge_flags,
}

-- From the directory with an entry on.
abbrev pub walk_dir : (ℕ → ℕ → ℕ) → ℕ → ℕ → Option ℕ
walk_dir read entry v =
    let page = read (frame_of entry) (page_index v) in
    if not (is_present entry)
    then none
    else if is_huge entry
    then some (frame_of entry / 0x200000 * 0x200000 + v % 0x200000)
    else if is_present page
    then some (frame_of page + v % 4096)
    else none

-- The manual's walk from the table at `root` on, where `read` gives the entry of a table at a physical
-- address.
abbrev pub walk : (ℕ → ℕ → ℕ) → ℕ → ℕ → Option ℕ
walk read root v =
    let top = read root (pml4_index v) in
    let pointer = read (frame_of top) (pdpt_index v) in
    if not (is_present top)
    then none
    else if not (is_present pointer)
    then none
    else if is_huge pointer
    then some (frame_of pointer / 0x40000000 * 0x40000000 + v % 0x40000000)
    else walk_dir read (read (frame_of pointer) (pdir_index v)) v

-- A whole page in the GiB of the kernel's image.
abbrev pub IsPlace : ℕ → Type 0
IsPlace p = (p % 4096 ≡ 0) × (kernel_virtual_base ≤ p) × (p < kernel_virtual_base + 2 ^ 30)

abbrev pub IsPlaced : Places → Type 0
IsPlaced at =
    IsPlace at.pdpts_at × IsPlace at.kernel_dirs_at × ((i : ℕ) → i < 4 → IsPlace (at.io_at i))

-- Where the processor reads the tables.
abbrev pub Holds : (ℕ → ℕ → ℕ) → ℕ → Places → Tables → Type 0
Holds read root at t =
    ((i : ℕ) → read root i ≡ t.pml4 i)
    × ((i : ℕ) → read (physical at at.pdpts_at) i ≡ t.pdpts i)
    × ((i : ℕ) → read (physical at at.kernel_dirs_at) i ≡ t.kernel_dirs i)
    × ((k i : ℕ) → k < 4 → read (physical at (at.io_at k)) i ≡ t.io_mappings k i)

-- Tables in memory that holds 0.
abbrev pub IsCleared : Tables → Type 0
IsCleared s = ((i : ℕ) → s.kernel_dirs i ≡ 0) × ((k i : ℕ) → s.io_mappings k i ≡ 0)

-- An entry that points to a table.
pointing :
    (p : ℕ)
    → IsPlace p
    → (at : Places)
    → (is_present (set_page_frame 0 (physical at p) 3) ≡ true)
      × (is_huge (set_page_frame 0 (physical at p) 3) ≡ false)
      × (frame_of (set_page_frame 0 (physical at p) 3) ≡ physical at p)
pointing p (h, low, high) at =
    let place : physical at p % 4096 ≡ 0 = omega arith in
    let e = fresh_frame (physical at p) 3 place (omega arith) (omega arith) in
    (
      ap is_present e ∙ is_present_flags (physical at p) place 3 refl,
      ap is_huge e ∙ is_huge_flags (physical at p) 3 place (omega arith),
      ap frame_of e ∙ omega arith,
    )

-- An entry for a page of 2 MiB.
pub walk_dir-huge :
    (read : ℕ → ℕ → ℕ) (base v : ℕ)
    → base % 0x200000 ≡ 0
    → base < 2 ^ 48
    → walk_dir read (set_page_frame 0 base 0x93) v ≡ some (base + v % 0x200000)
walk_dir-huge read base v h b =
    let place : base % 4096 ≡ 0 = omega arith in
    let e = fresh_frame base 0x93 place b (omega arith) in
    let present = is_present_flags base place 0x93 refl in
    let huge : is_huge (base + 0x93) ≡ true = is_huge_flags base 0x93 place (omega arith) in
    rw (e, present, huge) (ap some (omega arith))

module _ (read : ℕ → ℕ → ℕ) (root : ℕ) (at : Places) (s : Tables) (placed : IsPlaced at)
    (holds : Holds read root at (new_kernel_space at s)) where
  -- Through the two upper tables.
  pub walk_upper :
      (v p : ℕ)
      → IsKernel v
      → IsPlace p
      → (new_kernel_space at s).pdpts (pdpt_index v) ≡ set_page_frame 0 (physical at p) 3
      → walk read root v ≡ walk_dir read (read (physical at p) (pdir_index v)) v
  unfolding new_kernel_space map_io map_kernel
  walk_upper v p k place entry =
      let (tops, pointers, dirs, windows) = holds in
      let last : pml4_index v ≡ 511 = ground (arith, pml4_index_lem v k) in
      let top : read root (pml4_index v) ≡ set_page_frame 0 (physical at at.pdpts_at) 3 =
        ap (read root) last ∙ tops 511 in
      let (there, small, frame) = pointing at.pdpts_at placed.0 at in
      let pointer = pointers (pdpt_index v) ∙ entry in
      let (there2, small2, frame2) = pointing p place at in
      rw (top, there, frame, pointer, there2, small2, frame2) refl

  -- The processor translates each address of the first GiB from the base of the kernel on to the
  -- address less that base, as `ConvertVirtToPhys` does.
  pub walk-image :
      (offset : ℕ)
      → offset < 2 ^ 30
      → IsCleared s
      → walk read root (kernel_virtual_base + offset) ≡ some offset
  unfolding new_kernel_space map_io map_kernel
  walk-image offset h clear =
      let v = kernel_virtual_base + offset in
      let (tops, pointers, dirs, windows) = holds in
      let i = offset / 0x200000 in
      let third : pdpt_index v ≡ 510 = omega (arith, pdpt_index_lem v) in
      let second : pdir_index v ≡ i = omega (arith, pdir_index_lem v) in
      let entry : read (physical at at.kernel_dirs_at) (pdir_index v)
          ≡ set_page_frame 0 (0x200000 * i) 0x93 =
        ap (read (physical at at.kernel_dirs_at)) second
        ∙ dirs i
        ∙ fill_lem 512 _ s.kernel_dirs i (omega arith) (omega arith) (omega arith)
        ∙ ap (λ (e : ℕ). set_page_frame e (0x200000 * i) 0x93) (clear.0 i) in
      walk_upper v at.kernel_dirs_at (omega arith, omega arith) placed.1
        (ap (new_kernel_space at s).pdpts third ∙ refl)
      ∙ ap (λ (e : ℕ). walk_dir read e v) entry
      ∙ walk_dir-huge read (0x200000 * i) v (omega arith) (omega arith)
      ∙ ap some (omega arith)
