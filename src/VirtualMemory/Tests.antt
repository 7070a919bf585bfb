-- ===== src/VirtualMemory/Tests.antt =====
-- The tables of a kernel in cleared memory, whose structures lie from its base on, and the theorems on
-- them.
use nite_os_project.Common.{
  ℕ, zero, suc, ◌+◌, ◌-◌, ◌*◌, ◌/◌, ◌^◌, ◌<◌, ◌≤◌, ◌≡◌, ◌⊎◌, refl, arith, ◌==◌, if◌then◌else◌, none,
  some,
}
use nite_os_project.VirtualMemory.{Tables, kernel_map, convert_virt_to_phys, get_io_mapping}
use nite_os_project.VirtualMemory.Heap.{Run, found, going, no_run, kernel_allocate}
use nite_os_project.VirtualMemory.Heap.Runs.{FreeRun, NoneBefore}
use nite_os_project.VirtualMemory.Heap.Marks.{IsMarked}
use nite_os_project.VirtualMemory.Heap.Allocate.{kernel_allocate_lem}
use nite_os_project.VirtualMemory.Space.{
  Places, new_kernel_space, physical, space_allocate, search_all, align_page, outside, gave,
}
use nite_os_project.VirtualMemory.Space.Walk.{walk, walk-image, IsPlaced, Holds}
use nite_os_project.VirtualMemory.Space.Windows.{walk-get_io_mapping}
use nite_os_project.VirtualMemory.Space.Ready.{
  new_kernel_space-HasTables, kernel_map-new_kernel_space,
}
use nite_os_project.VirtualMemory.Space.Endless.{space_allocate-outside}

abbrev places : Places
places = record {
  pdpts_at = 0xFFFFFFFF80000000;
  kernel_dirs_at = 0xFFFFFFFF80001000;
  heap_dirs_at = 0xFFFFFFFF80002000;
  heap_at = 0xFFFFFFFF80100000;
  io_at = λ i. 0xFFFFFFFF80003000 + 4096 * i;
}

abbrev cleared : Tables
cleared = record {
  pml4 = λ i. 0;
  pdpts = λ i. 0;
  kernel_dirs = λ i. 0;
  heap_dirs = λ i. 0;
  io_mappings = λ k i. 0;
  entries = λ table i. 0;
  pointers = λ i j. 0;
}

abbrev set_up : Tables
set_up = new_kernel_space places cleared

-- Where the processor finds them; the top table lies at 1 MiB.
abbrev reads : ℕ → ℕ → ℕ
reads table i =
    if table == 0x100000
    then set_up.pml4 i
    else if table == 0
    then set_up.pdpts i
    else if table == 0x1000
    then set_up.kernel_dirs i
    else set_up.io_mappings ((table - 0x3000) / 4096) i

places-IsPlaced : IsPlaced places
places-IsPlaced = (
  (refl, omega arith, omega arith),
  (refl, omega arith, omega arith),
  (λ i h. (omega arith, omega arith, omega arith)),
)

reads_window :
    (k i : ℕ) → k < 4 → reads (physical places (places.io_at k)) i ≡ set_up.io_mappings k i
reads_window zero i h = refl
reads_window (suc zero) i h = refl
reads_window (suc (suc zero)) i h = refl
reads_window (suc (suc (suc zero))) i h = refl
reads_window (suc (suc (suc (suc k)))) i h = absurd (omega arith)

reads-Holds : Holds reads 0x100000 places set_up
reads-Holds = ((λ i. refl), (λ i. refl), (λ i. refl), (λ k i h. reads_window k i h))

walk-image_example : walk reads 0x100000 0xFFFFFFFF80212345 ≡ some 0x212345
walk-image_example =
    walk-image reads 0x100000 places cleared places-IsPlaced reads-Holds 0x212345 (omega arith)
      ((λ i. refl), (λ k i. refl))

walk-get_io_mapping_example :
    (v : ℕ) × (get_io_mapping 0xFEC00000 ≡ some v) × (walk reads 0x100000 v ≡ some 0xFEC00000)
walk-get_io_mapping_example =
    walk-get_io_mapping reads 0x100000 places cleared 0xFEC00000 places-IsPlaced reads-Holds
      ((λ i. refl), (λ k i. refl)) (omega arith)

kernel_allocate_example :
    ((p : ℕ) × (t : Tables) × (kernel_allocate places.heap_at set_up 2
        ≡ some (t, 2 ^ 64 - 2 ^ 30 + 4096 * p))
      × (p + 2 ≤ 512 * 512)
      × FreeRun places.heap_at set_up 2 p 2
      × NoneBefore places.heap_at set_up 2 p
      × IsMarked places.heap_at set_up p 2 t)
    ⊎ (((m : ℕ) → m + 2 ≤ 512 * 512 → ¬ FreeRun places.heap_at set_up 2 m 2)
        × (kernel_allocate places.heap_at set_up 2 ≡ none))
kernel_allocate_example =
    kernel_allocate_lem places.heap_at set_up 2
      (new_kernel_space-HasTables places cleared (refl, omega arith, omega arith)
        ((λ i. refl), (λ i j. refl)))
      (omega arith)

kernel_map_example :
    (t : Tables) × (kernel_map 3 set_up 0x200000 0xFFFFFFFFC0000000 3 ≡ some t)
    × ((i : ℕ)
        → i < 3
        → convert_virt_to_phys t (0xFFFFFFFFC0000000 + 4096 * i) ≡ 0x200000 + 4096 * i)
kernel_map_example =
    kernel_map-new_kernel_space places cleared (refl, omega arith, omega arith)
      ((λ i. refl), (λ i j. refl)) 3 0x200000 0xFFFFFFFFC0000000 3 (omega arith) (omega arith) refl
      refl (omega arith) (omega arith) refl

space_allocate_example :
    ((run : Run) × (search_all places.heap_at set_up (align_page 1) 512 no_run ≡ found run)
      × (space_allocate places.heap_at 262145 set_up (some 0x200000) 1 ≡ outside))
    ⊎ ((run : Run) × (search_all places.heap_at set_up (align_page 1) 512 no_run ≡ going run)
        × (space_allocate places.heap_at 262145 set_up (some 0x200000) 1 ≡ gave set_up 0))
space_allocate_example =
    space_allocate-outside places.heap_at 262145 set_up 0x200000 1 (omega arith)
