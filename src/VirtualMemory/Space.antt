-- ===== src/VirtualMemory/Space.antt =====
-- `KernelAddressSpace` of src/Arch/x86_64/AddressSpace.cpp: the tables that its constructor sets up,
-- and its `Allocate4KPages`.
pub mod Entries
pub mod Walk
pub mod Ready
pub mod Windows
pub mod Endless
use nite_os_project.Common.{
  ℕ, zero, suc, ◌+◌, ◌-◌, ◌*◌, ◌/◌, ◌%◌, ◌^◌, bit_and, bit_or, Bool, true, false, not, ◌&&◌, ltb,
  leb, ◌==◌, if◌then◌else◌, ◌>>=◌, Option, none, some, update,
}
use nite_os_project.Common.Words.{add64, sub64, mul64}
use nite_os_project.VirtualMemory.{
  Tables, kernel_virtual_base, io_virtual_base, pml4_index, pdpt_index, is_present, set_page_frame,
  set_entry,
}
use nite_os_project.VirtualMemory.Heap.{
  Run, Search, going, found, heap_address, heap_entry, search_table, no_run,
}

-- A loop over the 512 entries of a table, by the rounds that are left, with what it makes of each.
pub fill : ℕ → (ℕ → ℕ → ℕ) → (ℕ → ℕ) → ℕ → ℕ
fill zero f table = table
fill (suc left) f table = let i = 511 - left in fill left f (update table i (f i (table i)))

-- Where the structures of the kernel lie, which the linker chooses.
pub record Places : Type 0 where
  pub pdpts_at : ℕ
  pub kernel_dirs_at : ℕ
  pub heap_dirs_at : ℕ
  pub heap_at : ℕ
  pub io_at : ℕ → ℕ

module _ (at : Places) where
  -- `(uint64_t) pointer - KERNEL_VIRTUAL_BASE`
  abbrev pub physical : ℕ → ℕ
  physical pointer = sub64 pointer kernel_virtual_base

  -- The loop over the windows for input and output, by the rounds that are left of 4.
  pub map_io : ℕ → Tables → Tables
  map_io zero s = s
  map_io (suc left) s =
      let i = 3 - left in
      let place = pdpt_index io_virtual_base + i in
      map_io left (record s {
        pdpts = update s.pdpts place (set_page_frame (s.pdpts place) (physical (at.io_at i)) 0x03);
        io_mappings = update s.io_mappings i (
            fill 512 (λ j old. set_page_frame old (0x40000000 * i + 0x200000 * j) 0x93)
              (s.io_mappings i));
      })

  -- The entries for the kernel's image and heap, in tables that `memset` has cleared.
  pub map_kernel : Tables → Tables
  map_kernel s =
      let top = set_page_frame 0 (physical at.pdpts_at) 0x03 in
      let image = set_page_frame 0 (physical at.kernel_dirs_at) 0x03 in
      let heap = set_page_frame 0 (physical at.heap_dirs_at) 0x03 in
      record s {
        pml4 = update (update (λ i. 0) (pml4_index kernel_virtual_base) top) 0 top;
        pdpts = update (update (λ i. 0) (pdpt_index kernel_virtual_base) image) 511 heap;
        kernel_dirs = fill 512 (λ i old. set_page_frame old (0x200000 * i) 0x93) s.kernel_dirs;
        heap_dirs =
            fill 512 (λ i old. set_page_frame old (physical (at.heap_at + 4096 * i)) 0x03)
              s.heap_dirs;
        pointers =
            update s.pointers 511 (fill 512 (λ i old. at.heap_at + 4096 * i) (s.pointers 511));
      }

  pub new_kernel_space : Tables → Tables
  new_kernel_space s =
      let mapped = map_io 4 (map_kernel s) in
      record mapped {
        pdpts = update mapped.pdpts 0 (mapped.pdpts (pdpt_index kernel_virtual_base));
      }

-- `ALIGN_PAGE`
unfoldable pub align_page : ℕ → ℕ
align_page x =
    let x = sub64 x 1 in
    let x = bit_or x (x / 2 ^ 1) in
    let x = bit_or x (x / 2 ^ 2) in
    let x = bit_or x (x / 2 ^ 4) in
    let x = bit_or x (x / 2 ^ 8) in let x = bit_or x (x / 2 ^ 16) in add64 x 1

-- How `Allocate4KPages` comes out: with the tables and its answer, with a read through the null
-- pointer, with a write behind the 512 tables of the heap, or not within the fuel.
pub data Outcome : Type 0 where
  gave : Tables → ℕ → Outcome
  null_read outside unfinished : Outcome

module _ (heap_at : ℕ) where
  -- The outer loop of `Allocate4KPages`, by the rounds that are left of 512.
  pub search_all : Tables → ℕ → ℕ → Run → Search
  search_all s amount zero run = going run
  search_all s amount (suc left) run = elim (search_table heap_at s amount (511 - left) 512 run) [
    | found r ↦ found r
    | going r ↦ search_all s amount left r
  ]

  -- The loop that maps the run, on fuel. It does not count down.
  pub map_run : ℕ → Tables → ℕ → ℕ → Run → Outcome
  map_run zero s phys address run = unfinished
  map_run (suc fuel) s phys address run =
      let i = if leb 512 run.offset then run.dir + 1 else run.dir in
      let j = if leb 512 run.offset then 0 else run.offset in
      let frame = add64 phys (mul64 (i * 512 + j) 4096) in
      let mapped =
        set_entry s (heap_at + 4096 * i) j (set_page_frame (heap_entry heap_at s i j) frame 0x03) in
      let rest = map_run fuel mapped phys address (record run { dir = i; offset = j + 1 }) in
      if run.counter == 0 then gave s address else if ltb i 512 then rest else outside

  -- What follows the search; 0 is the answer where it finds nothing.
  pub take_pages : ℕ → Tables → ℕ → Search → Outcome
  take_pages fuel s phys (found run) = map_run fuel s phys (heap_address run) run
  take_pages fuel s phys (going run) = gave s 0

  -- `Allocate4KPages`, with the physical pages that it has been given, if any.
  pub space_allocate : ℕ → Tables → Option ℕ → ℕ → Outcome
  space_allocate fuel s none amount = null_read
  space_allocate fuel s (some phys) amount =
      take_pages fuel s phys (search_all s (align_page amount) 512 no_run)
