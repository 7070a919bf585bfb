-- ===== src/VirtualMemory/Heap.antt =====
-- The pages of the heap of the older kernel: `KernelAllocate4KPages` of src/Arch/x86_64/MMU.cpp, and
-- `KernelAddressSpace::Allocate4KPages` of src/Arch/x86_64/AddressSpace.cpp from the point on where it
-- has its physical pages. `none` is the panic, or an access outside of the 512 tables.
pub mod Runs
pub mod Marks
pub mod Allocate
use nite_os_project.Common.{
  ℕ, zero, suc, ◌+◌, ◌-◌, ◌*◌, ◌/◌, ◌%◌, ◌^◌, bit_and, bit_or, Bool, true, false, not, ◌&&◌, ltb,
  leb, ◌==◌, if◌then◌else◌, ◌>>=◌, Option, none, some, update,
}
use nite_os_project.Common.Words.{add64, sub64}
use nite_os_project.VirtualMemory.{
  Tables, kernel_virtual_base, is_present, set_page_flags, set_page_frame, set_entry,
}

-- `pageDirOffset`, `offset` and `counter`
pub record Run : Type 0 where
  pub dir : ℕ
  pub offset : ℕ
  pub counter : ℕ

-- A search that goes on, or has found its run.
pub data Search : Type 0 where
  going found : Run → Search

-- `0x80` of a directory entry: a page of 2 MiB.
abbrev pub is_huge : ℕ → Bool
is_huge entry = not (bit_and entry 0x80 == 0)

-- The address that the heap gives.
abbrev pub heap_address : Run → ℕ
heap_address run = bit_or (run.dir * 0x200000 + run.offset * 0x1000) 0xFFFFFFFFC0000000

abbrev pub no_run : Run
no_run = record { dir = 0; offset = 0; counter = 0 }

-- The tables stand one behind the other from `heap_at` on.
module _ (heap_at : ℕ) where
  -- `kernelHeapPageTables[i][j]`
  abbrev pub heap_entry : Tables → ℕ → ℕ → ℕ
  heap_entry s i j = s.entries (heap_at + 4096 * i) j

  -- A round of the inner loop.
  unfoldable pub search_page : Tables → ℕ → ℕ → ℕ → Run → Search
  search_page s amount i j run =
      let counted : Run = record run { counter = run.counter + 1 } in
      if is_present (heap_entry s i j)
      then going (record { dir = i; offset = j + 1; counter = 0 })
      else if leb amount counted.counter
      then found counted
      else going counted

  -- The inner loop, by the rounds that are left of 512.
  unfoldable pub search_table : Tables → ℕ → ℕ → ℕ → Run → Search
  search_table s amount i zero run = going run
  search_table s amount i (suc left) run = elim (search_page s amount i (511 - left) run) [
    | found r ↦ found r
    | going r ↦ search_table s amount i left r
  ]

  -- The first outer loop, in the same way.
  pub search_dirs : Tables → ℕ → ℕ → Run → Search
  search_dirs s amount zero run = going run
  search_dirs s amount (suc left) run =
      let i = 511 - left in
      let passed = search_dirs s amount left (record { dir = i + 1; offset = 0; counter = 0 }) in
      if is_present (s.heap_dirs i) && not (is_huge (s.heap_dirs i))
      then elim (search_table s amount i 512 run) [
        | found r ↦ found r
        | going r ↦ search_dirs s amount left r
      ]
      else passed

  -- `SetPageFlags` of so many pages.
  pub mark_pages : ℕ → Tables → ℕ → ℕ → Option Tables
  mark_pages zero s dir offset = some s
  mark_pages (suc n) s dir offset =
      let i = if leb 512 offset then dir + 1 else dir in
      let j = if leb 512 offset then 0 else offset in
      let marked = set_entry s (heap_at + 4096 * i) j (set_page_flags (heap_entry s i j) 0x3) in
      let rest = mark_pages n marked i (j + 1) in if ltb i 512 then rest else none

  -- The second outer loop, over directories that do not exist.
  pub search_free : Tables → ℕ → ℕ → Run → Search
  search_free s amount zero run = going run
  search_free s amount (suc left) run =
      let i = 511 - left in
      let counted : Run = record run { counter = run.counter + 512 } in
      let more = search_free s amount left counted in
      let passed = search_free s amount left (record { dir = i + 1; offset = 0; counter = 0 }) in
      if is_present (s.heap_dirs i)
      then passed
      else if leb amount counted.counter
      then found counted
      else more

  pub add_dir : Tables → ℕ → Tables
  add_dir s i = record s {
    heap_dirs =
        update s.heap_dirs i
          (set_page_frame (s.heap_dirs i) (sub64 (heap_at + 4096 * i) kernel_virtual_base) 0x3);
  }

  -- The pages that it takes there, with the directory of each new table.
  pub add_pages : ℕ → Tables → ℕ → ℕ → Option Tables
  add_pages zero s dir offset = some s
  add_pages (suc n) s dir offset =
      let i = if leb 512 offset then dir + 1 else dir in
      let j = if leb 512 offset then 0 else offset in
      let added = if leb 512 offset then add_dir s i else s in
      let marked =
        set_entry added (heap_at + 4096 * i) j (set_page_flags (heap_entry added i j) 0x3) in
      let rest = add_pages n marked i (j + 1) in if ltb i 512 then rest else none

  -- What follows the first loop where it finds nothing.
  pub take_free : Tables → ℕ → Search → Option (Tables × ℕ)
  take_free s amount (going run) = none
  take_free s amount (found run) =
      let address =
        bit_or
          (0x8000000000 * 511
            + 0x40000000 * 511 % 2 ^ 32
            + (run.dir * 0x200000 + run.offset * 0x1000))
          0xFFFF000000000000 in
      add_pages amount (add_dir s run.dir) run.dir run.offset >>= λ t. some (t, address)

  -- What follows the first loop.
  pub take_run : Tables → ℕ → Search → Option (Tables × ℕ)
  take_run s amount (found run) =
      mark_pages run.counter s run.dir run.offset >>= λ t. some (t, heap_address run)
  take_run s amount (going run) = take_free s amount (search_free s amount 512 no_run)

  -- `KernelAllocate4KPages`
  pub kernel_allocate : Tables → ℕ → Option (Tables × ℕ)
  kernel_allocate s amount = take_run s amount (search_dirs s amount 512 no_run)
