-- ===== src/Paging/Map.antt =====
-- The pages of an address space in Kernel/src/platforms/x86_64/hwmem.cpp: `X64Pages::alloc4KPages` from
-- the index on that its bitmap has found.
pub mod Tables
pub mod Mapped
mod Tests
use nite_os_project.Common.{
  ℕ, zero, suc, ◌+◌, ◌*◌, ◌/◌, ◌^◌, bit_and, Bool, true, false, ◌&&◌, ◌==◌, if◌then◌else◌, ◌>>=◌,
  Option, none, some, update,
}
use nite_os_project.Common.Words.{add64, sub64, mul64}
use nite_os_project.Common.Bitfield.{write}
use nite_os_project.Paging.Layout.{bit_of, page_frame, kernel_virtual_base, io_virtual_base}
use nite_os_project.Paging.Entry.{
  layout, present, writable, user, write_through, cache_disabled, address,
}

-- `copyAsIoAddress`.
unfoldable pub copy_as_io_address : ℕ → ℕ
copy_as_io_address physical = add64 io_virtual_base physical

-- The pointer table, and the directories and tables that exist, each entry a word. An address
-- space is 512 directories of 512 tables of 512 pages.
pub record X64Pages : Type 0 where
  pub pdpt : ℕ → ℕ
  pub page_dirs : ℕ → Option (ℕ → ℕ)
  pub page_tables : ℕ → ℕ → Option (ℕ → ℕ)

-- The parts of an index into the bitmap.
abbrev pub dir_index : ℕ → ℕ
dir_index index = bit_and (index / 2 ^ 18) 0x1FF

abbrev pub table_index : ℕ → ℕ
table_index index = bit_and (index / 2 ^ 9) 0x1FF

abbrev pub page_index : ℕ → ℕ
page_index index = bit_and index 0x1FF

-- The addresses of the members `_pageDirs[i]` and `_pageTables[i][j]`, what the memory holds that
-- `new` takes for `_pageTables[i]` and does not clear, and the flags asked for.
module _ (dirs_at : ℕ → ℕ) (tables_at : ℕ → ℕ → ℕ) (new_array : ℕ → ℕ → Option (ℕ → ℕ))
    (zero_page : ℕ) (is_rw pwt pcd : Bool) where
  -- The calls of the setters of an entry.
  pub configure : ℕ → ℕ → ℕ
  configure target flags = write layout address (bit_and target page_frame) (
      write layout cache_disabled (bit_of pcd) (
        write layout write_through (bit_of pwt) (
          write layout user 1
            (write layout writable (bit_of is_rw) (write layout present 1 flags)))))

  -- What a missing directory does, by the one there is.
  pub add_dir : X64Pages → ℕ → Option (ℕ → ℕ) → X64Pages
  add_dir s i (some dir) = s
  add_dir s i none = record s {
    page_dirs = update s.page_dirs i (some (λ j. 0));
    page_tables = update s.page_tables i (new_array i);
    pdpt = update s.pdpt i (configure (sub64 (dirs_at i) kernel_virtual_base) (s.pdpt i));
  }

  -- What a missing table does, by the one there is; `none` reads through a null pointer.
  pub add_table : X64Pages → ℕ → ℕ → Option (ℕ → ℕ) → Option X64Pages
  add_table s i j (some table) = some s
  add_table s i j none = s.page_dirs i >>= λ dir. some (record s {
    page_tables = update s.page_tables i (update (s.page_tables i) j (some (λ k. 0)));
    page_dirs =
        update s.page_dirs i
          (some (update dir j (configure (sub64 (tables_at i j) kernel_virtual_base) (dir j))));
  })

  pub map_page : X64Pages → ℕ → ℕ → ℕ → Option X64Pages
  map_page s i j k = s.page_tables i j >>= λ table. some (record s {
    page_tables =
        update s.page_tables i
          (update (s.page_tables i) j (some (update table k (configure zero_page (table k)))));
  })

  -- A round of the loop.
  pub alloc_page : X64Pages → ℕ → Option X64Pages
  alloc_page s index =
      let i = dir_index index in
      let j = table_index index in
      let s = add_dir s i (s.page_dirs i) in
      add_table s i j (s.page_tables i j) >>= λ s. map_page s i j (page_index index)

  -- The loop, and the value that it returns.
  pub alloc_loop : ℕ → ℕ → X64Pages → Option (X64Pages × ℕ)
  alloc_loop zero index s = some (s, mul64 index (2 ^ 12))
  alloc_loop (suc amount) index s = alloc_page s index >>= λ s. alloc_loop amount (add64 index 1) s

  -- `alloc4KPages`, where `findFree` gives the index.
  pub alloc_4k_pages : (ℕ → ℕ) → ℕ → X64Pages → Option (X64Pages × ℕ)
  alloc_4k_pages find_free amount s = alloc_loop amount (find_free amount) s
