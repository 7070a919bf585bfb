-- ===== src/Paging/Map/Mapped.antt =====
-- The pages that `alloc4KPages` maps, and the address that it returns.
use nite_os_project.Common.{ℕ, ◌^◌, ◌<◌, ◌≡◌, ◌≢◌, Bool, Option, none, some}
use nite_os_project.Paging.Map.{X64Pages, configure, add_dir, add_table, map_page}
use nite_os_project.Paging.Map.Tables.{entry_at}

module _ (dirs_at : ℕ → ℕ) (tables_at : ℕ → ℕ → ℕ) (new_array : ℕ → ℕ → Option (ℕ → ℕ))
    (zero_page : ℕ) (is_rw pwt pcd : Bool) where
  abbrev dir_added : X64Pages → ℕ → Option (ℕ → ℕ) → X64Pages
  dir_added = add_dir dirs_at tables_at new_array zero_page is_rw pwt pcd

  abbrev table_added : X64Pages → ℕ → ℕ → Option (ℕ → ℕ) → Option X64Pages
  table_added = add_table dirs_at tables_at new_array zero_page is_rw pwt pcd

  abbrev page_mapped : X64Pages → ℕ → ℕ → ℕ → Option X64Pages
  page_mapped = map_page dirs_at tables_at new_array zero_page is_rw pwt pcd

  -- The entry that a page gets.
  abbrev pub entry_of : ℕ → ℕ
  entry_of = configure dirs_at tables_at new_array zero_page is_rw pwt pcd zero_page

  -- The memory that `new` takes for an array of pointers to tables is 0.
  abbrev pub IsCleared : Type 0
  IsCleared = (i j : ℕ) → new_array i j ≡ none

  -- A round of the loop maps its page and keeps the entry of each other one.
  abbrev pub Maps : ℕ → X64Pages → X64Pages → Type 0
  Maps index s t =
      ((old : ℕ) × (entry_at t index ≡ some (entry_of old)))
      × ((other : ℕ) (word : ℕ)
          → other ≢ index
          → other < 2 ^ 27
          → entry_at s other ≡ some word
          → entry_at t other ≡ some word)
