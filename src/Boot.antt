-- ===== src/Boot.antt =====
-- What the kernel learns of the memory at its start: `kload_st2` of
-- Kernel/src/platforms/x86_64/boot-stivale2.cpp, and `BlockAlloc` of Kernel/src/siberix/mem/page_block.cpp,
-- which reads it. The layout of the boot loader's tags is that of the stivale2 protocol.
pub mod Memory
pub mod Tags
mod Tests
use nite_os_project.Common.{
  ℕ, zero, suc, ◌+◌, ◌%◌, ◌^◌, Bool, true, false, not, ltb, leb, ◌==◌, ◌||◌, if◌then◌else◌, ◌>>=◌,
  Option, none, some, List, [], ◌∷◌, ◌++◌, length, get_elem?, set,
}
use nite_os_project.Common.Words.{add64, sub64}
use nite_os_project.Align.{align_up, align_down}

pub record Memmap : Type 0 where
  pub min : ℕ
  pub max : ℕ
  pub kind : ℕ

pub record Mem : Type 0 where
  pub total_size : ℕ
  pub usable_size : ℕ
  pub ranges : List Memmap

-- An entry of the boot loader's map.
pub record MmapEntry : Type 0 where
  pub base : ℕ
  pub length : ℕ
  pub type_of : ℕ

-- The inner `switch`: the type by the protocol's, none where no case fits.
pub boot_type : ℕ → Option ℕ
boot_type type_of =
    if type_of == 1
    then some 1
    else if type_of == 0x1001
    then some 2
    else if type_of == 3
    then some 3
    else if type_of == 4
    then some 4
    else if type_of == 5
    then some 5
    else if type_of == 0x1000
    then some 6
    else if type_of == 2
    then some 7
    else none

-- The assignment to `_ranges->_type`, which is that of the first range.
pub set_first_type : Option ℕ → List Memmap → List Memmap
set_first_type none ranges = ranges
set_first_type (some kind) [] = []
set_first_type (some kind) (r ∷ ranges) = record r { kind = kind } ∷ ranges

-- A round of the loop over the entries; `none` is a write behind the ranges.
pub read_entry : Mem → ℕ → MmapEntry → Option Mem
read_entry mem i entry =
    let range : Memmap = record {
      min = entry.base;
      max = add64 entry.base entry.length;
      kind = entry.type_of % 2 ^ 8;
    } in
    if ltb i (length mem.ranges)
    then some (record mem {
      total_size = add64 mem.total_size entry.length;
      usable_size =
          if entry.type_of == 1 then add64 mem.usable_size entry.length else mem.usable_size;
      ranges = set_first_type (boot_type entry.type_of) (set mem.ranges i range);
    })
    else none

pub read_map : Mem → ℕ → List MmapEntry → Option Mem
read_map mem i [] = some mem
read_map mem i (entry ∷ entries) = read_entry mem i entry >>= λ mem. read_map mem (suc i) entries

-- A tag: the memory map, or one that leaves the memory as it is.
pub data Tag : Type 0 where
  memmap : List MmapEntry → Tag
  other : Tag

pub read_tag : Mem → Tag → Option Mem
read_tag mem (memmap entries) = read_map mem 0 entries
read_tag mem other = some mem

-- The loop over the tags, which begins each round at the same one; `none` is that the fuel did not do,
-- or a write out of bounds. Behind the loop `setupKernel` is called.
pub tag_loop : ℕ → Mem → Option Tag → Option Mem
tag_loop zero mem tag = none
tag_loop (suc fuel) mem none = some mem
tag_loop (suc fuel) mem (some tag) = read_tag mem tag >>= λ mem. tag_loop fuel mem (some tag)

-- The loop of `BlockAlloc::BlockAlloc`, which looks at the first range in each round and does not count
-- `i` up: the first range that it sets, by fuel.
pub block_loop : ℕ → Memmap → Option Memmap → Option (Option Memmap)
block_loop zero range found = none
block_loop (suc fuel) range found =
    let skipped = block_loop fuel range found in
    let aligned : Memmap = record range {
      min = align_up range.min 4096;
      max = align_down range.max 4096;
    } in
    let taken = block_loop fuel range (some aligned) in
    if not (range.max == 0)
    then some found
    else if not (range.kind == 1) || ltb (sub64 range.max range.min) 4096
    then skipped
    else taken
