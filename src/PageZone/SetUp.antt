-- ===== src/PageZone/SetUp.antt =====
-- `BuddyInit` of src/Memory/Page.cpp, which gives the blocks of the usable memory to the zone, and
-- `pageOf` of include/Mem/MemZone.h.
pub mod Blocks
pub mod Stuck
use nite_os_project.Common.{
  ℕ, zero, suc, ◌+◌, ◌-◌, ◌*◌, ◌/◌, ◌%◌, ◌^◌, ◌&&◌, ltb, ◌==◌, if◌then◌else◌, ◌>>=◌, Option, none,
  some, update,
}
use nite_os_project.Common.Words.{add64, sub64}
use nite_os_project.Links.{empty_entry}
use nite_os_project.PageZone.{Zone, add_node}

-- `PAGE_MAX_SIZE`, the bytes of a block.
abbrev pub page_max_size : ℕ
page_max_size = 0x400000

-- `ALIGN_UP` and `ALIGN_DOWN` to blocks.
pub block_down : ℕ → ℕ
block_down x = x - x % page_max_size

pub block_up : ℕ → ℕ
block_up x = block_down (add64 x (page_max_size - 1))

-- The record of a page, all bytes of it 0.
abbrev pub clear_page : ℕ → Zone → Zone
clear_page page z = record {
  links = update z.links page empty_entry;
  page_list = z.page_list;
  order = update z.order page 0;
  flags = update z.flags page 0;
  first_page = update z.first_page page 0;
  address = update z.address page 0;
}

-- A page record takes `size` bytes; `sections` has the records of each section.
module _ (size : ℕ) where
  -- `pageOf`
  unfoldable pub page_of : (ℕ → ℕ) → ℕ → ℕ
  page_of sections address =
      let sid = address / 2 ^ 30 % 2 ^ 32 in
      let offset = sub64 (address / 2 ^ 12) (sid * 262144 % 2 ^ 32) % 2 ^ 32 in
      add64 (sections sid) (offset * size)

  -- `memset` over the records of `n` pages.
  pub clear_pages : ℕ → ℕ → Zone → Zone
  clear_pages zero page z = z
  clear_pages (suc n) page z = clear_pages n (add64 page size) (clear_page page z)

  -- The loop over the pages of a block, by the rounds that are left of 1024.
  pub mark_block : ℕ → ℕ → ℕ → Zone → Zone
  mark_block zero pages current z = z
  mark_block (suc left) pages current z =
      let i = 1023 - left in
      let page = add64 pages (i * size) in
      mark_block left pages current (record z {
        flags = update z.flags page 1;
        first_page = update z.first_page page pages;
        address = update z.address page (add64 current (i * 4096));
      })

  -- What is done for a block, with its records at `pages`.
  pub init_block : Zone → ℕ → ℕ → Option Zone
  init_block z pages current =
      let marked = mark_block 1024 pages current (clear_pages 1024 pages z) in
      let ready : Zone = record marked { order = update marked.order pages 10 } in
      add_node ready.links (ready.page_list 10) pages >>= λ added.
      (let (m, list) = added in
        some (record ready { links = m; page_list = update ready.page_list 10 list }))

  -- The loop over the blocks of a range, on fuel.
  pub init_loop : ℕ → (ℕ → ℕ) → Zone → ℕ → ℕ → Option Zone
  init_loop zero sections z finish current = none
  init_loop (suc fuel) sections z finish current =
      let pages = page_of sections current in
      let one = if pages == 0 then some z else init_block z pages current in
      let rest = one >>= λ s. init_loop fuel sections s finish (add64 current page_max_size) in
      if ltb current (sub64 finish page_max_size) && ltb page_max_size finish then rest else some z

  -- `BuddyInit` for one range of the usable memory.
  abbrev pub init_range : ℕ → (ℕ → ℕ) → Zone → ℕ → ℕ → Option Zone
  init_range fuel sections z start finish =
      init_loop fuel sections z (block_down finish) (block_up start)
