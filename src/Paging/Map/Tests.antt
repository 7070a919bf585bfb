-- ===== src/Paging/Map/Tests.antt =====
-- Two pages on both sides of the end of a table, in an address space without directories.
use nite_os_project.Common.{none}
use nite_os_project.Paging.Map.{X64Pages}

abbrev no_pages : X64Pages
no_pages = record { pdpt = λ i. 0; page_dirs = λ i. none; page_tables = λ i j. none }
