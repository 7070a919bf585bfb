-- ===== src/Paging.antt =====
-- Kernel/inc/arch-x86_64/hwmem.h and Kernel/src/platforms/x86_64/hwmem.cpp: page table entries,
-- the tables of a process, and the mapping of pages.
pub mod Layout
pub mod Pml4Entry
pub mod PdptEntry
pub mod PdirEntry
pub mod PageEntry
pub mod Entry
pub mod Flags
pub mod Frame
pub mod Map
mod Tests
