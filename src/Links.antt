-- ===== src/Links.antt =====
-- The members `_next` and `_previous` that the linked structures of the kernel share: `Entry` of
-- Kernel/inc/stdcxx/linked-list.h, `Page4K` of Kernel/inc/siberix/mem/page.h and `PageRec` of
-- Kernel/inc/sbrx/memory/page.h. Memory is a function from addresses, and 0 is the null pointer.
pub mod Chain
pub mod Unlink
pub mod Ends
use nite_os_project.Common.{ℕ, ◌==◌, if◌then◌else◌}

pub record Entry : Type 0 where
  pub next : ℕ
  pub previous : ℕ

abbrev pub Store : Type 0
Store = ℕ → Entry

-- `Entry()`
abbrev pub empty_entry : Entry
empty_entry = record { next = 0; previous = 0 }

-- The assignment to all of an entry.
abbrev pub put : Store → ℕ → Entry → Store
put m a e x = if x == a then e else m x

-- `a->_next = v` and `a->_previous = v`
abbrev pub set_next : Store → ℕ → ℕ → Store
set_next m a v x = if x == a then record (m x) { next = v } else m x

abbrev pub set_previous : Store → ℕ → ℕ → Store
set_previous m a v x = if x == a then record (m x) { previous = v } else m x
