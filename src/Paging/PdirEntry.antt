-- ===== src/Paging/PdirEntry.antt =====
-- `union PdirEntry` of Kernel/inc/arch-x86_64/hwmem.h: its bit-fields and its setters.
use nite_os_project.Common.{ℕ, ◌+◌, ◌%◌, ◌^◌, ◌≤◌, ◌≡◌, ◌≢◌, ◌⊎◌, Bool, arith, bit_and}
use mathlib.Core.Logic.{ite}
use nite_os_project.Common.Bitfield.{Layout, read, write, read-write}
use nite_os_project.Paging.Layout.{page_frame, bit_of}

-- The members of the anonymous struct.
pub data Field : Type 0 where
  present writable user write_through cache_disabled accessed : Field
  dirty page_size global ignored address ignored2 disable_execute : Field

abbrev pub low : Field → ℕ
low present = 0
low writable = 1
low user = 2
low write_through = 3
low cache_disabled = 4
low accessed = 5
low dirty = 6
low page_size = 7
low global = 8
low ignored = 9
low address = 12
low ignored2 = 52
low disable_execute = 63

abbrev pub width : Field → ℕ
width present = 1
width writable = 1
width user = 1
width write_through = 1
width cache_disabled = 1
width accessed = 1
width dirty = 1
width page_size = 1
width global = 1
width ignored = 3
width address = 40
width ignored2 = 11
width disable_execute = 1

pub Field-discrete : Discrete Field
Field-discrete = hlevel

pub apart : (f g : Field) → f ≢ g → (low f + width f ≤ low g) ⊎ (low g + width g ≤ low f)
apart present g differ = ground arith
apart writable g differ = ground arith
apart user g differ = ground arith
apart write_through g differ = ground arith
apart cache_disabled g differ = ground arith
apart accessed g differ = ground arith
apart dirty g differ = ground arith
apart page_size g differ = ground arith
apart global g differ = ground arith
apart ignored g differ = ground arith
apart address g differ = ground arith
apart ignored2 g differ = ground arith
apart disable_execute g differ = ground arith

abbrev pub layout : Layout
layout = record {
  Field = Field;
  discrete = Field-discrete;
  low = low;
  width = width;
  apart = apart;
}

-- A call of one of the setters.
pub data Setter : Type 0 where
  set_present set_writable set_user set_write_through set_cache_disabled : Bool → Setter
  set_accessed set_dirty set_page_size set_global set_disable_execute : Bool → Setter
  set_address : ℕ → Setter

-- The member that a setter assigns to, and what it assigns.
abbrev pub target : Setter → Field
target (set_present v) = present
target (set_writable v) = writable
target (set_user v) = user
target (set_write_through v) = write_through
target (set_cache_disabled v) = cache_disabled
target (set_accessed v) = accessed
target (set_dirty v) = dirty
target (set_page_size v) = page_size
target (set_global v) = global
target (set_address v) = address
target (set_disable_execute v) = disable_execute

abbrev pub assigned : Setter → ℕ
assigned (set_present v) = bit_of v
assigned (set_writable v) = bit_of v
assigned (set_user v) = bit_of v
assigned (set_write_through v) = bit_of v
assigned (set_cache_disabled v) = bit_of v
assigned (set_accessed v) = bit_of v
assigned (set_dirty v) = bit_of v
assigned (set_page_size v) = bit_of v
assigned (set_global v) = bit_of v
assigned (set_address v) = bit_and v page_frame
assigned (set_disable_execute v) = bit_of v

-- The setters, on the word `_raw`.
unfoldable pub set : Setter → ℕ → ℕ
set s raw = write layout (target s) (assigned s) raw

-- A setter writes its own member, cut to its width, and leaves each other member as it was.
pub read-set :
    (s : Setter) (f : Field) (raw : ℕ)
    → read layout f (set s raw)
      ≡ ite (Field-discrete f (target s)) (assigned s % 2 ^ width (target s)) (read layout f raw)
unfolding set
read-set s f raw = read-write layout (target s) f (assigned s) raw
