-- ===== src/Paging/Entry.antt =====
-- `VmmFlags` and `MapLevel<L>::Entry` of Kernel/inc/arch-x86_64/hwmem.h, for each level.
use nite_os_project.Common.{
  ℕ, ◌+◌, ◌-◌, ◌%◌, ◌^◌, ◌≤◌, ◌≡◌, refl, ◌≢◌, ◌⊎◌, Bool, true, false, arith, bit_and, bit_or,
  Option, none, some, ◌==◌, leb, if◌then◌else◌, ap, sym, ◌∙◌,
}
use mathlib.Core.Logic.{ite}
use nite_os_project.Common.Bitfield.{Layout, read, write, read-write}
use nite_os_project.Paging.Layout.{page_frame, bit_of}
use nite_os_project.Paging.Pml4Entry
use nite_os_project.Paging.PdptEntry
use nite_os_project.Paging.PdirEntry
use nite_os_project.Paging.PageEntry

pub data VmmFlags : Type 0 where
  flag_present flag_writable flag_user flag_write_through flag_disable_cache : VmmFlags
  flag_accessed flag_dirty flag_attribute flag_page_size flag_global : VmmFlags
  flag_disable_execute : VmmFlags

unfoldable pub mask_of : VmmFlags → ℕ
mask_of flag_present = 2 ^ 0
mask_of flag_writable = 2 ^ 1
mask_of flag_user = 2 ^ 2
mask_of flag_write_through = 2 ^ 3
mask_of flag_disable_cache = 2 ^ 4
mask_of flag_accessed = 2 ^ 5
mask_of flag_dirty = 2 ^ 6
mask_of flag_attribute = 2 ^ 7
mask_of flag_page_size = 2 ^ 7
mask_of flag_global = 2 ^ 8
mask_of flag_disable_execute = 2 ^ 63

-- The members of the anonymous struct. `page_size` is the attribute bit at level 1.
pub data Field : Type 0 where
  present writable user write_through cache_disabled accessed dirty page_size : Field
  global ignored address ignored2 disable_execute : Field

abbrev pub low : Field → ℕ
low present = 0
low writable = 1
low user = 2
low write_through = 3
low cache_disabled = 4
low accessed = 5
low dirty = 6
low page_size = 7
low global = 8
low ignored = 9
low address = 12
low ignored2 = 52
low disable_execute = 63

abbrev pub width : Field → ℕ
width ignored = 3
width address = 40
width ignored2 = 11
width _ = 1

pub Field-discrete : Discrete Field
Field-discrete = hlevel

pub apart : (f g : Field) → f ≢ g → (low f + width f ≤ low g) ⊎ (low g + width g ≤ low f)
apart present g differ = ground arith
apart writable g differ = ground arith
apart user g differ = ground arith
apart write_through g differ = ground arith
apart cache_disabled g differ = ground arith
apart accessed g differ = ground arith
apart dirty g differ = ground arith
apart page_size g differ = ground arith
apart global g differ = ground arith
apart ignored g differ = ground arith
apart address g differ = ground arith
apart ignored2 g differ = ground arith
apart disable_execute g differ = ground arith

abbrev pub layout : Layout
layout = record {
  Field = Field;
  discrete = Field-discrete;
  low = low;
  width = width;
  apart = apart;
}

-- A call of one of the setters of a member.
pub data Setter : Type 0 where
  set_present set_writable set_user set_write_through set_cache_disabled : Bool → Setter
  set_accessed set_dirty set_page_size set_attribute set_global : Bool → Setter
  set_address : ℕ → Setter
  set_disable_execute : Bool → Setter

-- The `static_assert` of a setter.
unfoldable pub allowed : ℕ → Setter → Bool
allowed level (set_page_size v) = if level == 1 then false else true
allowed level (set_attribute v) = level == 1
allowed level (set_global v) = leb level 2
allowed level _ = true

abbrev pub target : Setter → Field
target (set_present v) = present
target (set_writable v) = writable
target (set_user v) = user
target (set_write_through v) = write_through
target (set_cache_disabled v) = cache_disabled
target (set_accessed v) = accessed
target (set_dirty v) = dirty
target (set_page_size v) = page_size
target (set_attribute v) = page_size
target (set_global v) = global
target (set_address v) = address
target (set_disable_execute v) = disable_execute

abbrev pub assigned : Setter → ℕ
assigned (set_present v) = bit_of v
assigned (set_writable v) = bit_of v
assigned (set_user v) = bit_of v
assigned (set_write_through v) = bit_of v
assigned (set_cache_disabled v) = bit_of v
assigned (set_accessed v) = bit_of v
assigned (set_dirty v) = bit_of v
assigned (set_page_size v) = bit_of v
assigned (set_attribute v) = bit_of v
assigned (set_global v) = bit_of v
assigned (set_address v) = bit_and v page_frame
assigned (set_disable_execute v) = bit_of v

-- The setters, on the word `_flags`; `none` is a call that does not compile.
unfoldable pub set : ℕ → Setter → ℕ → Option ℕ
unfolding allowed
set level s flags =
    if allowed level s then some (write layout (target s) (assigned s) flags) else none

unfoldable pub set_flags : ℕ → ℕ → ℕ
set_flags f flags = bit_or flags f

unfoldable pub clear_flags : ℕ → ℕ → ℕ
clear_flags f flags = bit_and flags (2 ^ 64 - 1 - f)

then_value : (b : Bool) (x : ℕ) {y : ℕ} → (if b then some x else none) ≡ some y → x ≡ y
then_value true x h = cc
then_value false x h = cc

-- At every level a setter that compiles writes its own member, cut to its width, and leaves each
-- other member as it was.
pub read-set :
    (level : ℕ) (s : Setter) (f : Field) (flags : ℕ) {after : ℕ}
    → set level s flags ≡ some after
    → read layout f after
      ≡ ite (Field-discrete f (target s)) (assigned s % 2 ^ width (target s)) (read layout f flags)
unfolding set
read-set level s f flags h =
    ap (read layout f) (sym (then_value (allowed level s) _ h))
    ∙ read-write layout (target s) f (assigned s) flags

-- A call of a setter of one of the four unions.
pub data UnionCall : Type 0 where
  on_pml4 : Pml4Entry.Setter → UnionCall
  on_pdpt : PdptEntry.Setter → UnionCall
  on_pdir : PdirEntry.Setter → UnionCall
  on_page : PageEntry.Setter → UnionCall

pub level_of : UnionCall → ℕ
level_of (on_pml4 s) = 4
level_of (on_pdpt s) = 3
level_of (on_pdir s) = 2
level_of (on_page s) = 1

pub run_union : UnionCall → ℕ → ℕ
run_union (on_pml4 s) raw = Pml4Entry.set s raw
run_union (on_pdpt s) raw = PdptEntry.set s raw
run_union (on_pdir s) raw = PdirEntry.set s raw
run_union (on_page s) raw = PageEntry.set s raw

-- The setter of `MapLevel` with the same name.
pub setter_of : UnionCall → Setter
setter_of (on_pml4 (Pml4Entry.set_present v)) = set_present v
setter_of (on_pml4 (Pml4Entry.set_writable v)) = set_writable v
setter_of (on_pml4 (Pml4Entry.set_user v)) = set_user v
setter_of (on_pml4 (Pml4Entry.set_write_through v)) = set_write_through v
setter_of (on_pml4 (Pml4Entry.set_cache_disabled v)) = set_cache_disabled v
setter_of (on_pml4 (Pml4Entry.set_accessed v)) = set_accessed v
setter_of (on_pml4 (Pml4Entry.set_page_size v)) = set_page_size v
setter_of (on_pml4 (Pml4Entry.set_address v)) = set_address v
setter_of (on_pml4 (Pml4Entry.set_disable_execute v)) = set_disable_execute v
setter_of (on_pdpt (PdptEntry.set_present v)) = set_present v
setter_of (on_pdpt (PdptEntry.set_writable v)) = set_writable v
setter_of (on_pdpt (PdptEntry.set_user v)) = set_user v
setter_of (on_pdpt (PdptEntry.set_write_through v)) = set_write_through v
setter_of (on_pdpt (PdptEntry.set_cache_disabled v)) = set_cache_disabled v
setter_of (on_pdpt (PdptEntry.set_accessed v)) = set_accessed v
setter_of (on_pdpt (PdptEntry.set_page_size v)) = set_page_size v
setter_of (on_pdpt (PdptEntry.set_address v)) = set_address v
setter_of (on_pdpt (PdptEntry.set_disable_execute v)) = set_disable_execute v
setter_of (on_pdir (PdirEntry.set_present v)) = set_present v
setter_of (on_pdir (PdirEntry.set_writable v)) = set_writable v
setter_of (on_pdir (PdirEntry.set_user v)) = set_user v
setter_of (on_pdir (PdirEntry.set_write_through v)) = set_write_through v
setter_of (on_pdir (PdirEntry.set_cache_disabled v)) = set_cache_disabled v
setter_of (on_pdir (PdirEntry.set_accessed v)) = set_accessed v
setter_of (on_pdir (PdirEntry.set_dirty v)) = set_dirty v
setter_of (on_pdir (PdirEntry.set_page_size v)) = set_page_size v
setter_of (on_pdir (PdirEntry.set_global v)) = set_global v
setter_of (on_pdir (PdirEntry.set_address v)) = set_address v
setter_of (on_pdir (PdirEntry.set_disable_execute v)) = set_disable_execute v
setter_of (on_page (PageEntry.set_present v)) = set_present v
setter_of (on_page (PageEntry.set_writable v)) = set_writable v
setter_of (on_page (PageEntry.set_user v)) = set_user v
setter_of (on_page (PageEntry.set_write_through v)) = set_write_through v
setter_of (on_page (PageEntry.set_cache_disabled v)) = set_cache_disabled v
setter_of (on_page (PageEntry.set_accessed v)) = set_accessed v
setter_of (on_page (PageEntry.set_dirty v)) = set_dirty v
setter_of (on_page (PageEntry.set_attribute v)) = set_attribute v
setter_of (on_page (PageEntry.set_global v)) = set_global v
setter_of (on_page (PageEntry.set_address v)) = set_address v
setter_of (on_page (PageEntry.set_disable_execute v)) = set_disable_execute v

-- Each setter of `Pml4Entry`, `PdptEntry`, `PdirEntry` and `PageEntry` compiles at their level of
-- `MapLevel`, 4, 3, 2 and 1, and changes the word in the same way.
pub set-run_union :
    (c : UnionCall) (raw : ℕ) → set (level_of c) (setter_of c) raw ≡ some (run_union c raw)
unfolding set level_of setter_of run_union write Pml4Entry.set PdptEntry.set PdirEntry.set
    PageEntry.set
set-run_union (on_pml4 (Pml4Entry.set_present v)) raw = refl
set-run_union (on_pml4 (Pml4Entry.set_writable v)) raw = refl
set-run_union (on_pml4 (Pml4Entry.set_user v)) raw = refl
set-run_union (on_pml4 (Pml4Entry.set_write_through v)) raw = refl
set-run_union (on_pml4 (Pml4Entry.set_cache_disabled v)) raw = refl
set-run_union (on_pml4 (Pml4Entry.set_accessed v)) raw = refl
set-run_union (on_pml4 (Pml4Entry.set_page_size v)) raw = refl
set-run_union (on_pml4 (Pml4Entry.set_address v)) raw = refl
set-run_union (on_pml4 (Pml4Entry.set_disable_execute v)) raw = refl
set-run_union (on_pdpt (PdptEntry.set_present v)) raw = refl
set-run_union (on_pdpt (PdptEntry.set_writable v)) raw = refl
set-run_union (on_pdpt (PdptEntry.set_user v)) raw = refl
set-run_union (on_pdpt (PdptEntry.set_write_through v)) raw = refl
set-run_union (on_pdpt (PdptEntry.set_cache_disabled v)) raw = refl
set-run_union (on_pdpt (PdptEntry.set_accessed v)) raw = refl
set-run_union (on_pdpt (PdptEntry.set_page_size v)) raw = refl
set-run_union (on_pdpt (PdptEntry.set_address v)) raw = refl
set-run_union (on_pdpt (PdptEntry.set_disable_execute v)) raw = refl
set-run_union (on_pdir (PdirEntry.set_present v)) raw = refl
set-run_union (on_pdir (PdirEntry.set_writable v)) raw = refl
set-run_union (on_pdir (PdirEntry.set_user v)) raw = refl
set-run_union (on_pdir (PdirEntry.set_write_through v)) raw = refl
set-run_union (on_pdir (PdirEntry.set_cache_disabled v)) raw = refl
set-run_union (on_pdir (PdirEntry.set_accessed v)) raw = refl
set-run_union (on_pdir (PdirEntry.set_dirty v)) raw = refl
set-run_union (on_pdir (PdirEntry.set_page_size v)) raw = refl
set-run_union (on_pdir (PdirEntry.set_global v)) raw = refl
set-run_union (on_pdir (PdirEntry.set_address v)) raw = refl
set-run_union (on_pdir (PdirEntry.set_disable_execute v)) raw = refl
set-run_union (on_page (PageEntry.set_present v)) raw = refl
set-run_union (on_page (PageEntry.set_writable v)) raw = refl
set-run_union (on_page (PageEntry.set_user v)) raw = refl
set-run_union (on_page (PageEntry.set_write_through v)) raw = refl
set-run_union (on_page (PageEntry.set_cache_disabled v)) raw = refl
set-run_union (on_page (PageEntry.set_accessed v)) raw = refl
set-run_union (on_page (PageEntry.set_dirty v)) raw = refl
set-run_union (on_page (PageEntry.set_attribute v)) raw = refl
set-run_union (on_page (PageEntry.set_global v)) raw = refl
set-run_union (on_page (PageEntry.set_address v)) raw = refl
set-run_union (on_page (PageEntry.set_disable_execute v)) raw = refl
