-- ===== src/VirtualMemory.antt =====
-- The kernel's state of 29 June 2023, in Kernel/backup/20230629: the page tables of the kernel
-- (include/Arch/x86_64/MMU.h, src/Arch/x86_64/MMU.cpp) and `KernelAddressSpace`
-- (src/Arch/x86_64/AddressSpace.cpp). A page table is known by its address.
pub mod Frames
pub mod Convert
pub mod Mapped
pub mod Heap
pub mod Space
mod Tests
use nite_os_project.Common.{
  ℕ, zero, suc, ◌+◌, ◌-◌, ◌*◌, ◌/◌, ◌%◌, ◌^◌, bit_and, bit_or, Bool, true, false, not, ◌&&◌, ◌||◌,
  ltb, leb, ◌==◌, if◌then◌else◌, ◌>>=◌, Option, none, some, update,
}
use nite_os_project.Common.Words.{add64, sub64}

abbrev pub page_frame : ℕ
page_frame = 0xFFFFFFFFF000

abbrev pub kernel_virtual_base : ℕ
kernel_virtual_base = 0xFFFFFFFF80000000

abbrev pub io_virtual_base : ℕ
io_virtual_base = kernel_virtual_base - 0x100000000

-- `PML4_GET_INDEX`, `PDPT_GET_INDEX`, `PDIR_GET_INDEX` and `PAGE_GET_INDEX`
abbrev pub pml4_index : ℕ → ℕ
pml4_index addr = bit_and (addr / 2 ^ 39) 0x1FF

abbrev pub pdpt_index : ℕ → ℕ
pdpt_index addr = bit_and (addr / 2 ^ 30) 0x1FF

abbrev pub pdir_index : ℕ → ℕ
pdir_index addr = bit_and (addr / 2 ^ 21) 0x1FF

abbrev pub page_index : ℕ → ℕ
page_index addr = bit_and (addr / 2 ^ 12) 0x1FF

-- `PageFlags`
abbrev pub page_present : ℕ
page_present = 0x01

abbrev pub page_writable : ℕ
page_writable = 0x02

abbrev pub page_cache_disabled : ℕ
page_cache_disabled = 0x10

abbrev pub page_direct_address : ℕ
page_direct_address = 0x80

-- `*page & ~PAGE_FRAME`
abbrev pub without_frame : ℕ → ℕ
without_frame page = bit_and page (2 ^ 64 - 1 - page_frame)

pub set_page_address : ℕ → ℕ → ℕ
set_page_address page addr = bit_or (without_frame page) (bit_and addr page_frame)

pub set_page_flags : ℕ → ℕ → ℕ
set_page_flags page flags = bit_or page flags

pub set_page_frame : ℕ → ℕ → ℕ → ℕ
set_page_frame page addr flags =
    bit_or (bit_or (without_frame page) (bit_and addr page_frame)) flags

-- `GetIOMapping`; `none` is the panic.
pub get_io_mapping : ℕ → Option ℕ
get_io_mapping addr = if ltb 0xFFFFFFFF addr then none else some (add64 addr io_virtual_base)

pub record Tables : Type 0 where
  pub pml4 : ℕ → ℕ
  pub pdpts : ℕ → ℕ
  pub kernel_dirs : ℕ → ℕ
  pub heap_dirs : ℕ → ℕ
  pub io_mappings : ℕ → ℕ → ℕ
  -- The entries of the page table at an address.
  pub entries : ℕ → ℕ → ℕ
  -- `kernelPageTablePointers`
  pub pointers : ℕ → ℕ → ℕ

abbrev pub is_present : ℕ → Bool
is_present entry = not (bit_and entry page_present == 0)

-- What both `ConvertVirtToPhys` do with an address of the kernel.
pub convert_kernel : Tables → ℕ → ℕ
convert_kernel s address =
    if pdpt_index address == pdpt_index kernel_virtual_base
    then 0x200000 * pdir_index address + address % 0x200000
    else let table = s.pointers (pdpt_index address) (pdir_index address) in
      let entry = s.entries table (page_index address) in
      if not (table == 0) && is_present entry
      then bit_and entry (page_frame + address % 4096)
      else 0

-- `KernelAddressSpace::ConvertVirtToPhys`
pub convert_virt_to_phys : Tables → ℕ → ℕ
convert_virt_to_phys s address = if pml4_index address == 511 then convert_kernel s address else 0

-- `Paging::ConvertVirtToPhys`, told whether the page map is that of the kernel.
pub convert_in : Bool → Tables → ℕ → ℕ
convert_in is_kernel s address =
    if pml4_index address == 511 || is_kernel then convert_kernel s address else 0

pub is_page_present : Tables → ℕ → Bool
is_page_present s address =
    let table = s.pointers (pdpt_index address) (pdir_index address) in
    if pml4_index address == 511 && not (table == 0)
    then is_present (s.entries table (page_index address))
    else false

-- A write to an entry of the page table at an address.
abbrev pub set_entry : Tables → ℕ → ℕ → ℕ → Tables
set_entry s table i entry = record s {
  entries = update s.entries table (update (s.entries table) i entry);
}

-- `KernelMapVirtualMemory4K` on page tables that exist: the part that adds one, and calls itself for
-- that, has no result here.
pub kernel_map : ℕ → Tables → ℕ → ℕ → ℕ → Option Tables
kernel_map zero s phys virt flags = some s
kernel_map (suc amount) s phys virt flags =
    let table = s.pointers (pdpt_index virt) (pdir_index virt) in
    let entry = s.entries table (page_index virt) in
    let mapped = set_entry s table (page_index virt) (set_page_frame entry phys flags) in
    let rest = kernel_map amount mapped (add64 phys 4096) (add64 virt 4096) flags in
    if table == 0 then none else rest
