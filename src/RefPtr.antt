-- ===== src/RefPtr.antt =====
-- `RefPtr` of Kernel/inc/stdcxx/refptr.h on a heap of counters. An address 0 is a null pointer.
pub mod Uses
pub mod Counted
pub mod Lives
mod Tests
use nite_os_project.Common.{ℕ, Bool, ◌==◌, if◌then◌else◌, List, [], ◌∷◌}
use nite_os_project.Common.Words.{add32, sub32}

pub record RefPtr : Type 0 where
  pub ptr : ℕ
  pub ref_count : ℕ

-- The counters, and the objects and the counters that were deleted, the latest first.
pub record Heap : Type 0 where
  pub count : ℕ → ℕ
  pub objects : List ℕ
  pub counters : List ℕ

abbrev pub write : (ℕ → ℕ) → ℕ → ℕ → ℕ → ℕ
write count c n d = if d == c then n else count d

-- `RefPtr()`, where `new unsigned` gives the address `c`.
pub default_ref : Heap → ℕ → Heap × RefPtr
default_ref h c = (record h { count = write h.count c 0 }, record { ptr = 0; ref_count = c })

-- `RefPtr(T*)`.
pub new_ref : Heap → ℕ → ℕ → Heap × RefPtr
new_ref h c ptr =
    if ptr == 0
    then (h, record { ptr = ptr; ref_count = 0 })
    else (record h { count = write h.count c 1 }, record { ptr = ptr; ref_count = c })

-- What the copy and the assignment do to the counter of the other reference.
pub retain : Heap → RefPtr → Heap
retain h r =
    if r.ref_count == 0
    then h
    else record h { count = write h.count r.ref_count (add32 (h.count r.ref_count) 1) }

pub copy_ref : Heap → RefPtr → Heap × RefPtr
copy_ref h other = (retain h other, record { ptr = other.ptr; ref_count = other.ref_count })

pub release : Heap → RefPtr → Heap
release h r =
    let less = sub32 (h.count r.ref_count) 1 in
    let counted = record h { count = write h.count r.ref_count less } in
    if r.ref_count == 0
    then h
    else if less == 0
    then record counted { objects = r.ptr ∷ h.objects; counters = r.ref_count ∷ h.counters }
    else counted

-- The assignment; `same` is whether both are one variable.
pub assign : Heap → Bool → RefPtr → RefPtr → Heap × RefPtr
assign h same self other =
    if same
    then (h, self)
    else (retain (release h self) other, record { ptr = other.ptr; ref_count = other.ref_count })
