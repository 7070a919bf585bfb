-- ===== src/Boot/Memory.antt =====
-- The sizes that are added up from the boot loader's map.
use nite_os_project.Common.{
  ℕ, suc, ◌+◌, ◌%◌, ◌^◌, ◌<◌, ◌≤◌, ◌≡◌, refl, ◌∙◌, arith, true, ◌==◌, ltb, if◌then◌else◌, Option,
  none, some, List, [], ◌∷◌, length, length-set, set,
}
use nite_os_project.Common.Words.{add64}
use nite_os_project.Boot.{Mem, Memmap, MmapEntry, boot_type, set_first_type, read_entry, read_map}

abbrev pub sum : List MmapEntry → ℕ
sum [] = 0
sum (e ∷ es) = e.length + sum es

abbrev pub usable : List MmapEntry → ℕ
usable [] = 0
usable (e ∷ es) = (if e.type_of == 1 then e.length else 0) + usable es

set_first_type-length :
    (kind : Option ℕ) (rs : List Memmap) → length (set_first_type kind rs) ≡ length rs
unfolding set_first_type
set_first_type-length none rs = refl
set_first_type-length (some kind) [] = refl
set_first_type-length (some kind) (r ∷ rs) = refl

read_entry-some :
    (mem : Mem) (i : ℕ) (e : MmapEntry)
    → i < length mem.ranges
    → (m : Mem) × (read_entry mem i e ≡ some m)
      × (m.total_size ≡ add64 mem.total_size e.length)
      × (m.usable_size
          ≡ (if e.type_of == 1 then add64 mem.usable_size e.length else mem.usable_size))
      × (length m.ranges ≡ length mem.ranges)
unfolding read_entry
read_entry-some mem i e h =
    let inside : ltb i (length mem.ranges) ≡ true = ground arith in
    let range : Memmap = record {
      min = e.base;
      max = add64 e.base e.length;
      kind = e.type_of % 2 ^ 8;
    } in
    (
      record mem {
        total_size = add64 mem.total_size e.length;
        usable_size = if e.type_of == 1 then add64 mem.usable_size e.length else mem.usable_size;
        ranges = set_first_type (boot_type e.type_of) (set mem.ranges i range);
      },
      rw inside refl,
      refl,
      refl,
      set_first_type-length (boot_type e.type_of) (set mem.ranges i range)
          ∙ length-set mem.ranges i range,
    )

-- A map with room for its entries from the range `i` on, and sizes that stay below `2 ^ 64`, adds the
-- lengths of all entries to the total size, and those of the usable ones to the usable size.
pub read_map-sizes :
    (mem : Mem) (i : ℕ) (entries : List MmapEntry)
    → i + length entries ≤ length mem.ranges
    → mem.total_size + sum entries < 2 ^ 64
    → mem.usable_size + usable entries < 2 ^ 64
    → (m : Mem) × (read_map mem i entries ≡ some m)
      × (m.total_size ≡ mem.total_size + sum entries)
      × (m.usable_size ≡ mem.usable_size + usable entries)
unfolding read_map
read_map-sizes mem i [] room bt bu = (mem, refl, omega arith, omega arith)
read_map-sizes mem i (e ∷ es) room bt bu =
    let (next, read, t, u, l) = read_entry-some mem i e (omega arith) in
    let total : next.total_size ≡ mem.total_size + e.length = omega (arith, t) in
    let few : next.usable_size ≡ mem.usable_size + (if e.type_of == 1 then e.length else 0) =
      ground (arith, u) in
    let (m, r, tm, um) =
      read_map-sizes next (suc i) es (omega (arith, l)) (omega (arith, total))
        (omega (arith, few)) in
    (m, rw read r, omega (arith, tm, total), omega (arith, um, few))
