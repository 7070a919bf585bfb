-- ===== src/Boot/Tests.antt =====
-- A map of two entries: the first is usable, and gets the type of the second.
use nite_os_project.Common.{◌≡◌, refl, some, List, [], ◌∷◌}
use nite_os_project.Boot.{Mem, Memmap, MmapEntry, read_map, read_entry, set_first_type, boot_type}

abbrev no_range : Memmap
no_range = record { min = 0; max = 0; kind = 0 }

abbrev start : Mem
start = record { total_size = 0; usable_size = 0; ranges = no_range ∷ no_range ∷ [] }

abbrev entries : List MmapEntry
entries =
    record { base = 4096; length = 8192; type_of = 1 }
    ∷ record { base = 65536; length = 4096; type_of = 2 }
    ∷ []

first_type :
    read_map start 0 entries
    ≡ some (record {
      total_size = 12288;
      usable_size = 8192;
      ranges =
          record { min = 4096; max = 12288; kind = 7 }
          ∷ record { min = 65536; max = 69632; kind = 2 }
          ∷ [];
    })
unfolding read_map read_entry set_first_type boot_type
first_type = refl
