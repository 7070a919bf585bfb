-- ===== src/Acpi/Tests.antt =====
-- Two tables at concrete addresses: one whose length is 256 is found, one whose length is 44 is not.
use nite_os_project.Common.{
  ℕ, ◌≡◌, refl, arith, false, ◌==◌, if◌then◌else◌, none, some, List, [], ◌∷◌, get_elem?,
}
use nite_os_project.Paging.Map.{copy_as_io_address}
use nite_os_project.Strings.{Str, new_string, find_nul, equals, equals_stored, equals_loop}
use nite_os_project.Strings.Equal.{Holds}
use nite_os_project.Acpi.{AcpiMgmtDevice, has_name, find_table, dsdt, checksum, checksum_loop}
use nite_os_project.Acpi.Find.{Compares, matching, find_table-matching}
use nite_os_project.Acpi.Signature.{Unended}
use mathlib.Core.Option

abbrev apic_name : Str
apic_name = record { storage = some (65 ∷ 80 ∷ 73 ∷ 67 ∷ 0 ∷ []); length = 4 }

-- At 4096 a table `APIC` of 44 bytes, elsewhere one of 256 bytes.
abbrev memory : ℕ → List ℕ
memory a =
    if a == copy_as_io_address 4096
    then 65 ∷ 80 ∷ 73 ∷ 67 ∷ 44 ∷ 0 ∷ 0 ∷ 0 ∷ []
    else 65 ∷ 80 ∷ 73 ∷ 67 ∷ 0 ∷ 1 ∷ 0 ∷ 0 ∷ []

abbrev device : AcpiMgmtDevice
device = record {
  rsdp_revision = some 0;
  rsdt = (44, 4096 ∷ 8192 ∷ []);
  xsdt = (0, []);
  fadt_dsdt = none;
}

abbrev short_device : AcpiMgmtDevice
short_device = record device { rsdt = (40, 4096 ∷ []) }

checksum_wraps : checksum 3 (200 ∷ 50 ∷ 7 ∷ []) ≡ some 1
unfolding checksum checksum_loop
checksum_wraps = refl

apic-named : Compares memory apic_name (λ e. e == 8192) (4096 ∷ 8192 ∷ [])
unfolding has_name copy_as_io_address new_string find_nul equals equals_stored equals_loop
apic-named = (refl, (refl, tt))

apic-other : equals apic_name dsdt ≡ some false
unfolding equals equals_stored equals_loop
apic-other = refl

apic-Holds : Holds apic_name (65 ∷ 80 ∷ 73 ∷ 67 ∷ [])
apic-Holds = record { rest = 0 ∷ []; stored = refl; length_eq = refl }

apic-Unended : Unended memory 4096
unfolding copy_as_io_address
apic-Unended = record {
  text = 65 ∷ 80 ∷ 73 ∷ 67 ∷ 44 ∷ [];
  rest = 0 ∷ 0 ∷ [];
  bytes = refl;
  clean = (ground arith, (ground arith, (ground arith, (ground arith, (ground arith, tt)))));
  long = omega arith;
}

find_table-matching_example :
    find_table memory device apic_name 0
    ≡ some
        (Option.map copy_as_io_address (get_elem? (matching (λ e. e == 8192) (4096 ∷ 8192 ∷ [])) 0))
find_table-matching_example =
    find_table-matching memory apic_name (λ e. e == 8192) device 0 0 (4096 ∷ 8192 ∷ []) refl
      apic-other refl (omega arith) apic-named
