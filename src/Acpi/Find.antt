-- ===== src/Acpi/Find.antt =====
-- `findTable` finds the table of a name with a given number among those of that name.
use nite_os_project.Common.{
  ℕ, zero, suc, ◌+◌, ◌-◌, ◌*◌, ◌/◌, ◌^◌, ◌<◌, ◌≤◌, ◌≡◌, refl, arith, Bool, false, ◌==◌, Bool-cases,
  if◌then◌else◌, some, List, [], ◌∷◌, ◌++◌, length, get_elem?, snoc_append, length-snoc,
  get_elem?-middle, inl, inr,
}
use nite_os_project.Common.Words.{sub64}
use nite_os_project.Paging.Map.{copy_as_io_address}
use nite_os_project.Strings.{Str, equals}
use nite_os_project.Acpi.{AcpiMgmtDevice, has_name, find_loop, find_entry, find_table, dsdt}
use mathlib.Core.Option

-- The elements that a test keeps.
abbrev pub matching : (ℕ → Bool) → List ℕ → List ℕ
matching named [] = []
matching named (e ∷ es) = if named e then e ∷ matching named es else matching named es

-- The table that the device reads its entries from has the entries `es`.
abbrev pub Lists : AcpiMgmtDevice → ℕ → List ℕ → Type 0
Lists device zero es = device.rsdt ≡ (36 + length es * 4, es)
Lists device (suc revision) es = device.xsdt ≡ (36 + length es * 8, es)

module _ (memory : ℕ → List ℕ) (name : Str) (named : ℕ → Bool) where
  -- The comparison with the table at each entry returns, and says `named`.
  abbrev pub Compares : List ℕ → Type 0
  Compares [] = Unit
  Compares (e ∷ es) = (has_name memory name e ≡ some (named e)) × Compares es

  find_loop-matching :
      (index i seen : ℕ) (done es : List ℕ)
      → i ≡ length done
      → seen ≤ index
      → Compares es
      → find_loop memory name index (length es) i seen (done ++ es)
        ≡ some (Option.map copy_as_io_address (get_elem? (matching named es) (index - seen)))
  unfolding find_loop
  find_loop-matching index i seen done [] p le c = refl
  find_loop-matching index i seen done (e ∷ es) p le (h, c) =
      let g : get_elem? (done ++ e ∷ es) i ≡ some e = rw p (get_elem?-middle done e es) in
      let n : suc i ≡ length (done ++ e ∷ []) = omega (arith, length-snoc done e) in
      let others =
        rw (snoc_append done e es) at
          (find_loop-matching index (suc i) seen (done ++ e ∷ []) es n le c) in
      elim (Bool-cases (named e)) [
        | inr other ↦ rw (g, h, other) others
        | inl hit ↦ elim (Bool-cases (seen == index)) [
          | inl here ↦
              let first : index - seen ≡ 0 = ground arith in rw (g, h, hit, here, first) refl
          | inr later ↦
              let less : suc seen ≤ index = ground arith in
              let next : index - seen ≡ suc (index - suc seen) = omega arith in
              let counted =
                rw (snoc_append done e es) at
                  (find_loop-matching index (suc i) (suc seen) (done ++ e ∷ []) es n less c) in
              rw (g, h, hit, later, next) counted
        ]
      ]

  find_entry-matching :
      (device : AcpiMgmtDevice) (revision index : ℕ) (es : List ℕ)
      → Lists device revision es
      → length es < 2 ^ 29
      → Compares es
      → find_entry memory device revision name index
        ≡ some (Option.map copy_as_io_address (get_elem? (matching named es) index))
  unfolding find_entry
  find_entry-matching device zero index es l b c =
      let loop = find_loop-matching index 0 0 [] es refl (omega arith) c in
      let n : sub64 (36 + length es * 4) 36 / 4 ≡ length es = omega arith in
      let all : index - 0 ≡ index = omega arith in let loop' = rw all at loop in rw (l, n) loop'
  find_entry-matching device (suc revision) index es l b c =
      let loop = find_loop-matching index 0 0 [] es refl (omega arith) c in
      let n : sub64 (36 + length es * 8) 36 / 8 ≡ length es = omega arith in
      let all : index - 0 ≡ index = omega arith in
      let loop' = rw all at loop in
      let more : (suc revision == 0) ≡ false = ground arith in rw (more, l, n) loop'

  -- With a root pointer of a revision whose table has fewer than `2 ^ 29` entries, and a name other
  -- than `DSDT` whose comparison with each table returns, `findTable(name, index)` gives the address
  -- of the table with the number `index` among those of the name, and a null pointer where there is
  -- none.
  pub find_table-matching :
      (device : AcpiMgmtDevice) (revision index : ℕ) (es : List ℕ)
      → device.rsdp_revision ≡ some revision
      → equals name dsdt ≡ some false
      → Lists device revision es
      → length es < 2 ^ 29
      → Compares es
      → find_table memory device name index
        ≡ some (Option.map copy_as_io_address (get_elem? (matching named es) index))
  unfolding find_table find_entry
  find_table-matching device revision index es r d l b c =
      rw (r, d) (find_entry-matching device revision index es l b c)
