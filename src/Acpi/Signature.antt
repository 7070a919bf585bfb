-- ===== src/Acpi/Signature.antt =====
-- The signature of a table is four characters without a NUL, and `findTable` makes a string of it.
use nite_os_project.Common.{
  ℕ, ◌^◌, ◌<◌, ◌≡◌, refl, ap, ◌∙◌, arith, false, Bool-cases, none, some, List, [], ◌∷◌, ◌++◌,
  length, inl, inr,
}
use nite_os_project.Paging.Map.{copy_as_io_address}
use nite_os_project.Strings.{Str, equals}
use nite_os_project.Strings.Equal.{Holds, NoNul, new_string-Holds, equals-Holds}
use nite_os_project.Acpi.{AcpiMgmtDevice, has_name, find_table, dsdt}
use nite_os_project.Acpi.Find.{Compares, Lists, matching, find_table-matching}

module _ (memory : ℕ → List ℕ) where
  -- No NUL stands in the signature of the table at an entry nor in the byte behind it, the low one of
  -- the table's length, and there is one further on.
  pub record Unended (entry : ℕ) : Type 0 where
    pub text : List ℕ
    pub rest : List ℕ
    pub bytes : memory (copy_as_io_address entry) ≡ text ++ 0 ∷ rest
    pub clean : NoNul text
    pub long : 4 < length text

  has_name-Unended :
      (name : Str) (characters : List ℕ) (entry : ℕ)
      → Holds name characters
      → length characters ≡ 4
      → Unended entry
      → has_name memory name entry ≡ some false
  unfolding has_name
  has_name-Unended name characters entry h four u =
      let (s, made, holds) = new_string-Holds u.text u.rest u.clean in
      let (r, e, (sound, _)) =
        equals-Holds name s characters u.text h holds (omega (arith, four)) in
      elim (Bool-cases r) [
        | inl hit ↦ absurd (omega (arith, ap length (sound hit), four, u.long))
        | inr miss ↦ rw (u.bytes, made) (e ∙ ap some miss)
      ]

  abbrev pub AllUnended : List ℕ → Type 0
  AllUnended [] = Unit
  AllUnended (e ∷ es) = Unended e × AllUnended es

  AllUnended-Compares :
      (name : Str) (characters es : List ℕ)
      → Holds name characters
      → length characters ≡ 4
      → AllUnended es
      → Compares memory name (λ e. false) es
  AllUnended-Compares name characters [] h four u = tt
  AllUnended-Compares name characters (e ∷ es) h four (u, us) = (
    has_name-Unended name characters e h four u,
    AllUnended-Compares name characters es h four us,
  )

  matching-none : (es : List ℕ) → matching (λ e. false) es ≡ []
  matching-none [] = refl
  matching-none (e ∷ es) = matching-none es

  -- `findTable` of a name of four characters other than `DSDT` gives a null pointer, whatever tables
  -- there are, where the signatures have no NUL, no table's length is a multiple of 256, and a NUL
  -- follows further on.
  pub find_table-Unended :
      (device : AcpiMgmtDevice) (revision index : ℕ) (name : Str) (characters es : List ℕ)
      → Holds name characters
      → length characters ≡ 4
      → device.rsdp_revision ≡ some revision
      → equals name dsdt ≡ some false
      → Lists device revision es
      → length es < 2 ^ 29
      → AllUnended es
      → find_table memory device name index ≡ some none
  find_table-Unended device revision index name characters es h four r d l b u =
      let found =
        find_table-matching memory name (λ e. false) device revision index es r d l b
          (AllUnended-Compares name characters es h four u) in
      rw (matching-none es) at found
