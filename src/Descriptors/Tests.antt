-- ===== src/Descriptors/Tests.antt =====
-- Runs of the descriptor tables, and the theorems at concrete addresses.
use nite_os_project.Common.{◌≡◌, refl, some, [], ◌∷◌}
use nite_os_project.Descriptors.{vendor_of}

-- The bytes of a word come out lowest first.
vendor_bytes :
    vendor_of (0x756e6547 ∷ 0x49656e69 ∷ 0x6c65746e ∷ [])
    ≡ some b'G'
      ∷ some b'e'
      ∷ some b'n'
      ∷ some b'u'
      ∷ some b'i'
      ∷ some b'n'
      ∷ some b'e'
      ∷ some b'I'
      ∷ some b'n'
      ∷ some b't'
      ∷ some b'e'
      ∷ some b'l'
      ∷ []
unfolding vendor_of
vendor_bytes = refl
