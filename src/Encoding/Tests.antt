-- ===== src/Encoding/Tests.antt =====
-- The euro sign in UTF-8.
use nite_os_project.Common.{◌≡◌, refl, [], ◌∷◌}
use nite_os_project.Encoding.Utf8

euro-bytes : (Utf8.first_byte 0x20AC ≡ 0xE2) × (Utf8.other_bytes 0x20AC ≡ 0x82 ∷ 0xAC ∷ [])
euro-bytes = (refl, refl)
