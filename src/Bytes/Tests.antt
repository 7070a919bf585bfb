-- ===== src/Bytes/Tests.antt =====
-- Bytes in a memory that holds at each address the address.
use nite_os_project.Common.{◌≡◌, inr, arith, some}
use nite_os_project.Bytes.{move, memcpy}
use nite_os_project.Bytes.Copy.{memcpy_lem}

memcpy_example : memcpy 20 (λ a. a) 100 50 13 ≡ some (move (λ a. a) 100 50 13)
memcpy_example = memcpy_lem 20 (λ a. a) 100 50 13 (omega arith) (inr (omega arith))
