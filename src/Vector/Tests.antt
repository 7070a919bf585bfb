-- ===== src/Vector/Tests.antt =====
-- A vector of numbers that a number is pushed to.
use nite_os_project.Common.{ℕ, ◌*◌, Bool, ◌==◌}
use nite_os_project.Vector.{Vector, new_vector, push_back}

abbrev double : ℕ → ℕ
double n = n * 2

abbrev pushed : Vector ℕ
pushed = push_back 0 double (new_vector 0 8) 5

abbrev same : ℕ → ℕ → Bool
same a b = a == b
