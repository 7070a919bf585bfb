-- ===== src/MemRange/Fill.antt =====
-- `set` and `clear` write each byte of the range, and no other.
use nite_os_project.Common.{ℕ, zero, suc, ◌+◌, ◌≡◌, ◌∙◌, arith, ◌==◌, ◌&&◌, ltb, leb, if◌then◌else◌}
use nite_os_project.MemRange.{AddressRange, set_loop, set}

set_loop-bytes :
    (base value : ℕ) (memory : ℕ → ℕ) (n i a : ℕ)
    → set_loop base value memory n i a
      ≡ (if leb (base + i) a && ltb a (base + i + n) then value else memory a)
unfolding set_loop
set_loop-bytes base value memory zero i a = ground arith
set_loop-bytes base value memory (suc n) i a =
    set_loop-bytes base value (λ d. if d == base + i then value else memory d) n (suc i) a
    ∙ ground arith

-- `set` leaves the value in each byte of the range, and every other byte as it was.
pub set-bytes :
    (r : AddressRange) (value : ℕ) (memory : ℕ → ℕ) (a : ℕ)
    → set r value memory a ≡ (if leb r.base a && ltb a (r.base + r.size) then value else memory a)
unfolding set
set-bytes r value memory a = set_loop-bytes r.base value memory r.size 0 a ∙ ground arith
