-- ===== src/Strings.antt =====
-- `String` of Kernel/inc/stdcxx/string.h in UTF-8, whose unit is a byte. `storage` is the memory from
-- `m_data` on, `none` for a null pointer; `none` of a result is a read behind that memory,
-- or an overflow of an `int`.
pub mod Equal
mod Tests
use nite_os_project.Common.{
  ℕ, zero, suc, Bool, true, false, ◌&&◌, ◌==◌, if◌then◌else◌, ◌>>=◌, Option, none, some, List, [],
  ◌∷◌, get_elem?, ltb, ◌^◌,
}

pub record Str : Type 0 where
  pub storage : Option (List ℕ)
  pub length : ℕ

-- The loop of `String(const char*)` that looks for the NUL from index `i` on.
unfoldable pub find_nul : List ℕ → ℕ → Option ℕ
find_nul [] i = none
find_nul (c ∷ cs) i = let rest = find_nul cs (suc i) in if c == 0 then some i else rest

-- `String(const char*)`, and the assignment of a `const char*`.
unfoldable pub new_string : List ℕ → Option Str
new_string str = find_nul str 0 >>= λ n. some (record { storage = some str; length = n })

-- The copy and the assignment of one, which share the memory.
pub copy_string : Str → Str
copy_string other = record { storage = other.storage; length = other.length }

-- The move: what is made, and what is left of the other string.
pub move_string : Str → Str × Str
move_string other = (
  record { storage = other.storage; length = other.length },
  record { storage = none; length = 0 },
)

-- The loop of `equals`, by the rounds left; its index is an `int`, which has no value from 2^31 on.
unfoldable pub equals_loop : ℕ → ℕ → List ℕ → List ℕ → Option Bool
equals_loop zero i a b = some true
equals_loop (suc n) i a b =
    let rest = equals_loop n (suc i) a b in
    let compared =
      get_elem? a i >>= λ x. get_elem? b i >>= λ y. if x == y then rest else some false in
    if ltb i (2 ^ 31) then compared else none

-- `equals` after the lengths: the tests for null pointers, and the loop.
unfoldable pub equals_stored : ℕ → Option (List ℕ) → Option (List ℕ) → Option Bool
equals_stored n none y = some false
equals_stored n (some x) none = some false
equals_stored n (some x) (some y) = equals_loop n 0 x y

unfoldable pub equals : Str → Str → Option Bool
equals a b = if a.length == b.length then equals_stored a.length a.storage b.storage else some false

abbrev is_stored : Option (List ℕ) → Bool
is_stored none = false
is_stored (some units) = true

-- The comparison of the units is commented out.
pub equals_ignore_case : Str → Str → Bool
equals_ignore_case a b = (a.length == b.length) && is_stored a.storage && is_stored b.storage

pub at : Str → ℕ → Option ℕ
at s i = s.storage >>= λ units. get_elem? units i
