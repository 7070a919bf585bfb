-- ===== src/Stream.antt =====
-- `Std::Stream` of Kernel/inc/stdcxx/stream.h: a buffer, of which the elements from `offset` up to
-- `end` are left. Indices are those below 2^31, which an `int` counts. A read outside the buffer has
-- no result.
pub mod Match
pub mod Filter
pub mod Ends
mod Tests
use nite_os_project.Common.{
  ℕ, zero, suc, ◌+◌, ◌-◌, Bool, true, false, not, ltb, ◌==◌, if◌then◌else◌, ◌>>=◌, Option, none,
  some, List, [], ◌∷◌, length, get_elem?, set, take, drop,
}
use nite_os_project.Common.Words.{add64, sub64}

pub record Stream {ℓ} (A : Type ℓ) : Type ℓ where
  pub buffer : List A
  pub size : ℕ
  pub end : ℕ
  pub offset : ℕ

module _ {ℓ} {A : Type ℓ} where
  -- `Stream(size)`, once its buffer is filled as `LinkedList::stream` does.
  abbrev pub of_buffer : List A → Stream A
  of_buffer xs = record { buffer = xs; size = length xs; end = length xs; offset = 0 }

  -- `length()`
  abbrev pub length_of : Stream A → ℕ
  length_of s = sub64 s.end s.offset

  -- The loops of the three tests, by the rounds left and the index.
  all_loop : ℕ → ℕ → List A → (A → Bool) → Option Bool
  all_loop zero i xs p = some true
  all_loop (suc n) i xs p =
      let rest = all_loop n (suc i) xs p in get_elem? xs i >>= λ x. if p x then rest else some false

  any_loop : ℕ → ℕ → List A → (A → Bool) → Option Bool
  any_loop zero i xs p = some false
  any_loop (suc n) i xs p =
      let rest = any_loop n (suc i) xs p in get_elem? xs i >>= λ x. if p x then some true else rest

  none_loop : ℕ → ℕ → List A → (A → Bool) → Option Bool
  none_loop zero i xs p = some true
  none_loop (suc n) i xs p =
      let rest = none_loop n (suc i) xs p in
      get_elem? xs i >>= λ x. if p x then some false else rest

  pub all_match : Stream A → (A → Bool) → Option Bool
  all_match s p = all_loop (s.size - s.offset) s.offset s.buffer p

  pub any_match : Stream A → (A → Bool) → Option Bool
  any_match s p = any_loop (s.size - s.offset) s.offset s.buffer p

  pub none_match : Stream A → (A → Bool) → Option Bool
  none_match s p = none_loop (s.size - s.offset) s.offset s.buffer p

  -- The two loops of `filter`: what it copies to `buf`, and the way back.
  keep_loop : ℕ → ℕ → List A → (A → Bool) → Option (List A)
  keep_loop zero i xs p = some []
  keep_loop (suc n) i xs p = do
    x ← get_elem? xs i
    rest ← keep_loop n (suc i) xs p
    some (if p x then x ∷ rest else rest)

  write_back : List A → ℕ → List A → List A
  write_back [] i xs = xs
  write_back (y ∷ ys) i xs = write_back ys (suc i) (set xs i y)

  pub filter : Stream A → (A → Bool) → Option (Stream A)
  filter s p = do
    buf ← keep_loop (s.size - s.offset) s.offset s.buffer p
    some (record s { buffer = write_back buf 0 s.buffer; end = length buf; offset = 0 })

  -- `limit`, `skip`; `truncate` fills a buffer that it never uses.
  pub limit : Stream A → ℕ → Stream A
  limit s n = record s { size = if ltb (length_of s) n then length_of s else n }

  pub skip : Stream A → ℕ → Stream A
  skip s amount = record s { offset = add64 s.offset amount }

  -- The element, if there is one, and the stream left; `none` for a read outside the buffer.
  pub find_first : Stream A → Option (Option A × Stream A)
  find_first s =
      if length_of s == 0
      then some (none, s)
      else get_elem? s.buffer s.offset >>= λ x.
          some (some x, record s { offset = add64 s.offset 1 })

  pub find_last : Stream A → Option (Option A × Stream A)
  find_last s =
      if ltb s.offset s.end
      then (get_elem? s.buffer (s.end - 1) >>= λ x. some (some x, record s { end = s.end - 1 }))
      else some (none, s)
