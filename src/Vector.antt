-- ===== src/Vector.antt =====
-- `Std::Vector` of Kernel/inc/stdcxx/vector.h. `initial` is what `new T[n]` fills a buffer with, and
-- `grown` the product of a capacity with the factor, which is a `float`.
pub mod Empty
mod Tests
use nite_os_project.Common.{
  ℕ, zero, suc, ◌+◌, ◌-◌, Bool, true, false, leb, ◌==◌, if◌then◌else◌, ◌>>=◌, Option, none, some,
  List, [], ◌∷◌, get_elem?, set, replicate,
}
use nite_os_project.Common.Words.{add32, sub32}

pub record Vector {ℓ} (A : Type ℓ) : Type ℓ where
  pub buffer : List A
  pub capacity : ℕ
  pub length : ℕ

module _ {ℓ} {A : Type ℓ} (initial : A) where
  -- `Vector()` and `Vector(capacity, factor)`
  abbrev pub new_vector : ℕ → Vector A
  new_vector n = record { buffer = replicate n initial; capacity = n; length = 0 }

  abbrev pub default_vector_capacity : ℕ
  default_vector_capacity = 8

  -- `reserve` and `shrink` copy no element, and leave the capacity as it is.
  pub reserve : Vector A → ℕ → Vector A
  reserve v new_size =
      if leb new_size v.capacity then v else record v { buffer = replicate new_size initial }

  pub shrink : Vector A → Vector A
  shrink v = if v.length == v.capacity then v else record v { buffer = replicate v.length initial }

  pub insert : (ℕ → ℕ) → Vector A → ℕ → A → Vector A
  insert grown v index value =
      let room = if v.length == v.capacity then reserve v (grown v.capacity) else v in
      if leb v.length index
      then v
      else record room { buffer = set room.buffer index value; length = add32 room.length 1 }

  pub push_front : (ℕ → ℕ) → Vector A → A → Vector A
  push_front grown v value = insert grown v 0 value

  pub push_back : (ℕ → ℕ) → Vector A → A → Vector A
  push_back grown v value = insert grown v v.length value

module _ {ℓ} {A : Type ℓ} where
  pub pop_back : Vector A → Vector A
  pop_back v = if v.length == 0 then v else record v { length = v.length - 1 }

  pub clear : Vector A → Vector A
  clear v = record v { length = 0 }

  -- The loop of `contains`, by the rounds left; `none` for a read outside the buffer.
  contains_loop : (A → A → Bool) → ℕ → ℕ → List A → A → Option Bool
  contains_loop eq zero i buffer value = some false
  contains_loop eq (suc n) i buffer value =
      let rest = contains_loop eq n (suc i) buffer value in
      get_elem? buffer i >>= λ x. if eq x value then some true else rest

  pub contains : (A → A → Bool) → Vector A → A → Option Bool
  contains eq v value = contains_loop eq v.length 0 v.buffer value

  pub at : Vector A → ℕ → Option A
  at v index = get_elem? v.buffer index

  -- `front` and `back`; `m_length - 1` of an empty vector wraps around.
  pub front : Vector A → Option A
  front v = get_elem? v.buffer 0

  pub back : Vector A → Option A
  back v = get_elem? v.buffer (sub32 v.length 1)

-- A call of one of the methods that change a vector.
pub data Step {ℓ} {A : Type ℓ} (initial : A) (grown : ℕ → ℕ) : Vector A → Vector A → Type ℓ where
  inserted : (v : Vector A) (i : ℕ) (x : A) → Step initial grown v (insert initial grown v i x)
  pushed_front : (v : Vector A) (x : A) → Step initial grown v (push_front initial grown v x)
  pushed_back : (v : Vector A) (x : A) → Step initial grown v (push_back initial grown v x)
  popped_back : (v : Vector A) → Step initial grown v (pop_back v)
  cleared : (v : Vector A) → Step initial grown v (clear v)
  reserved : (v : Vector A) (n : ℕ) → Step initial grown v (reserve initial v n)
  shrunk : (v : Vector A) → Step initial grown v (shrink initial v)

pub data Steps {ℓ} {A : Type ℓ} (initial : A) (grown : ℕ → ℕ) (v : Vector A)
    : Vector A → Type ℓ where
  here : Steps initial grown v v
  next :
      {u w : Vector A} → Steps initial grown v u → Step initial grown u w → Steps initial grown v w
