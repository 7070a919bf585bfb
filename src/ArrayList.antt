-- ===== src/ArrayList.antt =====
-- `ArrayList` of Kernel/inc/mixins/utils/array_list.h. A pointer is a value of `P`; `uninitialised`
-- is what `new _Tp*[n]` leaves in a cell, and `freed` the objects deleted so far, the latest first.
pub mod Grow
pub mod Remove
pub mod Clear
pub mod Owned
mod Tests
use nite_os_project.Common.{
  ℕ, zero, suc, ◌+◌, ◌-◌, Bool, ◌&&◌, ltb, leb, ◌==◌, if◌then◌else◌, ◌>>=◌, Option, none, some,
  List, [], ◌∷◌, length, get_elem?, set, replicate,
}
use nite_os_project.Common.Words.{add64, sub64, mul64}

pub record ArrayList {ℓ} (P : Type ℓ) : Type ℓ where
  pub pointers : List P
  pub size : ℕ
  pub capacity : ℕ
  pub increment : Bool
  pub freed : List P

-- A write to an array, `none` outside of it.
abbrev pub store {ℓ} : {P : Type ℓ} → List P → ℕ → P → Option (List P)
store xs i v = if ltb i (length xs) then some (set xs i v) else none

abbrev pub default_capacity : ℕ
default_capacity = 8

module _ {ℓ} {P : Type ℓ} where
  -- The loop of `add` that copies the cells from `i` on, by the rounds left.
  pub copy_loop : ℕ → ℕ → List P → List P → Option (List P)
  copy_loop zero i old new = some new
  copy_loop (suc n) i old new =
      get_elem? old i >>= λ p. store new i p >>= λ new. copy_loop n (suc i) old new

  -- The assignment to `m_pointers[m_length++]`.
  pub put_last : ArrayList P → P → Option (ArrayList P)
  put_last v value = store v.pointers v.size value >>= λ pointers.
      some (record v { pointers = pointers; size = add64 v.size 1 })

module _ {ℓ} {P : Type ℓ} (uninitialised : P) where
  -- `ArrayList(capacity, increment)`
  pub new_list : ℕ → Bool → ArrayList P
  new_list n increment = record {
    pointers = replicate n uninitialised;
    size = 0;
    capacity = n;
    increment = increment;
    freed = [];
  }

  pub grow : ArrayList P → Option (ArrayList P)
  grow v =
      let capacity = mul64 v.capacity 2 in
      copy_loop v.size 0 v.pointers (replicate capacity uninitialised) >>= λ pointers.
      some (record v { pointers = pointers; capacity = capacity })

  pub add : ArrayList P → P → Option (ArrayList P)
  add v value =
      (if (v.size == v.capacity) && v.increment then grow v else some v) >>= λ v. put_last v value

module _ {ℓ} {P : Type ℓ} where
  -- The loop of `remove` that moves the cells from `i` on down by one, by the rounds left.
  pub shift_loop : ℕ → ℕ → List P → Option (List P)
  shift_loop zero i pointers = some pointers
  shift_loop (suc n) i pointers = get_elem? pointers (suc i) >>= λ p.
      store pointers i p >>= λ pointers. shift_loop n (suc i) pointers

  pub remove_index : ArrayList P → ℕ → Option (ArrayList P)
  remove_index v index =
      let removed = get_elem? v.pointers index >>= λ p.
      shift_loop (v.size - 1 - index) index v.pointers >>= λ pointers.
      some (record v { pointers = pointers; size = v.size - 1; freed = p ∷ v.freed }) in
      if leb v.size index then some v else removed

  -- The loop of `remove` that looks for a value, by the rounds left; `matches` compares the object
  -- of a pointer with the value.
  pub remove_loop : (P → Bool) → ℕ → ℕ → ArrayList P → Option (ArrayList P)
  remove_loop matches zero i v = some v
  remove_loop matches (suc n) i v =
      let rest = remove_loop matches n (suc i) v in
      get_elem? v.pointers i >>= λ p. if matches p then remove_index v i else rest

  pub remove_value : (P → Bool) → ArrayList P → Option (ArrayList P)
  remove_value matches v = remove_loop matches v.size 0 v

  pub remove_last : ArrayList P → Option (ArrayList P)
  remove_last v = remove_index v (sub64 v.size 1)

  -- The loop of `clear` and of the destructor, with what it deletes in front of what was deleted.
  pub delete_loop : ℕ → ℕ → List P → List P → Option (List P)
  delete_loop zero i pointers freed = some freed
  delete_loop (suc n) i pointers freed =
      get_elem? pointers i >>= λ p. delete_loop n (suc i) pointers (p ∷ freed)

  pub clear : ArrayList P → Option (ArrayList P)
  clear v = delete_loop v.size 0 v.pointers v.freed >>= λ freed.
      some (record v { size = 0; freed = freed })
