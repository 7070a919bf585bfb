-- ===== src/RefPtr/Tests.antt =====
-- References to one object: made, copied, and destroyed one after the other; and `RefPtr()`.
use nite_os_project.Common.{◌^◌, ◌<◌, ◌≡◌, refl, arith, [], ◌∷◌, ◌++◌, length}
use nite_os_project.RefPtr.{RefPtr, Heap, new_ref, default_ref, copy_ref, retain, release}
use nite_os_project.RefPtr.Uses.{State, made, Steps, start, next, IsCounted}
use nite_os_project.RefPtr.Lives.{Steps-IsCounted}

abbrev empty_heap : Heap
empty_heap = record { count = λ c. 0; objects = []; counters = [] }

abbrev one_ref : RefPtr
one_ref = record { ptr = 4096; ref_count = 64 }

abbrev one : State
one = record { heap = (new_ref empty_heap 64 4096).0; refs = (new_ref empty_heap 64 4096).1 ∷ [] }

one-Steps : Steps one
one-Steps = next start (omega arith) (made 64 4096 (ground arith) refl refl)

one-refs : one.refs ≡ [] ++ one_ref ∷ []
unfolding new_ref
one-refs = refl

-- The copy of a `RefPtr()`, whose counter is 0, and the copy's end: the counter is deleted, which the
-- first reference still has. Its own end then counts down from 0.
abbrev default_made : Heap × RefPtr
default_made = default_ref empty_heap 64

default-deleted :
    (release (copy_ref default_made.0 default_made.1).0 default_made.1).counters ≡ 64 ∷ []
unfolding default_ref copy_ref retain release
default-deleted = refl

default-wraps : (release default_made.0 default_made.1).count 64 ≡ 4294967295
unfolding default_ref release
default-wraps = refl

Steps-IsCounted_example : IsCounted one.heap one.refs × (length one.refs < 2 ^ 32)
Steps-IsCounted_example = Steps-IsCounted one one-Steps
