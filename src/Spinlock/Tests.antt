-- ===== src/Spinlock/Tests.antt =====
-- Runs of `Spinlock`, and the theorems at concrete states.
use nite_os_project.Common.{ℕ, zero, suc, ◌≡◌, refl, arith, true, false}
use nite_os_project.Spinlock.{
  Place, outside, acquiring, critical, releasing, State, move, unlocked, acquire_round,
  begin_acquire, try_acquire, begin_release, Steps, here, next,
}
use nite_os_project.Spinlock.Mutex.{release-free, CalmSteps, IsExclusive, CalmSteps-IsExclusive}
use nite_os_project.Spinlock.Mutex
use nite_os_project.Spinlock.Race.{release_race}

-- Thread 0 comes in, waits for the lock and takes it.
abbrev entered : State
entered = acquire_round (record { lock = false; place = move (λ i. outside) 0 acquiring }) 0

entered_steps : CalmSteps unlocked entered
unfolding unlocked
entered_steps =
    Mutex.next (Mutex.next Mutex.here (Mutex.begin_acquire unlocked 0 refl))
      (Mutex.try_acquire (record { lock = false; place = move (λ i. outside) 0 acquiring }) 0 refl)

CalmSteps-IsExclusive_example : IsExclusive entered
CalmSteps-IsExclusive_example = CalmSteps-IsExclusive entered_steps

-- Thread 0 lets go of the lock while threads 1 and 2 wait for it.
places : ℕ → Place
places zero = releasing
places (suc zero) = acquiring
places (suc (suc zero)) = acquiring
places (suc (suc (suc n))) = outside

abbrev handover : State
handover = record { lock = true; place = places }

release_race_example :
    (t : State) × Steps handover t × (t.place 1 ≡ critical) × (t.place 2 ≡ critical)
unfolding places
release_race_example =
    release_race handover 0 1 2 (omega arith) (omega arith) (omega arith) refl refl refl refl

-- Such a state is reached from a fresh lock.
abbrev three_begin : State
three_begin = record {
  lock = false;
  place = move (move (move (λ i. outside) 0 acquiring) 1 acquiring) 2 acquiring;
}

abbrev contended : State
contended =
    let held = acquire_round three_begin 0 in record held { place = move held.place 0 releasing }

contended_reached :
    Steps unlocked contended
    × (contended.lock ≡ true)
    × (contended.place 0 ≡ releasing)
    × (contended.place 1 ≡ acquiring)
    × (contended.place 2 ≡ acquiring)
unfolding unlocked acquire_round
contended_reached = (
  next
      (next
        (next (next (next here (begin_acquire unlocked 0 refl)) (begin_acquire _ 1 refl))
          (begin_acquire _ 2 refl))
        (try_acquire three_begin 0 refl))
      (begin_release _ 0 refl),
  refl,
  refl,
  refl,
  refl,
)
