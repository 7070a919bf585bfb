-- ===== src/Spinlock/Mutex.antt =====
-- `Spinlock` where `release` is not interrupted: it ends, and one thread at most is critical.
use nite_os_project.Common.{ℕ, zero, suc, ◌≡◌, refl, arith, Bool, true, false, some}
use nite_os_project.Spinlock.{
  outside, acquiring, critical, State, move, unlocked, acquire_round, compare_and_lock,
  acquire_test, release,
}

-- Alone, `release` ends after two rounds at most, with the lock free.
pub release-free : (fuel : ℕ) (lock : Bool) → release (suc (suc fuel)) lock ≡ some false
unfolding release
release-free fuel true = refl
release-free fuel false = refl

-- The steps of `Step`, but with `release` as one step.
pub data CalmStep : State → State → Type 0 where
  begin_acquire :
      (s : State) (i : ℕ)
      → s.place i ≡ outside
      → CalmStep s (record s { place = move s.place i acquiring })
  try_acquire : (s : State) (i : ℕ) → s.place i ≡ acquiring → CalmStep s (acquire_round s i)
  test_acquire : (s : State) (i : ℕ) → s.place i ≡ outside → CalmStep s (acquire_test s i)
  release_all :
      (s : State) (i : ℕ) (fuel : ℕ) (now : Bool)
      → s.place i ≡ critical
      → release fuel s.lock ≡ some now
      → CalmStep s (record { lock = now; place = move s.place i outside })

pub data CalmSteps (s : State) : State → Type 0 where
  here : CalmSteps s s
  next : {t u : State} → CalmSteps s t → CalmStep t u → CalmSteps s u

-- The lock is taken whenever a thread is critical, and then no second one is.
pub record IsExclusive (s : State) : Type 0 where
  pub held : (i : ℕ) → s.place i ≡ critical → s.lock ≡ true
  pub alone : (i j : ℕ) → s.place i ≡ critical → s.place j ≡ critical → i ≡ j

release-eq : (fuel : ℕ) (lock now : Bool) → release fuel lock ≡ some now → now ≡ false
unfolding release
release-eq zero lock now h = cc
release-eq (suc fuel) true now h = release-eq fuel false now h
release-eq (suc fuel) false now h = cc

CalmStep-IsExclusive : {s t : State} → CalmStep s t → IsExclusive s → IsExclusive t
unfolding acquire_round acquire_test compare_and_lock
CalmStep-IsExclusive (begin_acquire s i p) e = record {
  held = λ j h. ground (arith, e.held j);
  alone = λ j k h g. ground (arith, e.alone j k);
}
CalmStep-IsExclusive (try_acquire s i p) e = record {
  held = λ j h. refl;
  alone = λ j k h g. ground (arith, e.alone j k, e.held j, e.held k);
}
CalmStep-IsExclusive (test_acquire s i p) e = record {
  held = λ j h. ground (arith, e.held j);
  alone = λ j k h g. ground (arith, e.alone j k, e.held j, e.held k);
}
CalmStep-IsExclusive (release_all s i fuel now p r) e = record {
  held = λ j h. ground (arith, e.alone i j, release-eq fuel s.lock now r);
  alone = λ j k h g. ground (arith, e.alone j k);
}

unlocked-IsExclusive : IsExclusive unlocked
unfolding unlocked
unlocked-IsExclusive = record { held = λ i h. cc; alone = λ i j h g. cc }

-- From a fresh lock, if no step of another thread comes between the rounds of a `release`, the
-- lock is taken whenever a thread is critical and two threads are never critical at once.
pub CalmSteps-IsExclusive : {s : State} → CalmSteps unlocked s → IsExclusive s
CalmSteps-IsExclusive here = unlocked-IsExclusive
CalmSteps-IsExclusive (next r st) = CalmStep-IsExclusive st (CalmSteps-IsExclusive r)
