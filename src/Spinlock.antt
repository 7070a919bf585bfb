-- ===== src/Spinlock.antt =====
-- `Spinlock` of Kernel/inc/mixins/concurrent/spinlock.h, as steps of any number of threads on one
-- lock. A round of a loop is one step, since its test is one atomic exchange.
pub mod Mutex
pub mod Race
mod Tests
use nite_os_project.Common.{
  ℕ, zero, suc, ◌≡◌, Bool, true, false, Option, none, some, ◌==◌, if◌then◌else◌,
}
use nite_os_project.Atomic.{exchange}

-- Where a thread stands in the methods of `Spinlock`: outside, in the loop of `acquire`, between
-- `acquire` and `release`, and in the loop of `release`.
pub data Place : Type 0 where
  outside acquiring critical releasing : Place

pub record State : Type 0 where
  pub lock : Bool
  pub place : ℕ → Place

abbrev pub move : (ℕ → Place) → ℕ → Place → ℕ → Place
move place i p j = if j == i then p else place j

-- `Spinlock()`
pub unlocked : State
unlocked = record { lock = false; place = λ i. outside }

-- One test of the loop of `acquire`, `m_lock.exchange(true)`.
pub acquire_round : State → ℕ → State
acquire_round s i =
    let (old, now) = exchange true s.lock in
    record { lock = now; place = move s.place i (if old then acquiring else critical) }

-- `m_lock.compareAndExchange(false, true)` of `acquireTest`, on the lock itself.
pub compare_and_lock : Bool → Bool × Bool
compare_and_lock false = (true, true)
compare_and_lock true = (false, true)

pub acquire_test : State → ℕ → State
acquire_test s i =
    let (result, now) = compare_and_lock s.lock in
    record { lock = now; place = move s.place i (if result then critical else outside) }

-- One test of the loop of `release`, `m_lock.exchange(false)`.
pub release_round : State → ℕ → State
release_round s i =
    let (old, now) = exchange false s.lock in
    record { lock = now; place = move s.place i (if old then releasing else outside) }

-- `release` with no step of another thread in between, on fuel.
pub release : ℕ → Bool → Option Bool
release zero lock = none
release (suc fuel) lock =
    let (old, now) = exchange false lock in elim old [ true ↦ release fuel now | false ↦ some now ]

-- The steps of any number of threads on one lock.
pub data Step : State → State → Type 0 where
  begin_acquire :
      (s : State) (i : ℕ)
      → s.place i ≡ outside
      → Step s (record s { place = move s.place i acquiring })
  try_acquire : (s : State) (i : ℕ) → s.place i ≡ acquiring → Step s (acquire_round s i)
  test_acquire : (s : State) (i : ℕ) → s.place i ≡ outside → Step s (acquire_test s i)
  begin_release :
      (s : State) (i : ℕ)
      → s.place i ≡ critical
      → Step s (record s { place = move s.place i releasing })
  try_release : (s : State) (i : ℕ) → s.place i ≡ releasing → Step s (release_round s i)

pub data Steps (s : State) : State → Type 0 where
  here : Steps s s
  next : {t u : State} → Steps s t → Step t u → Steps s u
