-- ===== src/Atomic/Counter.antt =====
-- `Atomic<uint64_t>`: the arithmetic operations, and counters under any order of the operations.
use nite_os_project.Common.{ℕ, ◌+◌, ◌%◌, ◌^◌, ◌<◌, ◌≡◌, refl, arith, List, [], ◌∷◌}
use nite_os_project.Atomic.{fetch_add, fetch_sub, fetch_inc, fetch_dec}
use nite_os_project.Common.Words.{add64, sub64}

-- What a thread may ask of a counter.
pub data Request : Type 0 where
  add sub : ℕ → Request
  up down : Request

-- The results of the requests in their order, and the value that is left.
unfoldable pub run : ℕ → List Request → List ℕ × ℕ
run value [] = ([], value)
run value (add n ∷ rest) =
    let (old, now) = fetch_add n value in let (olds, last) = run now rest in (old ∷ olds, last)
run value (sub n ∷ rest) =
    let (old, now) = fetch_sub n value in let (olds, last) = run now rest in (old ∷ olds, last)
run value (up ∷ rest) =
    let (old, now) = fetch_inc value in let (olds, last) = run now rest in (old ∷ olds, last)
run value (down ∷ rest) =
    let (old, now) = fetch_dec value in let (olds, last) = run now rest in (old ∷ olds, last)

-- The sums of what is added and of what is taken away.
abbrev pub added : List Request → ℕ
added [] = 0
added (add n ∷ rest) = n + added rest
added (sub n ∷ rest) = added rest
added (up ∷ rest) = 1 + added rest
added (down ∷ rest) = added rest

abbrev pub taken : List Request → ℕ
taken [] = 0
taken (add n ∷ rest) = taken rest
taken (sub n ∷ rest) = n + taken rest
taken (up ∷ rest) = taken rest
taken (down ∷ rest) = 1 + taken rest

-- The operands are words.
abbrev pub AreWords : List Request → Type 0
AreWords [] = Unit {0}
AreWords (add n ∷ rest) = (n < 2 ^ 64) × AreWords rest
AreWords (sub n ∷ rest) = (n < 2 ^ 64) × AreWords rest
AreWords (up ∷ rest) = AreWords rest
AreWords (down ∷ rest) = AreWords rest

-- Whatever the order of the requests, the value that they leave is the start plus what was added
-- less what was taken away, modulo 2^64: no request is lost.
pub run-sum :
    (value : ℕ) (rs : List Request)
    → value < 2 ^ 64
    → AreWords rs
    → ((run value rs).1 + taken rs) % 2 ^ 64 ≡ (value + added rs) % 2 ^ 64
unfolding run fetch_add fetch_sub fetch_inc fetch_dec
run-sum value [] v w = refl
run-sum value (add n ∷ rest) v w = omega (arith, run-sum (add64 value n) rest (omega arith) w.1)
run-sum value (sub n ∷ rest) v w = omega (arith, run-sum (sub64 value n) rest (omega arith) w.1)
run-sum value (up ∷ rest) v w = omega (arith, run-sum (add64 value 1) rest (omega arith) w)
run-sum value (down ∷ rest) v w = omega (arith, run-sum (sub64 value 1) rest (omega arith) w)
