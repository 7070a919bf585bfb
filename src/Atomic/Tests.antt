-- ===== src/Atomic/Tests.antt =====
-- Runs of the operations of `Atomic<T>`, and the theorem at a concrete sequence.
use nite_os_project.Common.{◌-◌, ◌^◌, ◌≡◌, refl, false, List, [], ◌∷◌}
use nite_os_project.Atomic.{compare_and_exchange, fetch_add, fetch_sub, fetch_inc, fetch_dec}
use nite_os_project.Atomic.Counter.{Request, add, sub, up, down, run}

abbrev requests : List Request
requests = add 5 ∷ down ∷ sub 7 ∷ up ∷ []

-- The counter wraps below 0 and comes back.
run_wraps : run 1 requests ≡ (1 ∷ 6 ∷ 5 ∷ (2 ^ 64 - 2) ∷ [], 2 ^ 64 - 1)
unfolding run fetch_add fetch_sub fetch_inc fetch_dec
run_wraps = refl

exchange_refused : compare_and_exchange 3 9 4 ≡ (false, 4)
unfolding compare_and_exchange
exchange_refused = refl
