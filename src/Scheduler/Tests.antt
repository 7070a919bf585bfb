-- ===== src/Scheduler/Tests.antt =====
-- A scheduler as the constructor leaves it, and one whose list is full.
use nite_os_project.Common.{
  ℕ, ◌≡◌, ◌≢◌, refl, arith, ltb, if◌then◌else◌, false, Option, none, some, List, [], ◌∷◌,
}
use nite_os_project.Scheduler.{
  Scheduler, list_index, get_process_by_id, next_pid, register, new_process, create_process_ex,
  new_scheduler,
}
use nite_os_project.Scheduler.Create.{create_process_ex_lem}

abbrev listed : Option Scheduler → List (Option ℕ)
listed none = []
listed (some s) = get_process_by_id s 0 ∷ get_process_by_id s 1 ∷ get_process_by_id s 2 ∷ []

constructed : listed (new_scheduler 9 4096 8192) ≡ some 8192 ∷ some 4096 ∷ some 0 ∷ []
unfolding new_scheduler create_process_ex new_process next_pid register get_process_by_id list_index
constructed = refl

abbrev two_processes : Scheduler
two_processes = record {
  next_process_id = 1;
  process_list = λ i. if ltb i 2 then 4096 else 0;
  is_stopped = λ p. false;
}

create_process_ex_example :
    (t : Scheduler) × (create_process_ex 9 two_processes 8192 ≡ some (t, 2))
    × (get_process_by_id t 2 ≡ some 8192)
    × (t.is_stopped 8192 ≡ false)
    × ((p : ℕ) → ◌≢◌ {A = ℕ} p 2 → t.process_list p ≡ two_processes.process_list p)
    × (t.next_process_id ≡ 3)
create_process_ex_example =
    create_process_ex_lem 9 2 8192 two_processes (omega arith) (omega arith) (omega arith)
      (λ p a b. ground arith) refl

abbrev full : Scheduler
full = record { next_process_id = 1; process_list = λ i. 4096; is_stopped = λ p. false }
