-- ===== src/Scheduler/Create.antt =====
-- What `CreateProcessEx` gives: the first PID that is free from the counter on, where there is one.
use nite_os_project.Common.{
  update, update-hit, update-miss, ℕ, zero, suc, ◌+◌, ◌-◌, ◌%◌, ◌^◌, ◌<◌, ◌≤◌, ◌≡◌, ◌≢◌, refl, ap,
  ◌∙◌, subst, sym, arith, true, false, ◌==◌, some,
}
use nite_os_project.Scheduler.{
  Scheduler, list_index, get_process_by_id, next_pid, register, new_process, create_process_ex,
}

list_index_lt : (id : ℕ) → id < 65536 → list_index id ≡ some id
unfolding list_index
list_index_lt id h = ground arith

pub next_pid-taken :
    (fuel : ℕ) (s : Scheduler)
    → s.next_process_id < 65536
    → s.process_list s.next_process_id ≢ 0
    → next_pid (suc fuel) s ≡ next_pid fuel (record s { next_process_id = s.next_process_id + 1 })
unfolding next_pid get_process_by_id
next_pid-taken fuel s h used =
    let id = s.next_process_id in
    let counted : (id + 1) % 2 ^ 32 ≡ id + 1 = omega arith in
    let other : (s.process_list id == 0) ≡ false = ground arith in
    rw (list_index_lt id h, other, counted) refl

next_pid-free :
    (fuel : ℕ) (s : Scheduler)
    → s.next_process_id < 65536
    → s.process_list s.next_process_id ≡ 0
    → next_pid (suc fuel) s
      ≡ some (record s { next_process_id = s.next_process_id + 1 }, s.next_process_id)
unfolding next_pid get_process_by_id
next_pid-free fuel s h free =
    let id = s.next_process_id in
    let counted : (id + 1) % 2 ^ 32 ≡ id + 1 = omega arith in
    rw (list_index_lt id h, free, counted) refl

next_pid_lem :
    (d fuel pid : ℕ) (s : Scheduler)
    → d < fuel
    → s.next_process_id + d ≡ pid
    → pid < 65536
    → ((p : ℕ) → s.next_process_id ≤ p → p < pid → s.process_list p ≢ 0)
    → s.process_list pid ≡ 0
    → next_pid fuel s ≡ some (record s { next_process_id = pid + 1 }, pid)
next_pid_lem d zero pid s l e h used free = absurd (omega arith)
next_pid_lem zero (suc fuel) pid s l e h used free =
    let here : pid ≡ s.next_process_id = omega arith in
    next_pid-free fuel s (omega arith) (subst (λ (p : ℕ). s.process_list p ≡ 0) here free)
    ∙ ap (λ (p : ℕ). some (record s { next_process_id = p + 1 }, p)) (sym here)
next_pid_lem (suc d) (suc fuel) pid s l e h used free =
    let counted : Scheduler = record s { next_process_id = s.next_process_id + 1 } in
    next_pid-taken fuel s (omega arith) (used s.next_process_id (omega arith) (omega arith))
    ∙ next_pid_lem d fuel pid counted (omega arith) (omega arith) h
        (λ p a b. used p (omega arith) b) free

register-free :
    (s : Scheduler) (process pid : ℕ)
    → pid < 65536
    → s.process_list pid ≡ 0
    → register s process pid
      ≡ some (
        record s {
          process_list = update s.process_list pid process;
          is_stopped = update s.is_stopped process false;
        },
        true,
      )
unfolding register
register-free s process pid h free = rw (list_index_lt pid h, free) refl

-- Where a PID below 65536 is free, and those from the counter up to it are taken, `CreateProcessEx`
-- on fuel for one round more than these gives that PID: the process is registered under it and
-- started, the list is otherwise as before, and the counter stands behind it.
pub create_process_ex_lem :
    (fuel pid process : ℕ) (s : Scheduler)
    → s.next_process_id ≤ pid
    → pid < 65536
    → pid < s.next_process_id + fuel
    → ((p : ℕ) → s.next_process_id ≤ p → p < pid → s.process_list p ≢ 0)
    → s.process_list pid ≡ 0
    → (t : Scheduler) × (create_process_ex fuel s process ≡ some (t, pid))
      × (get_process_by_id t pid ≡ some process)
      × (t.is_stopped process ≡ false)
      × ((p : ℕ) → p ≢ pid → t.process_list p ≡ s.process_list p)
      × (t.next_process_id ≡ pid + 1)
unfolding create_process_ex new_process get_process_by_id
create_process_ex_lem fuel pid process s le h enough used free =
    let given =
      next_pid_lem (pid - s.next_process_id) fuel pid s (omega arith) (omega arith) h used free in
    let built : Scheduler = record s {
      next_process_id = pid + 1;
      is_stopped = update s.is_stopped process true;
    } in
    let after : Scheduler = record built {
      process_list = update built.process_list pid process;
      is_stopped = update built.is_stopped process false;
    } in
    let found = update-hit s.process_list pid process in
    (
      after,
      rw (given, register-free built process pid h free) refl,
      rw (list_index_lt pid h) (ap some found),
      update-hit built.is_stopped process false,
      (λ p ne. update-miss s.process_list pid process p ne),
      refl,
    )
