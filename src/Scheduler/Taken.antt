-- ===== src/Scheduler/Taken.antt =====
-- `NextPID` where every PID is taken.
use nite_os_project.Common.{
  ℕ, zero, suc, ◌+◌, ◌%◌, ◌^◌, ◌<◌, ◌≤◌, ◌≡◌, ◌≢◌, refl, ◌∙◌, arith, ltb, ◌==◌, true, false, inl,
  inr, Bool-cases, none,
}
use nite_os_project.Scheduler.{Scheduler, list_index, get_process_by_id, next_pid}
use nite_os_project.Scheduler.Create.{next_pid-taken}

next_pid-wrapped :
    (fuel : ℕ) (s : Scheduler)
    → 65536 ≤ s.next_process_id
    → s.next_process_id < 2 ^ 31
    → s.process_list 0 ≢ 0
    → next_pid (suc fuel) s ≡ next_pid fuel (record s { next_process_id = s.next_process_id + 1 })
unfolding next_pid get_process_by_id list_index
next_pid-wrapped fuel s h b used =
    let id = s.next_process_id in
    let counted : (id + 1) % 2 ^ 32 ≡ id + 1 = omega arith in
    let beyond : ltb id 65536 ≡ false = ground arith in
    let positive : ltb id (2 ^ 31) ≡ true = ground arith in
    let other : (s.process_list 0 == 0) ≡ false = ground arith in
    rw (beyond, positive, other, counted) refl

next_pid-outside :
    (fuel : ℕ) (s : Scheduler) → s.next_process_id ≡ 2 ^ 31 → next_pid (suc fuel) s ≡ none
unfolding next_pid get_process_by_id list_index
next_pid-outside fuel s e = rw e refl

-- Where the kernel's process has the place 0 and every PID from the counter up to 65535 is taken,
-- `NextPID` gives no PID, however long it runs.
pub next_pid-none :
    (fuel : ℕ) (s : Scheduler)
    → s.next_process_id ≤ 2 ^ 31
    → s.process_list 0 ≢ 0
    → ((p : ℕ) → s.next_process_id ≤ p → p < 65536 → s.process_list p ≢ 0)
    → next_pid fuel s ≡ none
unfolding next_pid
next_pid-none zero s h kernel used = refl
next_pid-none (suc fuel) s h kernel used =
    let id = s.next_process_id in
    let counted : Scheduler = record s { next_process_id = id + 1 } in
    let later = λ (p : ℕ) (a : id + 1 ≤ p) (b : p < 65536). used p (omega arith) b in
    elim (Bool-cases (ltb id 65536)) [
      | inl inside ↦
          next_pid-taken fuel s (ground arith) (used id (omega arith) (ground arith))
          ∙ next_pid-none fuel counted (ground arith) kernel later
      | inr beyond ↦ elim (Bool-cases (ltb id (2 ^ 31))) [
        | inl positive ↦
            next_pid-wrapped fuel s (ground arith) (ground arith) kernel
            ∙ next_pid-none fuel counted (ground arith) kernel later
        | inr last ↦ next_pid-outside fuel s (ground arith)
      ]
    ]
