-- ===== src/Scheduler.antt =====
-- The processes of the kernel's state of 29 June 2023, in Kernel/backup/20230629: `Scheduler` of
-- include/Proc/Scheduler.h and src/Process/SchedulerImpl.cpp. A process is its address.
pub mod Create
pub mod Taken
mod Tests
use nite_os_project.Common.{
  update, ℕ, zero, suc, ◌+◌, ◌%◌, ◌^◌, Bool, true, false, not, ◌&&◌, ltb, ◌==◌, if◌then◌else◌,
  ◌>>=◌, Option, none, some,
}

pub record Scheduler : Type 0 where
  pub next_process_id : ℕ
  pub process_list : ℕ → ℕ
  -- The bit 0x01 of `m_Flags` of each process.
  pub is_stopped : ℕ → Bool

-- `MAX_PROCESS_AMOUNT`
abbrev pub max_process_amount : ℕ
max_process_amount = 65536

-- The index that `operator[]` of `SizedArrayList` takes, which gets the PID as an `int`. A negative
-- one, of a PID from 2^31 on, lies outside of the array.
pub list_index : ℕ → Option ℕ
list_index id =
    if ltb id max_process_amount then some id else if ltb id (2 ^ 31) then some 0 else none

pub get_process_by_id : Scheduler → ℕ → Option ℕ
get_process_by_id s id = list_index id >>= λ i. some (s.process_list i)

-- `NextPID`, its loop on fuel.
pub next_pid : ℕ → Scheduler → Option (Scheduler × ℕ)
next_pid zero s = none
next_pid (suc fuel) s =
    let id = s.next_process_id in
    let counted : Scheduler = record s { next_process_id = (id + 1) % 2 ^ 32 } in
    let again = next_pid fuel counted in
    get_process_by_id counted id >>= λ process. if process == 0 then some (counted, id) else again

-- `Register`, with `Start` of the process.
pub register : Scheduler → ℕ → ℕ → Option (Scheduler × Bool)
register s process id = list_index id >>= λ i.
    let in_list = s.process_list i in
    let taken = not (in_list == 0) && not (in_list == process) in
    if taken
    then some (s, false)
    else some (
      record s {
        process_list = update s.process_list i process;
        is_stopped = update s.is_stopped process false;
      },
      true,
    )

-- What the constructor of a process at the address does to its flags.
pub new_process : Scheduler → ℕ → Scheduler
new_process s process = record s { is_stopped = update s.is_stopped process true }

-- `CreateProcessEx`, where the new process has the address `process`, and the PID it gets.
pub create_process_ex : ℕ → Scheduler → ℕ → Option (Scheduler × ℕ)
create_process_ex fuel s process = do
  given ← next_pid fuel s
  let (counted, id) = given in
      do
        registered ← register (new_process counted process) process id
        let (after, is_new) = registered in some (after, id)

-- The constructor, in a memory that is all 0.
pub new_scheduler : ℕ → ℕ → ℕ → Option Scheduler
new_scheduler fuel idle kernel = do
  created ←
      create_process_ex fuel
        (record { next_process_id = 1; process_list = λ i. 0; is_stopped = λ p. false }) idle
  let (s, id) = created in
      do registered ← register s kernel 0; let (after, is_new) = registered in some after
