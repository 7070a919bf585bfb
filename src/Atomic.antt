-- ===== src/Atomic.antt =====
-- `Atomic<T>` of Kernel/inc/mixins/concurrent/atomic.h, at `uint64_t`. An operation takes the value before and gives its result and the value after: the
-- hardware makes each one step.
pub mod Counter
mod Tests
use nite_os_project.Common.{
  ℕ, zero, suc, Bool, true, false, bit_and, bit_or, bit_xor, ◌==◌, if◌then◌else◌,
}
use nite_os_project.Common.Words.{add64, sub64}

pub data AtomicOpcode : Type 0 where
  relaxed consume acquired release acquire_release sequentially_consistent : AtomicOpcode

-- `exchange`: the old value, and the value that is stored.
abbrev pub exchange {ℓ} : {T : Type ℓ} → T → T → T × T
exchange desired value = (value, desired)

-- The orders of `compareAndExchange` on success and on failure.
pub exchange_orders : AtomicOpcode → AtomicOpcode × AtomicOpcode
exchange_orders acquire_release = (relaxed, acquired)
exchange_orders relaxed = (relaxed, acquired)
exchange_orders order = (order, order)

pub compare_and_exchange : ℕ → ℕ → ℕ → Bool × ℕ
compare_and_exchange expected desired value =
    if value == expected then (true, desired) else (false, value)

pub fetch_add : ℕ → ℕ → ℕ × ℕ
fetch_add val value = (value, add64 value val)

pub fetch_sub : ℕ → ℕ → ℕ × ℕ
fetch_sub val value = (value, sub64 value val)

pub fetch_and : ℕ → ℕ → ℕ × ℕ
fetch_and val value = (value, bit_and value val)

pub fetch_or : ℕ → ℕ → ℕ × ℕ
fetch_or val value = (value, bit_or value val)

pub fetch_xor : ℕ → ℕ → ℕ × ℕ
fetch_xor val value = (value, bit_xor value val)

pub fetch_inc : ℕ → ℕ × ℕ
fetch_inc value = (value, add64 value 1)

pub fetch_dec : ℕ → ℕ × ℕ
fetch_dec value = (value, sub64 value 1)

-- `inc` and `dec`, which return nothing.
pub inc : ℕ → ℕ
inc value = add64 value 1

pub dec : ℕ → ℕ
dec value = sub64 value 1
