-- ===== src/Bytes.antt =====
-- The kernel's state of 29 June 2023, in Kernel/backup/20230629: `memset`, `memcpy` and `memcmp` of
-- src/String.cpp. The memory is a function from addresses to bytes, and an `int` a word of 32 bits.
-- memset and memcpy return the pointer they are given, which the model leaves out.
pub mod Copy
pub mod Compare
mod Tests
use nite_os_project.Common.{
  ℕ, zero, suc, ◌+◌, ◌-◌, ◌%◌, ◌^◌, Bool, true, false, ◌&&◌, ltb, leb, ◌==◌, if◌then◌else◌, ◌>>=◌,
  Option, none, some, update,
}

abbrev pub Memory : Type 0
Memory = ℕ → ℕ

pub memset : Memory → ℕ → ℕ → ℕ → Memory
memset m to c zero = m
memset m to c (suc count) = memset (update m to (c % 2 ^ 8)) (to + 1) c count

-- A load of so many bytes at `from`, and a store of them at `to`.
abbrev pub move : Memory → ℕ → ℕ → ℕ → Memory
move m to from size a = if leb to a && ltb a (to + size) then m (from + (a - to)) else m a

-- The variables of `memcpy`.
pub record Copying : Type 0 where
  pub memory : Memory
  pub dp : ℕ
  pub sp : ℕ
  pub left : ℕ

-- One of the three loops, which moves so many bytes in a round, on fuel.
pub copy_loop : ℕ → ℕ → Copying → Option Copying
copy_loop zero size c = none
copy_loop (suc fuel) size c =
    let next : Copying = record {
      memory = move c.memory c.dp c.sp size;
      dp = c.dp + size;
      sp = c.sp + size;
      left = c.left - size;
    } in
    let rest = copy_loop fuel size next in if leb size c.left then rest else some c

pub memcpy : ℕ → Memory → ℕ → ℕ → ℕ → Option Memory
memcpy fuel m dest src count = do
  eights ← copy_loop fuel 8 (record { memory = m; dp = dest; sp = src; left = count })
  fours ← copy_loop fuel 4 eights
  ones ← copy_loop fuel 1 fours
  some ones.memory

-- The `int` -1.
abbrev pub minus_one : ℕ
minus_one = 2 ^ 32 - 1

-- `memcmp`, on the bytes that are left.
pub memcmp : Memory → ℕ → ℕ → ℕ → ℕ
memcmp m a b zero = 0
memcmp m a b (suc n) =
    let rest = memcmp m (a + 1) (b + 1) n in
    if ltb (m a) (m b) then minus_one else if ltb (m b) (m a) then 1 else rest
