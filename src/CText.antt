-- ===== src/CText.antt =====
-- The kernel's state of 29 June 2023, in Kernel/backup/20230629: the functions of src/String.cpp on
-- strings that end in a NUL. Loops that look for it run on fuel. A `char` is a byte, an `int` a word
-- of 32 bits, and 0 the null pointer.
pub mod Texts
pub mod Measure
pub mod Join
pub mod Spans
pub mod Tokens
mod Tests
use nite_os_project.Common.{
  ℕ, zero, suc, ◌+◌, ◌-◌, ◌%◌, ◌^◌, Bool, true, false, not, ◌&&◌, ltb, leb, ◌==◌, if◌then◌else◌,
  ◌>>=◌, Option, none, some, update,
}
use nite_os_project.Common.Words.{sub32}
use nite_os_project.Bytes.{Memory, minus_one}

-- A `char` as an `int`.
abbrev pub to_int : ℕ → ℕ
to_int c = if ltb c 128 then c else 2 ^ 32 - 2 ^ 8 + c

pub strlen : ℕ → Memory → ℕ → ℕ → Option ℕ
strlen zero m str i = none
strlen (suc fuel) m str i =
    let rest = strlen fuel m str (i + 1) in if m (str + i) == 0 then some i else rest

pub strcpy : ℕ → Memory → ℕ → ℕ → Option Memory
strcpy zero m dest src = none
strcpy (suc fuel) m dest src =
    let rest = strcpy fuel (update m dest (m src)) (dest + 1) (src + 1) in
    if m src == 0 then some (update m dest 0) else rest

pub strncpy : Memory → ℕ → ℕ → ℕ → Memory
strncpy m dest src zero = update m dest 0
strncpy m dest src (suc n) =
    let rest = strncpy (update m dest (m src)) (dest + 1) (src + 1) n in
    if m src == 0 then update m dest 0 else rest

pub strcmp : ℕ → Memory → ℕ → ℕ → Option ℕ
strcmp zero m s1 s2 = none
strcmp (suc fuel) m s1 s2 =
    let rest = strcmp fuel m (s1 + 1) (s2 + 1) in
    if m s1 == m s2
    then if m s1 == 0 then some 0 else rest
    else some (sub32 (to_int (m s1)) (to_int (m s2)))

pub strncmp : Memory → ℕ → ℕ → ℕ → ℕ
strncmp m s1 s2 zero = 0
strncmp m s1 s2 (suc n) =
    let rest = strncmp m (s1 + 1) (s2 + 1) n in
    let lower = ltb ((m s1 + 128) % 2 ^ 8) ((m s2 + 128) % 2 ^ 8) in
    if not (m s1 == m s2) then if lower then minus_one else 1 else if m s1 == 0 then 0 else rest

pub strchr : ℕ → Memory → ℕ → ℕ → Option ℕ
strchr zero m s c = none
strchr (suc fuel) m s c =
    let rest = strchr fuel m (s + 1) c in
    if m s == c % 2 ^ 8 then some s else if m s == 0 then some 0 else rest

-- Where the count runs out it has gone below 0, and is not 0.
pub strnchr : Memory → ℕ → ℕ → ℕ → ℕ
strnchr m s c zero = s
strnchr m s c (suc n) =
    let rest = strnchr m (s + 1) c n in
    if m s == c % 2 ^ 8 then if n == 0 then 0 else s else if m s == 0 then 0 else rest

-- The loop of `strrchr`, with the place of the last occurrence.
pub strrchr : ℕ → Memory → ℕ → ℕ → ℕ → Option ℕ
strrchr zero m s c occ = none
strrchr (suc fuel) m s c occ =
    let rest = strrchr fuel m (s + 1) c (if to_int (m s) == c then s + 1 else occ) in
    if m s == 0 then some occ else rest

pub strspn : ℕ → Memory → ℕ → ℕ → ℕ → Option ℕ
strspn zero m s1 s2 ret = none
strspn (suc fuel) m s1 s2 ret =
    let rest = strspn fuel m (s1 + 1) s2 (ret + 1) in
    if m s1 == 0
    then some ret
    else strchr fuel m s2 (to_int (m s1)) >>= λ found. if found == 0 then some ret else rest

pub strcspn : ℕ → Memory → ℕ → ℕ → ℕ → Option ℕ
strcspn zero m s1 s2 ret = none
strcspn (suc fuel) m s1 s2 ret =
    let rest = strcspn fuel m (s1 + 1) s2 (ret + 1) in
    if m s1 == 0
    then some ret
    else strchr fuel m s2 (to_int (m s1)) >>= λ found. if found == 0 then rest else some ret

-- What `strtok_r` leaves and returns.
pub record Token : Type 0 where
  pub memory : Memory
  pub save : ℕ
  pub token : ℕ

-- From the place where it looks for a token on.
pub next_token : ℕ → Memory → ℕ → ℕ → Option Token
next_token fuel m from delim = do
  skipped ← strspn fuel m from delim 0
  size ← strcspn fuel m (from + skipped) delim 0
  let start = from + skipped in
      let p = start + size in
      some (
        if p == start
        then record { memory = m; save = 0; token = 0 }
        else if m p == 0
        then record { memory = m; save = 0; token = start }
        else record { memory = update m p 0; save = p + 1; token = start })

pub strtok_r : ℕ → Memory → ℕ → ℕ → ℕ → Option Token
strtok_r fuel m str delim save =
    if not (str == 0)
    then next_token fuel m str delim
    else if save == 0
    then some (record { memory = m; save = save; token = 0 })
    else next_token fuel m save delim

pub strcat : ℕ → Memory → ℕ → ℕ → Option Memory
strcat fuel m dest src = do length ← strlen fuel m dest 0; strcpy fuel m (dest + length) src

pub strncat : ℕ → Memory → ℕ → ℕ → ℕ → Option Memory
strncat fuel m dest src n = do length ← strlen fuel m dest 0; some (strncpy m (dest + length) src n)

pub toupper : ℕ → ℕ
toupper c = if leb 97 c && leb c 122 then c - 97 + 65 else c

pub strupr : ℕ → Memory → ℕ → Option Memory
strupr zero m s = none
strupr (suc fuel) m s =
    let rest = strupr fuel (update m s (toupper (m s))) (s + 1) in if m s == 0 then some m else rest

pub strnupr : Memory → ℕ → ℕ → Memory
strnupr m s zero = m
strnupr m s (suc n) =
    let rest = strnupr (update m s (toupper (m s))) (s + 1) n in if m s == 0 then m else rest
