-- ===== src/CText/Tests.antt =====
-- "a,b" at 16 and "," at 32, in a memory that holds 0 elsewhere.
use nite_os_project.Common.{
  ℕ, ◌<◌, ◌≡◌, ◌⊎◌, inl, inr, refl, arith, ◌==◌, if◌then◌else◌, some, [], ◌∷◌,
}
use nite_os_project.Bytes.{Memory}
use nite_os_project.CText.{strcat, strcmp, strnchr, strrchr, strtok_r, Token}
use nite_os_project.CText.Texts.{IsText}
use nite_os_project.CText.Measure.{Decides, strcmp-Decides}
use nite_os_project.CText.Join.{strcat-Written}
use nite_os_project.CText.Tokens.{GoesOn, strtok_r-token}

abbrev shown : Memory
shown a =
    if a == 16
    then 97
    else if a == 17
    then 44
    else if a == 18
    then 98
    else if a == 32
    then 44
    else 0

-- `strnchr` gives the end of the range where the character is not in it, and null where it comes last.
missing : strnchr shown 16 120 2 ≡ 18
unfolding strnchr
missing = refl

last : strnchr shown 16 98 3 ≡ 0
unfolding strnchr
last = refl

-- `strrchr` gives the place behind the last occurrence.
behind : strrchr 9 shown 16 98 0 ≡ some 19
unfolding strrchr
behind = refl

strcmp-Decides_example : Decides (strcmp 9 shown 16 32) (97 ∷ 44 ∷ 98 ∷ []) (44 ∷ [])
strcmp-Decides_example =
    strcmp-Decides 9 shown 16 32 (97 ∷ 44 ∷ 98 ∷ []) (44 ∷ []) (omega arith)
      (
        (
          (refl, omega arith, omega arith),
          ((refl, omega arith, omega arith), ((refl, omega arith, omega arith), tt)),
        ),
        refl,
      )
      (((refl, omega arith, omega arith), tt), refl)

strcat-Written_example :
    (n : Memory) × (strcat 9 shown 32 16 ≡ some n)
    × IsText n 32 (44 ∷ 97 ∷ 44 ∷ 98 ∷ [])
    × ((a : ℕ) → (a < 33) ⊎ (36 < a) → n a ≡ shown a)
strcat-Written_example =
    strcat-Written 9 shown 32 16 (44 ∷ []) (97 ∷ 44 ∷ 98 ∷ []) (omega arith) (omega arith)
      (((refl, omega arith, omega arith), tt), refl)
      (
        (
          (refl, omega arith, omega arith),
          ((refl, omega arith, omega arith), ((refl, omega arith, omega arith), tt)),
        ),
        refl,
      )
      (inr (omega arith))

strtok_r-token_example :
    (k : Token) × (strtok_r 9 shown 16 32 0 ≡ some k)
    × (k.token ≡ 16)
    × IsText k.memory 16 (97 ∷ [])
    × GoesOn shown 32
        (44 ∷ [])
        (omega arith)
        (((refl, omega arith, omega arith), tt), refl)
        k
        17
        (44 ∷ 98 ∷ [])
strtok_r-token_example =
    strtok_r-token shown 32 (44 ∷ []) (omega arith) (((refl, omega arith, omega arith), tt), refl) 8
      16 16 0 [] (97 ∷ []) (44 ∷ 98 ∷ []) (omega arith) (inl refl) (omega arith)
      (
        (
          (refl, omega arith, omega arith),
          ((refl, omega arith, omega arith), ((refl, omega arith, omega arith), tt)),
        ),
        refl,
      )
      tt (refl, tt) (omega arith) refl
