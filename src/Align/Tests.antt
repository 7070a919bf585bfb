-- ===== src/Align/Tests.antt =====
-- Runs of the functions of Kernel/inc/xtra-math and math.h, and the theorems at concrete numbers.
use nite_os_project.Common.{◌^◌, ◌≡◌, refl, arith, some}
use nite_os_project.Align.{align_down, align_up, align_two_exponent, smear, pow, pow_loop, Range}
use nite_os_project.Align.Power.{align_two_exponent-least}

-- The comment above `alignDown` gives 16 here.
nine_down : align_down 9 8 ≡ 8
unfolding align_down
nine_down = refl

seven_up : align_up 7 8 ≡ 8
unfolding align_up
seven_up = refl

five_up : align_two_exponent 5 ≡ 8
unfolding align_two_exponent smear
five_up = refl

three_cubed : pow 3 3 ≡ some 27
unfolding pow pow_loop
three_cubed = refl

align_two_exponent-least_example : align_two_exponent 600 ≡ 2 ^ 10
align_two_exponent-least_example =
    align_two_exponent-least 10 600 (omega arith) (omega arith) (omega arith) (omega arith)

abbrev percent : Range
percent = record { min = 0; max = 100 }
