-- ===== src/Time/Calendar.antt =====
-- `Calendar`: leap years and the lengths of months against the Gregorian rule.
use nite_os_project.Common.{ℕ, zero, suc, ◌+◌, ◌≡◌, refl, arith, if◌then◌else◌, ap, ◌∙◌, sym}
use nite_os_project.Time.{
  january, february, march, april, may, june, july, august, september, october, november, december,
  is_leap_year, get_days_in_month,
}

-- The days of the twelve months, in order.
pub days_in_year : ℕ → ℕ
days_in_year y =
    get_days_in_month january y
    + get_days_in_month february y
    + get_days_in_month march y
    + get_days_in_month april y
    + get_days_in_month may y
    + get_days_in_month june y
    + get_days_in_month july y
    + get_days_in_month august y
    + get_days_in_month september y
    + get_days_in_month october y
    + get_days_in_month november y
    + get_days_in_month december y

-- The days of the `n` years from `y` on.
pub days_in_years : ℕ → ℕ → ℕ
unfolding days_in_year
days_in_years y zero = 0
days_in_years y (suc n) = days_in_year y + days_in_years (suc y) n

is_leap_year_period : (y : ℕ) → is_leap_year (y + 400) ≡ is_leap_year y
unfolding is_leap_year
is_leap_year_period y = ground arith

days_in_year_period : (y : ℕ) → days_in_year (y + 400) ≡ days_in_year y
unfolding days_in_year get_days_in_month
days_in_year_period y = rw (is_leap_year_period y)

-- The twelve months of a year make 366 days if `isLeapYear` holds of it, and else 365.
pub days_in_year_lem : (y : ℕ) → days_in_year y ≡ (if is_leap_year y then 366 else 365)
unfolding days_in_year get_days_in_month
days_in_year_lem y = ground arith

-- The last of `suc n` years, set apart.
days_in_years-snoc : (n y : ℕ) → days_in_years y (suc n) ≡ days_in_years y n + days_in_year (y + n)
unfolding days_in_years
days_in_years-snoc zero y =
    let same : y ≡ y + 0 = omega arith in omega (arith, ap days_in_year same)
days_in_years-snoc (suc n) y =
    let same : suc y + n ≡ y + suc n = omega arith in
    omega (arith, days_in_years-snoc n (suc y), ap days_in_year same)

days_in_years-cons : (n y : ℕ) → days_in_years y (suc n) ≡ days_in_year y + days_in_years (suc y) n
unfolding days_in_years
days_in_years-cons n y = refl

cancel : (d e f g : ℕ) → d + e ≡ f + g → d ≡ g → e ≡ f
cancel d e f g p q = omega arith

days_in_years-next : (y : ℕ) → days_in_years (suc y) 400 ≡ days_in_years y 400
days_in_years-next y =
    cancel (days_in_year y) (days_in_years (suc y) 400) (days_in_years y 400)
      (days_in_year (y + 400)) (sym (days_in_years-cons 400 y) ∙ days_in_years-snoc 400 y)
      (sym (days_in_year_period y))

first_cycle : days_in_years 0 400 ≡ 146097
unfolding days_in_years get_days_in_month is_leap_year
first_cycle = refl

-- Any 400 consecutive years, from whichever year on, have 146097 days.
pub gregorian_cycle : (y : ℕ) → days_in_years y 400 ≡ 146097
gregorian_cycle zero = first_cycle
gregorian_cycle (suc y) = days_in_years-next y ∙ gregorian_cycle y
