-- ===== src/Time/Normal.antt =====
-- `Time::fixOverflow`, `operator+=` and `operator==`: ranges, the time that is stood for, equality.
use nite_os_project.Common.{ℕ, ◌+◌, ◌*◌, ◌^◌, ◌≤◌, ◌<◌, ◌≡◌, ◌↔◌, true, arith, ◌∙◌}
use nite_os_project.Time.{
  Time, carry_millisecond, carry_second, carry_minute, carry_hour, carry_day, carry_month,
  fix_overflow, add_fields, add_assign, eq,
}

-- What the six tests of `fixOverflow` leave alone.
pub record IsNormal (t : Time) : Type 0 where
  pub millisecond : t.millisecond ≤ 999
  pub second : t.second ≤ 59
  pub minute : t.minute ≤ 59
  pub hour : t.hour ≤ 23
  pub day : t.day ≤ 30
  pub month : t.month ≤ 12

-- No field is near the end of its range.
pub record IsBelow (bound : ℕ) (t : Time) : Type 0 where
  pub year : t.year < bound
  pub month : t.month < bound
  pub day : t.day < bound
  pub hour : t.hour < bound
  pub minute : t.minute < bound
  pub second : t.second < bound
  pub millisecond : t.millisecond < bound

-- The milliseconds of a time, with months of 30 days and years of 12 months.
abbrev pub total : Time → ℕ
total t =
    t.millisecond
    + 1000
      * (t.second + 60 * (t.minute + 60 * (t.hour + 24 * (t.day + 30 * (t.month + 12 * t.year)))))

-- `fixOverflow` brings each field into its range, whatever the fields were.
pub fix_overflow-IsNormal : (t : Time) → IsNormal (fix_overflow t)
unfolding fix_overflow carry_millisecond carry_second carry_minute carry_hour carry_day carry_month
fix_overflow-IsNormal t = ground arith

-- Each test keeps the total, if the sum that it makes does not wrap.
carry_millisecond-total :
    (t : Time) → t.second < 2 ^ 63 → t.millisecond < 2 ^ 63 → total (carry_millisecond t) ≡ total t
unfolding carry_millisecond
carry_millisecond-total t p q = ground arith

carry_second-total :
    (t : Time) → t.minute < 2 ^ 63 → t.second < 2 ^ 64 → total (carry_second t) ≡ total t
unfolding carry_second
carry_second-total t p q = ground arith

carry_minute-total :
    (t : Time) → t.hour < 2 ^ 63 → t.minute < 2 ^ 64 → total (carry_minute t) ≡ total t
unfolding carry_minute
carry_minute-total t p q = ground arith

carry_hour-total : (t : Time) → t.day < 2 ^ 63 → t.hour < 2 ^ 64 → total (carry_hour t) ≡ total t
unfolding carry_hour
carry_hour-total t p q = ground arith

carry_day-total : (t : Time) → t.month < 2 ^ 63 → t.day < 2 ^ 64 → total (carry_day t) ≡ total t
unfolding carry_day
carry_day-total t p q = ground arith

carry_month-total :
    (t : Time) → t.year < 2 ^ 63 → t.month < 2 ^ 64 → total (carry_month t) ≡ total t
unfolding carry_month
carry_month-total t p q = ground arith

-- The fields that a test has not yet added to keep their bounds.
carry_millisecond-below :
    (t : Time)
    → IsBelow (2 ^ 63) t
    → let u = carry_millisecond t in
      (u.second < 2 ^ 64)
      × (u.minute < 2 ^ 63)
      × (u.hour < 2 ^ 63)
      × (u.day < 2 ^ 63)
      × (u.month < 2 ^ 63)
      × (u.year < 2 ^ 63)
unfolding carry_millisecond
carry_millisecond-below t b = ground arith

carry_second-below :
    (t : Time)
    → t.minute < 2 ^ 63
    → let u = carry_second t in
      (u.minute < 2 ^ 64)
      × (u.hour ≡ t.hour)
      × (u.day ≡ t.day)
      × (u.month ≡ t.month)
      × (u.year ≡ t.year)
unfolding carry_second
carry_second-below t b = ground arith

carry_minute-below :
    (t : Time)
    → t.hour < 2 ^ 63
    → let u = carry_minute t in
      (u.hour < 2 ^ 64) × (u.day ≡ t.day) × (u.month ≡ t.month) × (u.year ≡ t.year)
unfolding carry_minute
carry_minute-below t b = ground arith

carry_hour-below :
    (t : Time)
    → t.day < 2 ^ 63
    → let u = carry_hour t in (u.day < 2 ^ 64) × (u.month ≡ t.month) × (u.year ≡ t.year)
unfolding carry_hour
carry_hour-below t b = ground arith

carry_day-below :
    (t : Time) → t.month < 2 ^ 63 → let u = carry_day t in (u.month < 2 ^ 64) × (u.year ≡ t.year)
unfolding carry_day
carry_day-below t b = ground arith

-- Where no field reaches 2^63, `fixOverflow` does not change the milliseconds that are stood for.
pub fix_overflow-total : (t : Time) → IsBelow (2 ^ 63) t → total (fix_overflow t) ≡ total t
unfolding fix_overflow
fix_overflow-total t b =
    let t1 = carry_millisecond t in
    let (s1, m1, h1, d1, mo1, y1) = carry_millisecond-below t b in
    let t2 = carry_second t1 in
    let (m2, h2, d2, mo2, y2) = carry_second-below t1 m1 in
    let t3 = carry_minute t2 in
    let (h3, d3, mo3, y3) = carry_minute-below t2 (omega arith) in
    let t4 = carry_hour t3 in
    let (d4, mo4, y4) = carry_hour-below t3 (omega arith) in
    let t5 = carry_day t4 in
    let (mo5, y5) = carry_day-below t4 (omega arith) in
    carry_month-total t5 (omega arith) mo5
    ∙ carry_day-total t4 (omega arith) d4
    ∙ carry_hour-total t3 (omega arith) h3
    ∙ carry_minute-total t2 (omega arith) m2
    ∙ carry_second-total t1 m1 s1
    ∙ carry_millisecond-total t b.second b.millisecond

add_fields-total :
    (a b : Time)
    → IsBelow (2 ^ 62) a
    → IsBelow (2 ^ 62) b
    → (total (add_fields a b) ≡ total a + total b) × IsBelow (2 ^ 63) (add_fields a b)
unfolding add_fields
add_fields-total a b p q = ground arith

-- `operator+=` adds the milliseconds that the two times stand for, and leaves each field in its
-- range, if no field reaches 2^62.
pub add_assign-total :
    (a b : Time)
    → IsBelow (2 ^ 62) a
    → IsBelow (2 ^ 62) b
    → (total (add_assign a b) ≡ total a + total b) × IsNormal (add_assign a b)
unfolding add_assign
add_assign-total a b p q =
    let (sums, below) = add_fields-total a b p q in
    (fix_overflow-total (add_fields a b) below ∙ sums, fix_overflow-IsNormal (add_fields a b))

fix_overflow-eq_of_IsNormal : (t : Time) → IsNormal t → fix_overflow t ≡ t
unfolding fix_overflow carry_millisecond carry_second carry_minute carry_hour carry_day carry_month
fix_overflow-eq_of_IsNormal t n = ground arith

-- `fixOverflow` changes nothing of a time whose fields are in their ranges, so that a second call
-- changes nothing.
pub fix_overflow_fixed :
    (t : Time)
    → (IsNormal t → fix_overflow t ≡ t) × (fix_overflow (fix_overflow t) ≡ fix_overflow t)
fix_overflow_fixed t = (
  fix_overflow-eq_of_IsNormal t,
  fix_overflow-eq_of_IsNormal (fix_overflow t) (fix_overflow-IsNormal t),
)

-- `operator==` holds exactly of equal times.
pub eq_iff : (a b : Time) → (eq a b ≡ true) ↔ (a ≡ b)
unfolding eq
eq_iff a b = (λ h. ground arith, λ h. ground arith)
