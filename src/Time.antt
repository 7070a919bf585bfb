-- ===== src/Time.antt =====
-- Kernel/inc/siberix/time: `Time` (time.h), `Duration` and `TimeUnit` (unit.h), `Calendar`
-- (calendar.h) and `Date` (date.h). Every field of `Time` is a `uint64_t`.
pub mod Normal
pub mod Calendar
pub mod Span
mod Tests
use nite_os_project.Common.{ℕ, ◌*◌, ◌/◌, ◌%◌, Bool, ◌&&◌, ◌||◌, ltb, ◌==◌, not, if◌then◌else◌}
use nite_os_project.Common.Words.{add64, mul64}

pub record Time : Type 0 where
  pub year : ℕ
  pub month : ℕ
  pub day : ℕ
  pub hour : ℕ
  pub minute : ℕ
  pub second : ℕ
  pub millisecond : ℕ

-- The six tests of `fixOverflow`, in its order.
carry_millisecond : Time → Time
carry_millisecond t =
    if ltb 999 t.millisecond
    then record t {
      second = add64 t.second (t.millisecond / 1000);
      millisecond = t.millisecond % 1000;
    }
    else t

carry_second : Time → Time
carry_second t =
    if ltb 59 t.second
    then record t { minute = add64 t.minute (t.second / 60); second = t.second % 60 }
    else t

carry_minute : Time → Time
carry_minute t =
    if ltb 59 t.minute
    then record t { hour = add64 t.hour (t.minute / 60); minute = t.minute % 60 }
    else t

carry_hour : Time → Time
carry_hour t =
    if ltb 23 t.hour then record t { day = add64 t.day (t.hour / 24); hour = t.hour % 24 } else t

carry_day : Time → Time
carry_day t =
    if ltb 30 t.day then record t { month = add64 t.month (t.day / 30); day = t.day % 30 } else t

carry_month : Time → Time
carry_month t =
    if ltb 12 t.month
    then record t { year = add64 t.year (t.month / 12); month = t.month % 12 }
    else t

pub fix_overflow : Time → Time
fix_overflow t =
    carry_month (carry_day (carry_hour (carry_minute (carry_second (carry_millisecond t)))))

-- The seven sums of `operator+=`, before its call of `fixOverflow`.
add_fields : Time → Time → Time
add_fields a b = record {
  year = add64 a.year b.year;
  month = add64 a.month b.month;
  day = add64 a.day b.day;
  hour = add64 a.hour b.hour;
  minute = add64 a.minute b.minute;
  second = add64 a.second b.second;
  millisecond = add64 a.millisecond b.millisecond;
}

-- `operator+=`, with the object that it leaves.
pub add_assign : Time → Time → Time
unfolding add_fields
add_assign a b = fix_overflow (add_fields a b)

-- `operator==`
pub eq : Time → Time → Bool
eq a b =
    a.year == b.year
    && a.month == b.month
    && a.day == b.day
    && a.hour == b.hour
    && a.minute == b.minute
    && a.second == b.second
    && a.millisecond == b.millisecond

pub data TimeUnit : Type 0 where
  nanosecond microsecond millisecond second minute hour day month year : TimeUnit

pub record Duration : Type 0 where
  pub span : TimeUnit
  pub amount : ℕ

-- `Duration(uint64_t ms)`
pub of_ms : ℕ → Duration
of_ms ms = record { span = millisecond; amount = ms }

-- The `switch` of `getAs` tests the member `_span`; its parameter `span` is not read.
amount_of : TimeUnit → ℕ → ℕ
amount_of nanosecond n = n / 1000000
amount_of microsecond n = n / 1000
amount_of millisecond n = n
amount_of second n = mul64 n 1000
amount_of minute n = mul64 (mul64 n 1000) 60
amount_of hour n = mul64 (mul64 (mul64 n 1000) 60) 60
amount_of day n = mul64 (mul64 (mul64 (mul64 n 1000) 60) 60) 24
amount_of month n = mul64 (mul64 (mul64 (mul64 (mul64 n 1000) 60) 60) 24) 30
amount_of year n = mul64 (mul64 (mul64 (mul64 (mul64 n 1000) 60) 60) 24) 365

pub get_as : Duration → TimeUnit → ℕ
get_as d span = amount_of d.span d.amount

-- `invalid` is a value of the enum's type that no enumerator names.
pub data Month : Type 0 where
  january february march april may june : Month
  july august september october november december : Month
  invalid : ℕ → Month

pub is_leap_year : ℕ → Bool
is_leap_year y = (y % 4 == 0 && not (y % 100 == 0)) || y % 400 == 0

pub get_days_in_month : Month → ℕ → ℕ
get_days_in_month january y = 31
get_days_in_month march y = 31
get_days_in_month may y = 31
get_days_in_month july y = 31
get_days_in_month august y = 31
get_days_in_month october y = 31
get_days_in_month december y = 31
get_days_in_month april y = 30
get_days_in_month june y = 30
get_days_in_month september y = 30
get_days_in_month november y = 30
get_days_in_month february y = if is_leap_year y then 29 else 28
get_days_in_month (invalid n) y = 0
