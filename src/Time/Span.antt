-- ===== src/Time/Span.antt =====
-- `Duration::getAs` against a table of the nanoseconds in each unit.
use nite_os_project.Common.{ℕ, ◌*◌, ◌/◌, ◌^◌, ◌<◌, ◌≡◌, arith}
use nite_os_project.Time.{
  TimeUnit, nanosecond, microsecond, millisecond, second, minute, hour, day, month, year, Duration,
  amount_of, get_as,
}

-- With months of 30 days and years of 365.
unfoldable pub ns_of : TimeUnit → ℕ
ns_of nanosecond = 1
ns_of microsecond = 1000
ns_of millisecond = 1000000
ns_of second = 1000000000
ns_of minute = 60000000000
ns_of hour = 3600000000000
ns_of day = 86400000000000
ns_of month = 2592000000000000
ns_of year = 31536000000000000

amount_of_lem :
    (span : TimeUnit) (n : ℕ)
    → n * ns_of span / 1000000 < 2 ^ 64
    → amount_of span n ≡ n * ns_of span / 1000000
unfolding amount_of ns_of
amount_of_lem nanosecond n h = omega arith
amount_of_lem microsecond n h = omega arith
amount_of_lem millisecond n h = omega arith
amount_of_lem second n h = omega arith
amount_of_lem minute n h = omega arith
amount_of_lem hour n h = omega arith
amount_of_lem day n h = omega arith
amount_of_lem month n h = omega arith
amount_of_lem year n h = omega arith

-- Whichever unit is asked for, `getAs` returns the whole milliseconds of the duration, if their
-- number fits 64 bits.
pub get_as-milliseconds :
    (d : Duration) (unit : TimeUnit)
    → d.amount * ns_of d.span / 1000000 < 2 ^ 64
    → get_as d unit ≡ d.amount * ns_of d.span / 1000000
unfolding get_as
get_as-milliseconds d unit h = amount_of_lem d.span d.amount h
