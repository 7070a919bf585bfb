-- ===== src/Time/Tests.antt =====
-- Runs of the functions of Kernel/inc/siberix/time, and the theorems at concrete times.
use nite_os_project.Common.{◌≡◌, refl, arith, if◌then◌else◌}
use nite_os_project.Time.{
  Time, fix_overflow, add_assign, is_leap_year, carry_millisecond, carry_second, carry_minute,
  carry_hour, carry_day, carry_month,
}
use nite_os_project.Time.Normal.{IsNormal, total, fix_overflow-IsNormal, fix_overflow-total}
use nite_os_project.Time.Calendar.{days_in_year, days_in_year_lem}

-- One millisecond short of a new minute, day and month.
abbrev late : Time
late = record {
  year = 2023;
  month = 6;
  day = 30;
  hour = 23;
  minute = 59;
  second = 59;
  millisecond = 999;
}

abbrev tick : Time
tick = record { year = 0; month = 0; day = 0; hour = 0; minute = 0; second = 0; millisecond = 1 }

late_ticks :
    add_assign late tick
    ≡ record { year = 2023; month = 7; day = 1; hour = 0; minute = 0; second = 0; millisecond = 0 }
unfolding add_assign fix_overflow carry_millisecond carry_second carry_minute carry_hour carry_day
    carry_month
late_ticks = refl

fix_overflow-IsNormal_example : IsNormal (fix_overflow (record late { second = 100000 }))
fix_overflow-IsNormal_example = fix_overflow-IsNormal (record late { second = 100000 })

fix_overflow-total_example :
    total (fix_overflow (record late { hour = 77 })) ≡ total (record late { hour = 77 })
fix_overflow-total_example = fix_overflow-total (record late { hour = 77 }) (omega arith)

days_in_year_lem_example : days_in_year 1900 ≡ (if is_leap_year 1900 then 366 else 365)
days_in_year_lem_example = days_in_year_lem 1900
