-- ===== src/Time/Examples.antt =====
-- 29 February 2024, 12:34:56, as the clock chip reads it.
use yuios.Common.{◌+◌, ◌≤◌, ◌≡◌, ◌↔◌, true, false, arith}
use yuios.Time.{Tm, month_day}
use yuios.Time.Stamp.{IsDate}
use yuios.Time.Broken.{calendar_day, month_day_lem}

abbrev leap_day : Tm
leap_day = record {
  sec = 56;
  min = 34;
  hour = 12;
  mday = 29;
  mon = 2;
  year = 24;
  wday = 4;
  yday = 0;
}

leap_day-IsDate : IsDate leap_day
leap_day-IsDate = record {
  year = omega arith;
  mon = (omega arith, omega arith);
  mday = (omega arith, omega arith);
  hour = omega arith;
  min = omega arith;
  sec = omega arith;
}

month_day_lem_example :
    (month_day 0 31 ≡ calendar_day true 31)
    × (month_day 1 31 ≡ calendar_day true (31 + 1))
    × ((59 ≤ 31) ↔ (month_day 1 31 ≡ calendar_day false 31))
month_day_lem_example = month_day_lem 31 (omega arith)
