-- ===== src/Time/Stamp.antt =====
-- src/kernel/time.c: what `mktime` and `localtime` have right.
use yuios.Common.{
  ℕ, ◌+◌, ◌-◌, ◌*◌, ◌/◌, ◌%◌, ◌≤◌, ◌<◌, ◌≡◌, refl, Bool, true, false, not, ◌&&◌, ◌||◌, arith, ltb,
  leb, ◌==◌, if◌then◌else◌, leb→le, check_below, check_below_lem, get_or, ok,
}
use yuios.Time.{Tm, month, since_1970, mktime, get_yday, localtime}
use yuios.Time.Calendar.{leap, days_to_year, days_to_month}

-- a date that the clock chip can give, after its digits are read
pub record IsDate (t : Tm) : Type 0 where
  pub year : t.year < 100
  pub mon : (1 ≤ t.mon) × (t.mon ≤ 12)
  pub mday : (1 ≤ t.mday) × (t.mday ≤ 31)
  pub hour : t.hour < 24
  pub min : t.min < 60
  pub sec : t.sec < 60

year_law : ℕ → Bool
year_law n =
    days_to_year n == 365 * n + (n + 1) / 4
    && (if leap (1970 + n) then (n + 2) % 4 == 0 else not ((n + 2) % 4 == 0))

year_table : check_below 100 year_law ≡ true
unfolding check_below year_law leap days_to_year
year_table = refl

-- From 1970 to 2069 every fourth year is a leap year, which the source counts on.
pub year_facts :
    (n : ℕ)
    → n < 100
    → (days_to_year n ≡ 365 * n + (n + 1) / 4) × (leap (1970 + n) ≡ ((n + 2) % 4 == 0))
unfolding year_law
year_facts n h = let e = check_below_lem 100 year_law n year_table h in ground arith

month_law : ℕ → Bool
month_law m =
    (m == 0)
    || (days_to_month true m == get_or month m 0
        && days_to_month false m == get_or month m 0 - (if ltb 2 m then 1 else 0))

month_table : check_below 13 month_law ≡ true
unfolding check_below month_law days_to_month
month_table = refl

month_facts :
    (m : ℕ)
    → 1 ≤ m
    → m ≤ 12
    → (days_to_month true m ≡ get_or month m 0)
      × (days_to_month false m ≡ get_or month m 0 - (if ltb 2 m then 1 else 0))
unfolding month_law
month_facts m lo hi =
    let e = check_below_lem 13 month_law m month_table (omega arith) in ground arith

bound_table : check_below 13 (λ k. leb (get_or month k 0) 335) ≡ true
unfolding check_below
bound_table = refl

month_bound : (m : ℕ) → m ≤ 12 → get_or month m 0 ≤ 335
month_bound m h =
    leb→le _ _ (check_below_lem 13 (λ k. leb (get_or month k 0) 335) m bound_table (omega arith))

-- the day of a date, counted from the start of 1970
abbrev pub day_number : Tm → ℕ
day_number t =
    let n = since_1970 t.year in
    days_to_year n + days_to_month (leap (1970 + n)) t.mon + (t.mday - 1)

-- For a date of 1970 to 2069, `mktime` does not halt and counts the days and hours of the Gregorian
-- calendar and the seconds. The minutes of the date are not part of the result.
pub mktime_lem : (t : Tm) → IsDate t → mktime t ≡ ok (86400 * day_number t + 3600 * t.hour + t.sec)
unfolding mktime
mktime_lem t d = ground (
  arith,
  year_facts (since_1970 t.year),
  month_facts t.mon d.mon.0 d.mon.1,
  month_bound t.mon d.mon.1,
)

-- `get_yday` is the Gregorian day of the year, from 1.
pub get_yday_lem :
    (t : Tm)
    → IsDate t
    → get_yday t ≡ ok (days_to_month (leap (1970 + since_1970 t.year)) t.mon + t.mday)
unfolding get_yday
get_yday_lem t d =
    ground (arith, year_facts (since_1970 t.year), month_facts t.mon d.mon.0 d.mon.1, d.mday.0)

-- The time of day and the day of the week that `localtime` gives make up the stamp: with a number of
-- whole days they add up to it, they lie in their ranges, and day 0 is a Thursday.
pub localtime-clock :
    (stamp : ℕ)
    → let t = localtime stamp in
      (stamp / 86400 * 86400 + t.hour * 3600 + t.min * 60 + t.sec ≡ stamp)
      × (t.hour < 24)
      × (t.min < 60)
      × (t.sec < 60)
      × (t.wday ≡ (stamp / 86400 + 4) % 7)
unfolding localtime
localtime-clock stamp = omega arith
