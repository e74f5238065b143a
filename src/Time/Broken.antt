-- ===== src/Time/Broken.antt =====
-- src/kernel/time.c: where `mktime` and `localtime` differ from the calendar.
use yuios.Common.{
  ℕ, zero, suc, ◌+◌, ◌-◌, ◌*◌, ◌/◌, ◌≤◌, ◌<◌, ◌≡◌, refl, sym, ap, ◌∙◌, ◌≢◌, Bool, true, false, not,
  ◌&&◌, ◌||◌, arith, ltb, ltb→lt, Bool-cases, ◌↔◌, inl, inr, ◌==◌, if◌then◌else◌, check_below,
  check_below_lem, ok,
}
use yuios.Time.{Tm, mktime, month_day, find_month, localtime}
use yuios.Time.Calendar.{days_to_year, month_length}
use yuios.Time.Stamp.{IsDate, day_number, mktime_lem, year_facts}

-- the stamp of a date
abbrev pub true_stamp : Tm → ℕ
true_stamp t = 86400 * day_number t + 3600 * t.hour + 60 * t.min + t.sec

-- Whenever the minutes of a date are not 0, `mktime` returns an earlier stamp, by these minutes.
pub mktime_loses_minutes :
    (t : Tm)
    → IsDate t
    → 0 < t.min
    → (r : ℕ) × (mktime t ≡ ok r) × (r + 60 * t.min ≡ true_stamp t) × (r < true_stamp t)
mktime_loses_minutes t d h =
    (86400 * day_number t + 3600 * t.hour + t.sec, mktime_lem t d, omega arith, omega arith)

-- the month and the day of the month of a day of the year, counted from 0
search_month : (is_leap : Bool) → (left mon yday : ℕ) → ℕ × ℕ
unfolding month_length
search_month is_leap zero mon yday = (mon, yday + 1)
search_month is_leap (suc left) mon yday =
    let rest = search_month is_leap left (mon + 1) (yday - month_length is_leap mon) in
    if ltb yday (month_length is_leap mon) then (mon, yday + 1) else rest

unfoldable pub calendar_day : Bool → ℕ → ℕ × ℕ
unfolding search_month
calendar_day is_leap yday = search_month is_leap 12 1 yday

same_day : ℕ × ℕ → ℕ × ℕ → Bool
same_day (a, b) (c, d) = a == c && b == d

same_day→eq : (p q : ℕ × ℕ) → same_day p q ≡ true → p ≡ q
unfolding same_day
same_day→eq p q h = ground arith

differ : (p q : ℕ × ℕ) → not (same_day p q) ≡ true → p ≢ q
unfolding same_day
differ p q h e = ground (arith, ap (λ (d : ℕ × ℕ). d.0) e, ap (λ (d : ℕ × ℕ). d.1) e)

leap_table : check_below 366 (λ y. same_day (month_day 0 y) (calendar_day true y)) ≡ true
unfolding check_below month_day find_month calendar_day same_day
leap_table = refl

late_table : check_below 365 (λ y. same_day (month_day 1 y) (calendar_day true (y + 1))) ≡ true
unfolding check_below month_day find_month calendar_day same_day
late_table = refl

spring_table :
    check_below 365 (λ y. ltb y 59 || same_day (calendar_day true (y + 1)) (calendar_day false y))
    ≡ true
unfolding check_below calendar_day same_day
spring_table = refl

january_table :
    check_below 59 (λ y. not (same_day (calendar_day true (y + 1)) (calendar_day false y))) ≡ true
unfolding check_below calendar_day same_day
january_table = refl

-- For a day of the year below 365: in a leap year it gets its month and day of the month. In any other
-- year it gets the date that a leap year has a day later, which is right exactly from the 60th day on.
pub month_day_lem :
    (yday : ℕ)
    → yday < 365
    → (month_day 0 yday ≡ calendar_day true yday)
      × (month_day 1 yday ≡ calendar_day true (yday + 1))
      × ((59 ≤ yday) ↔ (month_day 1 yday ≡ calendar_day false yday))
month_day_lem yday h = (
  in_leap,
  late,
  (
    in_spring,
    λ e. elim (Bool-cases (ltb yday 59)) [
      | inl before ↦ absurd (in_january (ltb→lt yday 59 before) e)
      | inr after ↦ ground arith
    ],
  ),
)
  where
    in_leap : month_day 0 yday ≡ calendar_day true yday
    in_leap = same_day→eq _ _ (
        check_below_lem 366 (λ y. same_day (month_day 0 y) (calendar_day true y)) yday leap_table
          (omega arith))

    late : month_day 1 yday ≡ calendar_day true (yday + 1)
    late = same_day→eq _ _ (
        check_below_lem 365 (λ y. same_day (month_day 1 y) (calendar_day true (y + 1))) yday
          late_table h)

    spring :
        (ltb yday 59 || same_day (calendar_day true (yday + 1)) (calendar_day false yday)) ≡ true
    spring =
        check_below_lem 365
          (λ y. ltb y 59 || same_day (calendar_day true (y + 1)) (calendar_day false y)) yday
          spring_table h

    in_spring : 59 ≤ yday → month_day 1 yday ≡ calendar_day false yday
    in_spring lo = late ∙ same_day→eq _ _ (ground (arith, spring))

    in_january : yday < 59 → month_day 1 yday ≢ calendar_day false yday
    in_january hi e =
        differ _ _
          (check_below_lem 59
            (λ y. not (same_day (calendar_day true (y + 1)) (calendar_day false y))) yday
            january_table hi)
          (sym late ∙ e)

-- On the days of 1970 to 2069 that follow 365 * n by less than the leap days before year n,
-- `localtime` gives year n, though that year has not begun.
pub localtime_year_early :
    (n r clock : ℕ)
    → n < 100
    → r < (n + 1) / 4
    → clock < 86400
    → ((localtime (86400 * (365 * n + r) + clock)).year ≡ n + 70) × (365 * n + r < days_to_year n)
unfolding localtime
localtime_year_early n r clock hn hr hc = omega (arith, (year_facts n hn).0)
