-- ===== src/Time/Calendar.antt =====
-- The Gregorian calendar, as src/kernel/time.c is measured against it.
use yuios.Common.{
  ℕ, zero, suc, ◌+◌, ◌%◌, ◌<◌, ◌≡◌, refl, Bool, true, not, ◌&&◌, ◌||◌, arith, ◌==◌, if◌then◌else◌,
  ==_iff, check_below, check_below_lem,
}
use yuios.Time.{is_leap_year, bcd_to_bin, bin_to_bcd}

-- whether a year of the common era is a leap year
unfoldable pub leap : ℕ → Bool
leap y = y % 4 == 0 && (not (y % 100 == 0) || y % 400 == 0)

-- the days from the start of 1970 to the start of the `n`th year after it
unfoldable pub days_to_year : ℕ → ℕ
unfolding leap
days_to_year zero = 0
days_to_year (suc n) = days_to_year n + (if leap (1970 + n) then 366 else 365)

-- the length of a month, from 1
unfoldable pub month_length : Bool → ℕ → ℕ
month_length is_leap mon =
    if mon == 2
    then (if is_leap then 29 else 28)
    else if mon == 4 || mon == 6 || mon == 9 || mon == 11
    then 30
    else 31

-- the days of the year before a month
unfoldable pub days_to_month : Bool → ℕ → ℕ
unfolding month_length
days_to_month is_leap zero = 0
days_to_month is_leap (suc zero) = 0
days_to_month is_leap (suc (suc m)) = days_to_month is_leap (suc m) + month_length is_leap (suc m)

-- `is_leap_year` is the Gregorian rule, for every year since 1900.
pub is_leap_year-leap : (y : ℕ) → is_leap_year y ≡ leap (y + 1900)
unfolding is_leap_year leap
is_leap_year-leap y = ground arith

bcd_table : check_below 100 (λ v. bcd_to_bin (bin_to_bcd v) == v) ≡ true
unfolding check_below bcd_to_bin bin_to_bcd
bcd_table = refl

-- A number below 100 survives the way to the clock chip's digits and back.
pub bcd_to_bin-bin_to_bcd : (v : ℕ) → v < 100 → bcd_to_bin (bin_to_bcd v) ≡ v
bcd_to_bin-bin_to_bcd v h =
    (==_iff _ v).0 (check_below_lem 100 (λ w. bcd_to_bin (bin_to_bcd w) == w) v bcd_table h)
