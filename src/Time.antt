-- ===== src/Time.antt =====
-- src/kernel/time.c, and the decimal bytes of the clock chip (src/lib/stdlib.c). A date is the `tm` of
-- include/yui/time.h, whose fields are small and not negative; `time_t` is an unsigned 32-bit word.
-- src/lib/time.c has `localtime` and what it calls once more, for user programs.
mod Examples
pub mod Calendar
pub mod Stamp
pub mod Broken
use yuios.Common.{
  ℕ, zero, suc, ◌+◌, ◌-◌, ◌*◌, ◌/◌, ◌%◌, bit_and, min, Bool, not, ◌&&◌, ◌||◌, List, [], ◌∷◌, ltb,
  leb, ◌==◌, if◌then◌else◌, get_or, Outcome, ok, ◌>>=◌, ◌>>◌, access, add32, sub32, mul32,
}

-- `tm`; `tm_isdst` is set to -1 and never read
pub record Tm : Type 0 where
  pub sec : ℕ
  pub min : ℕ
  pub hour : ℕ
  pub mday : ℕ
  pub mon : ℕ
  pub year : ℕ
  pub wday : ℕ
  pub yday : ℕ

-- `month`: the days before each month of a leap year
abbrev pub month : List ℕ
month = 0 ∷ 0 ∷ 31 ∷ 60 ∷ 91 ∷ 121 ∷ 152 ∷ 182 ∷ 213 ∷ 244 ∷ 274 ∷ 305 ∷ 335 ∷ []

-- the years since 1970, from the two digits of the chip
abbrev pub since_1970 : ℕ → ℕ
since_1970 y = if leb 70 y then y - 70 else y + 30

-- `mktime`, with `int` and `time_t` sums modulo 2 ^ 32
unfoldable pub mktime : Tm → Outcome ℕ
mktime t = do
  let year = since_1970 t.year
  access (ltb t.mon 13)
  let res = mul32 31536000 year
  let res = add32 res (mul32 86400 ((year + 1) / 4))
  let res = add32 res (mul32 (get_or month t.mon 0) 86400)
  let res = if ltb 2 t.mon && not ((year + 2) % 4 == 0) then sub32 res 86400 else res
  let res = add32 res (mul32 86400 (sub32 t.mday 1))
  let res = add32 res (mul32 3600 t.hour)
  ok (add32 res t.sec)

-- `get_yday`
unfoldable pub get_yday : Tm → Outcome ℕ
get_yday t = do
  access (ltb t.mon 13)
  let res = get_or month t.mon 0 + t.mday
  ok (if not ((since_1970 t.year + 2) % 4 == 0) && ltb 2 t.mon then res - 1 else res)

-- `elapsed_leap_years`, for a year since 1900 that is at least 70
unfoldable pub elapsed_leap_years : ℕ → ℕ
elapsed_leap_years year = (year - 1) / 4 + (year + 299) / 400 - (year - 1) / 100 - 17

-- `is_leap_year`
unfoldable pub is_leap_year : ℕ → Bool
is_leap_year year = (year % 4 == 0 && not (year % 100 == 0)) || (year + 1900) % 400 == 0

-- The loop over the months: `left` are to come. `month[mon] - offset > yday` is written as a sum,
-- since the difference may be -1.
unfoldable pub find_month : (left mon offset yday : ℕ) → ℕ
find_month zero mon offset yday = mon
find_month (suc left) mon offset yday =
    let rest = find_month left (mon + 1) offset yday in
    if ltb (yday + offset) (get_or month mon 0) then mon else rest

-- the month and the day of the month that `localtime` gives
unfoldable pub month_day : (offset yday : ℕ) → ℕ × ℕ
month_day offset yday =
    let mon = find_month 12 1 offset yday - 1 in (mon, yday + offset + 1 - get_or month mon 0)

-- `localtime`
unfoldable pub localtime : ℕ → Tm
localtime stamp =
    let remain = stamp / 60 in
    let days = stamp / 60 / 60 / 24 in
    let years = days / 365 + 70 in
    let offset = if is_leap_year years then 0 else 1 in
    let yday = sub32 days (elapsed_leap_years years) % (366 - offset) in
    let (mon, mday) = month_day offset yday in
    record {
      sec = stamp % 60;
      min = remain % 60;
      hour = remain / 60 % 24;
      mday = mday;
      mon = mon;
      year = years;
      wday = (days + 4) % 7;
      yday = yday;
    }

-- `bcd_to_bin` and `bin_to_bcd`
unfoldable pub bcd_to_bin : ℕ → ℕ
bcd_to_bin value = (bit_and value 0xf + value / 16 * 10) % 256

unfoldable pub bin_to_bcd : ℕ → ℕ
bin_to_bcd value = (value / 10 * 0x10 + value % 10) % 256
