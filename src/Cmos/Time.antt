-- ===== src/Cmos/Time.antt =====
-- drivers/cmos.c: the time of the clock chip, against mktime of libc/time.c.
use bingos.Common.{ℕ, ◌+◌, ◌-◌, ◌*◌, ◌^◌, ◌≤◌, ◌<◌, ◌≡◌, ap, true, some, leb, arith}
use bingos.Calendar.{Tm, leapyear, mktime}
use bingos.Calendar.Fields.{days_of_years, days_of_months}
use bingos.Calendar.Mktime.{IsDate, seconds_of, mktime-IsDate}
use bingos.Cmos.{from_bcd, secs_of_years, secs_of_month, cmos_time}
use bingos.Cmos.Years.{years_loop-days_of_years, fall_through-days_of_months, days_of_years-le}

-- The fields of the registers, as a `struct tm`.
unfoldable pub fields : (ℕ → ℕ) → Tm
fields values = record {
  tm_sec = from_bcd (values 0);
  tm_min = from_bcd (values 2);
  tm_hour = from_bcd (values 4);
  tm_mday = from_bcd (values 7);
  tm_mon = from_bcd (values 8) - 1;
  tm_year = 100 + from_bcd (values 9);
  tm_wday = 0;
  tm_yday = 0;
}

secs_of_years-days_of_years :
    (y : ℕ) → y < 100 → secs_of_years (2000 + y - 1) ≡ days_of_years (30 + y) * 86400
unfolding secs_of_years
secs_of_years-days_of_years y h =
    let e : 2000 + y - 1 ≡ 1969 + (30 + y) = omega arith in
    rw (e, years_loop-days_of_years (30 + y)) (omega (arith, days_of_years-le (30 + y)))

secs_of_month-days_of_months :
    (m y : ℕ) → m ≤ 11 → secs_of_month m y ≡ days_of_months (leapyear (1970 + (30 + y))) m * 86400
unfolding secs_of_month
secs_of_month-days_of_months m y h =
    let e : leb m 11 ≡ true = ground arith in
    let year : y + 2000 ≡ 1970 + (30 + y) = omega arith in
    rw (e, year) (ap (λ d. d * 86400) (fall_through-days_of_months (1970 + (30 + y)) m h))

cmos_time-seconds_of :
    (values : ℕ → ℕ)
    → from_bcd (values 9) < 100
    → 1 ≤ from_bcd (values 7)
    → IsDate (fields values) (30 + from_bcd (values 9))
    → seconds_of (fields values) (30 + from_bcd (values 9)) < 2 ^ 32
    → cmos_time values ≡ seconds_of (fields values) (30 + from_bcd (values 9))
unfolding cmos_time seconds_of fields
cmos_time-seconds_of values year day date range =
    let years = secs_of_years-days_of_years (from_bcd (values 9)) year in
    let m : from_bcd (values 8) - 1 ≤ 11 = omega (arith, date.is_mon) in
    let months = secs_of_month-days_of_months (from_bcd (values 8) - 1) (from_bcd (values 9)) m in
    rw (years, months) (omega (arith, range))

-- For a date from 2000 on, the boot time that is read from the clock chip is the one that mktime
-- computes from the same fields, as long as it fits in a time_t of 32 bits.
pub cmos_time-mktime :
    (values : ℕ → ℕ)
    → from_bcd (values 9) < 100
    → 1 ≤ from_bcd (values 7)
    → IsDate (fields values) (30 + from_bcd (values 9))
    → seconds_of (fields values) (30 + from_bcd (values 9)) ≤ 2147483647
    → mktime (fields values) ≡ some (cmos_time values)
cmos_time-mktime values year day date range =
    let small : seconds_of (fields values) (30 + from_bcd (values 9)) < 2 ^ 32 =
      omega (arith, range) in
    let time = cmos_time-seconds_of values year day date small in
    rw time (mktime-IsDate (fields values) (30 + from_bcd (values 9)) date range)
