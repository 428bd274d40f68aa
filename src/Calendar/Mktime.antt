-- ===== src/Calendar/Mktime.antt =====
-- libc/time.c: mktime takes the fields of gmtime_r back to the time.
use bingos.Common.{
  ℕ, zero, suc, ◌+◌, ◌-◌, ◌*◌, ◌/◌, ◌%◌, ◌≤◌, ◌<◌, ◌≡◌, refl, ap, subst, Bool, false, some, ◌||◌,
  leb, ltb, arith,
}
use native.Mathlib.Numerals.{unary_clauses}
use bingos.Calendar.{time_of, Tm, leapyear, ytab, gmtime_r, carry_days, sum_months, mktime}
use bingos.Calendar.Fields.{days_of_years, days_of_months, yearsize-bounds, gmtime_r_lem}
use bingos.Calendar.Days.{days_before-days_of_years}

sum_months-days_of_months :
    (left month : ℕ) (leap : Bool)
    → days_of_months leap month + sum_months left leap month ≡ days_of_months leap (month + left)
unfolding sum_months days_of_months
sum_months-days_of_months zero month leap = simp unary_clauses refl
sum_months-days_of_months (suc left) month leap =
    let next : suc month + left ≡ month + suc left = omega arith in
    rw (← next) (omega (arith, sum_months-days_of_months left (suc month) leap))

months_of_year : (mon : ℕ) (leap : Bool) → sum_months mon leap 0 ≡ days_of_months leap mon
unfolding days_of_months
months_of_year mon leap =
    let k : 0 + mon ≡ mon = omega arith in
    let sum = sum_months-days_of_months mon 0 leap in omega (arith, rw k at sum)

carry_days-in_month :
    (fuel day mon year : ℕ)
    → day < ytab (leapyear (1900 + year)) mon
    → carry_days (suc fuel) day mon year ≡ (day, mon, year)
unfolding carry_days
carry_days-in_month fuel day mon year h =
    let e : leb (ytab (leapyear (1900 + year)) mon) day ≡ false = ground arith in rw e refl

days_of_years-ge : (n : ℕ) → n * 365 ≤ days_of_years n
unfolding days_of_years
days_of_years-ge zero = omega arith
days_of_years-ge (suc n) = omega (arith, days_of_years-ge n, yearsize-bounds (1970 + n))

-- The fields of a date that are in range: the year is 1970 and `n` more.
pub record IsDate (tm : Tm) (n : ℕ) : Type 0 where
  pub is_year : tm.tm_year + 1900 ≡ 1970 + n
  pub is_mon : tm.tm_mon < 12
  pub is_mday : tm.tm_mday - 1 < ytab (leapyear (1970 + n)) tm.tm_mon
  pub is_hour : tm.tm_hour < 24
  pub is_min : tm.tm_min < 60
  pub is_sec : tm.tm_sec < 60

-- The seconds from 1970 to a date.
unfoldable pub seconds_of : Tm → ℕ → ℕ
seconds_of tm n =
    (days_of_years n + (days_of_months (leapyear (1970 + n)) tm.tm_mon + (tm.tm_mday - 1))) * 86400
    + (tm.tm_hour * 3600 + tm.tm_min * 60 + tm.tm_sec)

no_overflow :
    (n days seconds : ℕ)
    → n * 365 ≤ days
    → days * 86400 + seconds ≤ 2147483647
    → (ltb (2147483647 / 365) n
        || ltb (2147483647 - n * 365) (n / 4 + 1)
        || ltb ((2147483647 - seconds) / 86400) days)
      ≡ false
no_overflow n days seconds h k =
    let a : ltb (2147483647 / 365) n ≡ false = ground arith in
    let b : ltb (2147483647 - n * 365) (n / 4 + 1) ≡ false = ground arith in
    let c : ltb ((2147483647 - seconds) / 86400) days ≡ false = ground arith in rw (a, b, c) refl

time_of-IsDate :
    (day mon year seconds n : ℕ)
    → year + 1900 ≡ 1970 + n
    → (days_of_years n + (days_of_months (leapyear (1970 + n)) mon + day)) * 86400 + seconds
      ≤ 2147483647
    → time_of (day, mon, year) seconds
      ≡ some
          ((days_of_years n + (days_of_months (leapyear (1970 + n)) mon + day)) * 86400 + seconds)
unfolding time_of
time_of-IsDate day mon year seconds n e h =
    let y : 1900 + year ≡ 1970 + n = omega arith in
    let k : 1970 + n - 1970 ≡ n = omega arith in
    let days = days_of_years n + (days_of_months (leapyear (1970 + n)) mon + day) in
    let old : ltb year 70 ≡ false = ground arith in
    let long : n * 365 ≤ days = omega (arith, days_of_years-ge n) in
    rw
      (
        y,
        k,
        days_before-days_of_years n,
        months_of_year mon (leapyear (1970 + n)),
        old,
        no_overflow n days seconds long h,
      )
      (ap some (omega arith))

pub mktime-IsDate :
    (tm : Tm) (n : ℕ)
    → IsDate tm n
    → seconds_of tm n ≤ 2147483647
    → mktime tm ≡ some (seconds_of tm n)
unfolding mktime seconds_of
mktime-IsDate tm n date h =
    let min : tm.tm_min + tm.tm_sec / 60 ≡ tm.tm_min = omega (arith, date.is_sec) in
    let hour : tm.tm_hour + tm.tm_min / 60 ≡ tm.tm_hour = omega (arith, date.is_min) in
    let first : tm.tm_hour / 24 + (tm.tm_mday - 1) ≡ tm.tm_mday - 1 = omega (arith, date.is_hour) in
    let mon : tm.tm_mon % 12 ≡ tm.tm_mon = omega (arith, date.is_mon) in
    let year : tm.tm_year + tm.tm_mon / 12 ≡ tm.tm_year = omega (arith, date.is_mon) in
    let calendar_year : 1970 + n ≡ 1900 + tm.tm_year = omega (arith, date.is_year) in
    let day =
      subst (λ y. tm.tm_mday - 1 < ytab (leapyear y) tm.tm_mon) calendar_year date.is_mday in
    let h' : tm.tm_hour % 24 ≡ tm.tm_hour = omega (arith, date.is_hour) in
    let m' : tm.tm_min % 60 ≡ tm.tm_min = omega (arith, date.is_min) in
    let s' : tm.tm_sec % 60 ≡ tm.tm_sec = omega (arith, date.is_sec) in
    rw
      (
        min,
        hour,
        first,
        mon,
        year,
        h',
        m',
        s',
        carry_days-in_month (tm.tm_mday - 1) (tm.tm_mday - 1) tm.tm_mon tm.tm_year day,
      )
      (time_of-IsDate (tm.tm_mday - 1) tm.tm_mon tm.tm_year
        (tm.tm_hour * 3600 + tm.tm_min * 60 + tm.tm_sec) n date.is_year h)

gmtime_r-IsDate :
    (time : ℕ) → (n : ℕ) × (IsDate (gmtime_r time) n) × (seconds_of (gmtime_r time) n ≡ time)
unfolding seconds_of
gmtime_r-IsDate time =
    let (n, year, mon, first, mday, yday, hour, min, sec, total) = gmtime_r_lem time in
    (
      n,
      record {
        is_year = year;
        is_mon = mon;
        is_mday = omega (arith, first, mday);
        is_hour = hour;
        is_min = min;
        is_sec = sec;
      },
      omega (arith, yday, first, total),
    )

-- mktime of the fields that gmtime_r fills in is the time again, for every time that fits in a
-- time_t of 32 bits.
pub mktime-gmtime_r : (time : ℕ) → time ≤ 2147483647 → mktime (gmtime_r time) ≡ some time
mktime-gmtime_r time h =
    let (n, date, total) = gmtime_r-IsDate time in
    let t = mktime-IsDate (gmtime_r time) n date (omega (arith, total, h)) in rw total at t
