-- ===== src/Calendar.antt =====
-- libc/time.c: the calendar, gmtime_r and mktime.
--
-- A time is a number of seconds since 1970 that is not negative. The year is counted from 1970, the
-- epoch, in the loop and from 1900 in the result. The fields given to mktime are not negative and the
-- day of the month is 1 at least; `_timezone` and `_dstbias` are 0, the values they start with, since
-- nothing assigns them.
pub mod Fields
pub mod Days
pub mod Mktime
mod Tests
use bingos.Common.{
  ℕ, zero, suc, ◌+◌, ◌-◌, ◌*◌, ◌/◌, ◌%◌, Bool, true, false, ◌||◌, ◌&&◌, not, List, [], ◌∷◌, ltb,
  leb, ◌==◌, if◌then◌else◌, get_or, Option, none, some,
}

abbrev pub epoch_yr : ℕ
epoch_yr = 1970

abbrev pub secs_day : ℕ
secs_day = 86400

unfoldable pub leapyear : ℕ → Bool
leapyear year = year % 4 == 0 && (not (year % 100 == 0) || year % 400 == 0)

unfoldable pub yearsize : ℕ → ℕ
unfolding leapyear
yearsize year = if leapyear year then 366 else 365

-- `_ytab[leap][month]`
unfoldable pub ytab : Bool → ℕ → ℕ
ytab true month = get_or (31 ∷ 29 ∷ 31 ∷ 30 ∷ 31 ∷ 30 ∷ 31 ∷ 31 ∷ 30 ∷ 31 ∷ 30 ∷ 31 ∷ []) month 0
ytab false month = get_or (31 ∷ 28 ∷ 31 ∷ 30 ∷ 31 ∷ 30 ∷ 31 ∷ 31 ∷ 30 ∷ 31 ∷ 30 ∷ 31 ∷ []) month 0

-- `struct tm`; its last three fields are constant.
pub record Tm : Type 0 where
  pub tm_sec : ℕ
  pub tm_min : ℕ
  pub tm_hour : ℕ
  pub tm_mday : ℕ
  pub tm_mon : ℕ
  pub tm_year : ℕ
  pub tm_wday : ℕ
  pub tm_yday : ℕ

-- The loop over the years: the days that are left and the year. Each round takes a day at least, so
-- that the number of days is fuel enough.
pub year_loop : ℕ → ℕ → ℕ → ℕ × ℕ
year_loop zero dayno year = (dayno, year)
year_loop (suc fuel) dayno year =
    let rest = year_loop fuel (dayno - yearsize year) (suc year) in
    if leb (yearsize year) dayno then rest else (dayno, year)

-- The loop over the months, of which `left` are left.
pub month_loop : ℕ → Bool → ℕ → ℕ → ℕ × ℕ
month_loop zero leap dayno month = (dayno, month)
month_loop (suc left) leap dayno month =
    let rest = month_loop left leap (dayno - ytab leap month) (suc month) in
    if leb (ytab leap month) dayno then rest else (dayno, month)

pub gmtime_r : ℕ → Tm
gmtime_r time =
    let dayclock = time % secs_day in
    let dayno = time / secs_day in
    let y = year_loop dayno dayno epoch_yr in
    let m = month_loop 12 (leapyear y.1) y.0 0 in
    record {
      tm_sec = dayclock % 60;
      tm_min = dayclock % 3600 / 60;
      tm_hour = dayclock / 3600;
      tm_mday = m.0 + 1;
      tm_mon = m.1;
      tm_year = y.1 - 1900;
      tm_wday = (dayno + 4) % 7;
      tm_yday = y.0;
    }

abbrev pub time_max : ℕ
time_max = 2147483647

-- The second loop of `mktime` over the months: the days left, the month and the year from 1900. Each
-- month has a day at least, so that the number of days is fuel enough.
pub carry_days : ℕ → ℕ → ℕ → ℕ → ℕ × ℕ × ℕ
carry_days zero day mon year = (day, mon, year)
carry_days (suc fuel) day mon year =
    let len = ytab (leapyear (1900 + year)) mon in
    let same_year = carry_days fuel (day - len) (suc mon) year in
    let next_year = carry_days fuel (day - len) 0 (suc year) in
    if leb len day then if suc mon == 12 then next_year else same_year else (day, mon, year)

-- `year % m && year % m < 1970 % m`, the correction to the years divided by `m`.
pub passed : ℕ → ℕ → ℕ
passed year m = if not (year % m == 0) && ltb (year % m) (epoch_yr % m) then 1 else 0

-- The days from 1970 to the start of a year, by the formula of `mktime`.
pub days_before : ℕ → ℕ
unfolding passed
days_before year =
    (year - epoch_yr) * 365
    + ((year - epoch_yr) / 4 + passed year 4)
    - ((year - epoch_yr) / 100 + passed year 100)
    + ((year - epoch_yr) / 400 + passed year 400)

-- The loop of `mktime` that adds up the first months of a year, from `month` on.
pub sum_months : ℕ → Bool → ℕ → ℕ
sum_months zero leap month = 0
sum_months (suc left) leap month = ytab leap month + sum_months left leap (suc month)

-- The second half of `mktime`, on the days left, the month, the year and the seconds of the day: the
-- time, or `none` for -1. (What is stored into the argument is not part of the result.)
pub time_of : ℕ × ℕ × ℕ → ℕ → Option ℕ
time_of (day, mon, year) seconds =
    let years = 1900 + year - epoch_yr in
    let days = days_before (1900 + year) + (sum_months mon (leapyear (1900 + year)) 0 + day) in
    if ltb year 70
    then none
    else if ltb (time_max / 365) years
        || ltb (time_max - years * 365) (years / 4 + 1)
        || ltb ((time_max - seconds) / secs_day) days
    then none
    else some (seconds + days * secs_day)

pub mktime : Tm → Option ℕ
mktime tm =
    let min = tm.tm_min + tm.tm_sec / 60 in
    let hour = tm.tm_hour + min / 60 in
    let first = hour / 24 + (tm.tm_mday - 1) in
    time_of (carry_days (suc first) first (tm.tm_mon % 12) (tm.tm_year + tm.tm_mon / 12))
      (hour % 24 * 3600 + min % 60 * 60 + tm.tm_sec % 60)
