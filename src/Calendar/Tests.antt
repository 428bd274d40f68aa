-- ===== src/Calendar/Tests.antt =====
-- libc/time.c: a date.
use bingos.Common.{ℕ, ◌+◌, ◌*◌, ◌≤◌, ◌<◌, ◌≡◌, refl, some, arith}
use bingos.Calendar.{
  gmtime_r, year_loop, month_loop, yearsize, leapyear, ytab, mktime, time_of, carry_days,
  days_before, sum_months, passed,
}
use bingos.Calendar.Fields.{days_of_years, days_of_months, gmtime_r_lem}
use bingos.Calendar.Days.{days_before-days_of_years}
use bingos.Calendar.Mktime.{mktime-gmtime_r}

-- 29 February 1972, 12:34:56, a Tuesday.
gmtime_r-leap_day : gmtime_r 68214896 ≡ record {
  tm_sec = 56;
  tm_min = 34;
  tm_hour = 12;
  tm_mday = 29;
  tm_mon = 1;
  tm_year = 72;
  tm_wday = 2;
  tm_yday = 59;
}
unfolding gmtime_r year_loop month_loop yearsize leapyear ytab
gmtime_r-leap_day = refl

gmtime_r_lem_example :
    (n : ℕ) × ((gmtime_r 68214896).tm_year + 1900 ≡ 1970 + n)
    × ((gmtime_r 68214896).tm_mon < 12)
    × (1 ≤ (gmtime_r 68214896).tm_mday)
    × ((gmtime_r 68214896).tm_mday ≤ ytab (leapyear (1970 + n)) (gmtime_r 68214896).tm_mon)
    × ((gmtime_r 68214896).tm_yday + 1
        ≡ days_of_months (leapyear (1970 + n)) (gmtime_r 68214896).tm_mon
          + (gmtime_r 68214896).tm_mday)
    × ((gmtime_r 68214896).tm_hour < 24)
    × ((gmtime_r 68214896).tm_min < 60)
    × ((gmtime_r 68214896).tm_sec < 60)
    × ((days_of_years n + (gmtime_r 68214896).tm_yday) * 86400
          + (gmtime_r 68214896).tm_hour * 3600
          + (gmtime_r 68214896).tm_min * 60
          + (gmtime_r 68214896).tm_sec
        ≡ 68214896)
gmtime_r_lem_example = gmtime_r_lem 68214896

-- 31 December 1999, 25:61:61, is an hour, a minute and a second later than that day's end.
mktime-carry :
    mktime (record {
      tm_sec = 61;
      tm_min = 61;
      tm_hour = 24;
      tm_mday = 31;
      tm_mon = 11;
      tm_year = 99;
      tm_wday = 0;
      tm_yday = 0;
    })
    ≡ some 946688521
unfolding mktime time_of carry_days days_before sum_months passed leapyear ytab
mktime-carry = refl

days_before-days_of_years_example : days_before (1970 + 31) ≡ days_of_years 31
days_before-days_of_years_example = days_before-days_of_years 31

mktime-gmtime_r_example : mktime (gmtime_r 68214896) ≡ some 68214896
mktime-gmtime_r_example = mktime-gmtime_r 68214896 (omega arith)
