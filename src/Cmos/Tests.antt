-- ===== src/Cmos/Tests.antt =====
-- drivers/cmos.c: a date in the registers.
use bingos.Common.{ℕ, ◌+◌, ◌≤◌, ◌<◌, ◌≡◌, refl, some, [], ◌∷◌, get_or, arith, ◌==◌, if◌then◌else◌}
use bingos.Calendar.{mktime, leapyear, yearsize, ytab}
use bingos.Calendar.Fields.{days_of_years, days_of_months}
use bingos.Calendar.Mktime.{IsDate, seconds_of}
use bingos.Cmos.{
  from_bcd, year_days, years_loop, secs_of_years, case_days, fall_through, secs_of_month, cmos_time,
  changed, settle, read_cmos,
}
use bingos.Cmos.Time.{fields, cmos_time-mktime}

-- 29 February 2004, 23:59:30, and a second later.
abbrev half_past : ℕ → ℕ
half_past i = get_or (0x30 ∷ 0 ∷ 0x59 ∷ 0 ∷ 0x23 ∷ 0 ∷ 0 ∷ 0x29 ∷ 0x02 ∷ 0x04 ∷ []) i 0

abbrev later : ℕ → ℕ
later i = if i == 0 then 0x31 else half_past i

read_cmos-settled : read_cmos half_past (later ∷ later ∷ half_past ∷ []) ≡ some 1078099171
unfolding read_cmos settle changed cmos_time secs_of_years years_loop year_days secs_of_month
    fall_through case_days from_bcd
read_cmos-settled = refl

half_past-IsDate : IsDate (fields half_past) (30 + from_bcd (half_past 9))
unfolding fields from_bcd leapyear ytab
half_past-IsDate = record {
  is_year = refl;
  is_mon = omega arith;
  is_mday = omega arith;
  is_hour = omega arith;
  is_min = omega arith;
  is_sec = omega arith;
}

half_past-range : seconds_of (fields half_past) (30 + from_bcd (half_past 9)) ≤ 2147483647
unfolding fields from_bcd seconds_of days_of_years days_of_months leapyear ytab yearsize
half_past-range = omega arith

half_past-fields : (from_bcd (half_past 9) < 100) × (1 ≤ from_bcd (half_past 7))
unfolding from_bcd
half_past-fields = (omega arith, omega arith)

cmos_time-mktime_example : mktime (fields half_past) ≡ some (cmos_time half_past)
cmos_time-mktime_example =
    cmos_time-mktime half_past half_past-fields.0 half_past-fields.1 half_past-IsDate
      half_past-range
