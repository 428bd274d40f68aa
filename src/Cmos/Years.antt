-- ===== src/Cmos/Years.antt =====
-- drivers/cmos.c: the days of whole years and months, against the calendar of libc/time.c.
use bingos.Common.{
  ℕ, zero, suc, ◌+◌, ◌*◌, ◌≤◌, ◌<◌, ◌≡◌, refl, Bool, true, false, ◌==◌, ltb, if◌then◌else◌, arith,
  get_or, [], ◌∷◌, ◌&&◌,
}
use bingos.Calendar.{leapyear, yearsize, ytab}
use bingos.Calendar.Fields.{days_of_years, days_of_months, yearsize-bounds}
use bingos.Cmos.{year_days, years_loop, case_days, fall_through}

year_days-yearsize : (year : ℕ) → year_days year ≡ yearsize year
unfolding year_days yearsize leapyear
year_days-yearsize year = ground arith

years_loop-old : (year : ℕ) → year ≤ 1969 → years_loop year ≡ 0
unfolding years_loop
years_loop-old zero h = refl
years_loop-old (suc year) h = let e : ltb 1969 (suc year) ≡ false = ground arith in rw e refl

-- The loop of secs_of_years from the year before 1970 + n adds up the lengths of n years.
pub years_loop-days_of_years : (n : ℕ) → years_loop (1969 + n) ≡ days_of_years n
unfolding years_loop days_of_years
years_loop-days_of_years zero = years_loop-old 1969 (omega arith)
years_loop-days_of_years (suc n) =
    let e : ltb 1969 (suc (1969 + n)) ≡ true = ground arith in
    let next : 1969 + suc n ≡ suc (1969 + n) = omega arith in
    let year : suc (1969 + n) ≡ 1970 + n = omega arith in
    rw (next, years_loop, e, year_days-yearsize, years_loop-days_of_years n, year) (omega arith)

case_days-ytab : (year m : ℕ) → m < 11 → case_days year (suc m) ≡ ytab (leapyear year) m
unfolding case_days leapyear ytab
case_days-ytab year m h = by_leap (leapyear year) m h
  where
    by_leap :
        (leap : Bool) (k : ℕ)
        → k < 11
        → get_or (0 ∷ 31 ∷ 28 ∷ 31 ∷ 30 ∷ 31 ∷ 30 ∷ 31 ∷ 31 ∷ 30 ∷ 31 ∷ 30 ∷ []) (suc k) 0
            + (if suc k == 2 && leap then 1 else 0)
          ≡ ytab leap k
    by_leap true zero l = refl
    by_leap false zero l = refl
    by_leap true (suc zero) l = refl
    by_leap false (suc zero) l = refl
    by_leap true (suc (suc zero)) l = refl
    by_leap false (suc (suc zero)) l = refl
    by_leap true (suc (suc (suc zero))) l = refl
    by_leap false (suc (suc (suc zero))) l = refl
    by_leap true (suc (suc (suc (suc zero)))) l = refl
    by_leap false (suc (suc (suc (suc zero)))) l = refl
    by_leap true (suc (suc (suc (suc (suc zero))))) l = refl
    by_leap false (suc (suc (suc (suc (suc zero))))) l = refl
    by_leap true (suc (suc (suc (suc (suc (suc zero)))))) l = refl
    by_leap false (suc (suc (suc (suc (suc (suc zero)))))) l = refl
    by_leap true (suc (suc (suc (suc (suc (suc (suc zero))))))) l = refl
    by_leap false (suc (suc (suc (suc (suc (suc (suc zero))))))) l = refl
    by_leap true (suc (suc (suc (suc (suc (suc (suc (suc zero)))))))) l = refl
    by_leap false (suc (suc (suc (suc (suc (suc (suc (suc zero)))))))) l = refl
    by_leap true (suc (suc (suc (suc (suc (suc (suc (suc (suc zero))))))))) l = refl
    by_leap false (suc (suc (suc (suc (suc (suc (suc (suc (suc zero))))))))) l = refl
    by_leap true (suc (suc (suc (suc (suc (suc (suc (suc (suc (suc zero)))))))))) l = refl
    by_leap false (suc (suc (suc (suc (suc (suc (suc (suc (suc (suc zero)))))))))) l = refl
    by_leap leap (suc (suc (suc (suc (suc (suc (suc (suc (suc (suc (suc k))))))))))) l =
        absurd (omega arith)

-- The cases of secs_of_month from a month down add up the lengths of the months in front of it.
pub fall_through-days_of_months :
    (year m : ℕ) → m ≤ 11 → fall_through year m ≡ days_of_months (leapyear year) m
unfolding fall_through days_of_months
fall_through-days_of_months year zero h = refl
fall_through-days_of_months year (suc m) h =
    omega
      (arith, case_days-ytab year m (omega arith), fall_through-days_of_months year m (omega arith))

pub days_of_years-le : (n : ℕ) → days_of_years n ≤ n * 366
unfolding days_of_years
days_of_years-le zero = omega arith
days_of_years-le (suc n) = omega (arith, days_of_years-le n, yearsize-bounds (1970 + n))
