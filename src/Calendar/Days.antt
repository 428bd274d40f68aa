-- ===== src/Calendar/Days.antt =====
-- libc/time.c: the formula for the days before a year, against the sum of the lengths of the years.
use bingos.Common.{
  ℕ, zero, suc, ◌+◌, ◌-◌, ◌*◌, ◌/◌, ◌%◌, ◌≤◌, ◌≡◌, refl, ◌==◌, if◌then◌else◌, arith,
}
use bingos.Calendar.{leapyear, yearsize, passed, days_before}
use bingos.Calendar.Fields.{days_of_years}

-- 1 where a year is a multiple.
multiple : ℕ → ℕ → ℕ
multiple year m = if year % m == 0 then 1 else 0

count4 :
    (n : ℕ)
    → suc n / 4 + passed (1970 + suc n) 4 ≡ n / 4 + passed (1970 + n) 4 + multiple (1970 + n) 4
unfolding passed multiple
count4 n = ground arith

count100 :
    (n : ℕ)
    → suc n / 100 + passed (1970 + suc n) 100
      ≡ n / 100 + passed (1970 + n) 100 + multiple (1970 + n) 100
unfolding passed multiple
count100 n = ground arith

count400 :
    (n : ℕ)
    → suc n / 400 + passed (1970 + suc n) 400
      ≡ n / 400 + passed (1970 + n) 400 + multiple (1970 + n) 400
unfolding passed multiple
count400 n = ground arith

yearsize-multiple :
    (year : ℕ) → yearsize year + multiple year 100 ≡ 365 + multiple year 4 + multiple year 400
unfolding yearsize leapyear multiple
yearsize-multiple year = ground arith

passed-le : (year m : ℕ) → passed year m ≤ 1
unfolding passed
passed-le year m = ground arith

passed-start : (m : ℕ) → passed 1970 m ≡ 0
unfolding passed
passed-start m = ground arith

next_year :
    (n total : ℕ)
    → n * 365 + (n / 4 + passed (1970 + n) 4) + (n / 400 + passed (1970 + n) 400)
      ≡ total + (n / 100 + passed (1970 + n) 100)
    → suc n * 365
        + (suc n / 4 + passed (1970 + suc n) 4)
        + (suc n / 400 + passed (1970 + suc n) 400)
      ≡ total + yearsize (1970 + n) + (suc n / 100 + passed (1970 + suc n) 100)
next_year n total h = omega (arith, count4 n, count100 n, count400 n, yearsize-multiple (1970 + n))

sum_of_years :
    (n : ℕ)
    → n * 365 + (n / 4 + passed (1970 + n) 4) + (n / 400 + passed (1970 + n) 400)
      ≡ days_of_years n + (n / 100 + passed (1970 + n) 100)
unfolding days_of_years
sum_of_years zero = rw (passed-start 4, passed-start 100, passed-start 400) refl
sum_of_years (suc n) = next_year n (days_of_years n) (sum_of_years n)

-- The formula of mktime for the days before a year, with its corrections for the years that 4, 100
-- and 400 divide, is the sum of the lengths of the years from 1970, leap years included.
pub days_before-days_of_years : (n : ℕ) → days_before (1970 + n) ≡ days_of_years n
unfolding days_before
days_before-days_of_years n =
    let years : 1970 + n - 1970 ≡ n = omega arith in
    rw years (omega (arith, sum_of_years n, centuries n))
  where
    centuries : (k : ℕ) → k / 100 + passed (1970 + k) 100 ≤ k * 365
    centuries zero = rw (passed-start 100) (omega arith)
    centuries (suc k) = omega (arith, passed-le (1970 + suc k) 100)
