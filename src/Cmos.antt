-- ===== src/Cmos.antt =====
-- drivers/cmos.c: the time of day in the registers of the clock chip.
--
-- A dump of the registers is the function from their numbers to their values, which are coded in
-- decimal digits. What the ports answer is an argument: `settle` gets the dumps one after the other.
-- The waiting for an update in progress and the ports themselves are not modelled. Numbers have 32
-- bits; a month of 0 or above 12 and a day of 0 are carried through the arithmetic as in the source.
-- sys_gettimeofday stands in Timer.
pub mod Years
pub mod Time
mod Tests
use bingos.Common.{
  ℕ, zero, suc, ◌+◌, ◌-◌, ◌*◌, ◌/◌, ◌%◌, ◌^◌, Bool, true, false, ◌||◌, ◌&&◌, not, Option, none,
  some, List, [], ◌∷◌, ltb, leb, ◌==◌, if◌then◌else◌, get_or,
}

pub from_bcd : ℕ → ℕ
from_bcd val = val / 16 * 10 + val % 16

abbrev pub cmos_second : ℕ
cmos_second = 0

abbrev pub cmos_minute : ℕ
cmos_minute = 2

abbrev pub cmos_hour : ℕ
cmos_hour = 4

abbrev pub cmos_day : ℕ
cmos_day = 7

abbrev pub cmos_month : ℕ
cmos_month = 8

abbrev pub cmos_year : ℕ
cmos_year = 9

-- The nested tests of `secs_of_years`.
pub year_days : ℕ → ℕ
year_days years =
    365
    + (if years % 4 == 0
        then if years % 100 == 0 then if years % 400 == 0 then 1 else 0 else 1
        else 0)

-- The loop of `secs_of_years`, down from a year to 1970.
pub years_loop : ℕ → ℕ
years_loop zero = 0
years_loop (suc year) =
    let rest = years_loop year in if ltb 1969 (suc year) then year_days (suc year) + rest else 0

-- `secs_of_years`, of the year to which 2000 has been added: its argument is -1 in the year 2000.
pub secs_of_years : ℕ → ℕ
secs_of_years years = years_loop years * 86400 % 2 ^ 32

-- What the case `month` of the `switch` of `secs_of_month` adds.
pub case_days : ℕ → ℕ → ℕ
case_days year month =
    get_or (0 ∷ 31 ∷ 28 ∷ 31 ∷ 30 ∷ 31 ∷ 30 ∷ 31 ∷ 31 ∷ 30 ∷ 31 ∷ 30 ∷ []) month 0
    + (if month == 2 && (year % 4 == 0 && (not (year % 100 == 0) || year % 400 == 0)) then 1 else 0)

-- A case falls through to the ones below it.
pub fall_through : ℕ → ℕ → ℕ
fall_through year zero = 0
fall_through year (suc month) = case_days year (suc month) + fall_through year month

pub secs_of_month : ℕ → ℕ → ℕ
secs_of_month months year = if leb months 11 then fall_through (year + 2000) months * 86400 else 0

-- The sum at the end of `read_cmos`.
pub cmos_time : (ℕ → ℕ) → ℕ
cmos_time values =
    (secs_of_years (2000 + from_bcd (values cmos_year) - 1)
      + secs_of_month (from_bcd (values cmos_month) - 1) (from_bcd (values cmos_year))
      + (from_bcd (values cmos_day) * 86400 + 2 ^ 32 - 86400)
      + from_bcd (values cmos_hour) * 3600
      + from_bcd (values cmos_minute) * 60
      + from_bcd (values cmos_second))
    % 2 ^ 32

-- The condition of the loop of `read_cmos`: whether a register differs from the dump before.
pub changed : (ℕ → ℕ) → (ℕ → ℕ) → Bool
changed old values =
    not (old cmos_second == values cmos_second)
    || not (old cmos_minute == values cmos_minute)
    || not (old cmos_hour == values cmos_hour)
    || not (old cmos_day == values cmos_day)
    || not (old cmos_month == values cmos_month)
    || not (old cmos_year == values cmos_year)

-- The loop, on what stands in `values` and the dumps to come; `none` where they end before it does.
pub settle : (ℕ → ℕ) → List (ℕ → ℕ) → Option (ℕ → ℕ)
settle values [] = none
settle values (dump ∷ dumps) =
    let rest = settle dump dumps in if changed values dump then rest else some dump

pub read_cmos : (ℕ → ℕ) → List (ℕ → ℕ) → Option ℕ
read_cmos values dumps = elim (settle values dumps) [
  | none ↦ none
  | some dump ↦ some (cmos_time dump)
]
