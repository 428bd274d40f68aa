-- ===== src/Calendar/Fields.antt =====
-- libc/time.c: the fields that gmtime_r fills in are those of the time.
use bingos.Common.{
  ℕ, zero, suc, ◌+◌, ◌-◌, ◌*◌, ◌/◌, ◌%◌, ◌≤◌, ◌<◌, ◌≡◌, refl, sym, ap, subst, leb→le, Bool, true,
  false, leb, if◌then◌else◌, arith, inl, inr, Bool-cases,
}
use bingos.Calendar.{leapyear, yearsize, ytab, year_loop, month_loop, gmtime_r}

-- The days of the years from 1970 on, `n` of them.
unfoldable pub days_of_years : ℕ → ℕ
days_of_years zero = 0
days_of_years (suc n) = days_of_years n + yearsize (1970 + n)

-- The days of the first `m` months.
unfoldable pub days_of_months : Bool → ℕ → ℕ
days_of_months leap zero = 0
days_of_months leap (suc m) = days_of_months leap m + ytab leap m

pub yearsize-bounds : (year : ℕ) → (365 ≤ yearsize year) × (yearsize year ≤ 366)
unfolding yearsize
yearsize-bounds year = elim (Bool-cases (leapyear year)) [
  | inl e ↦ rw e (omega arith, omega arith)
  | inr e ↦ rw e (omega arith, omega arith)
]

yearsize-days_of_months : (year : ℕ) → yearsize year ≡ days_of_months (leapyear year) 12
unfolding yearsize days_of_months ytab
yearsize-days_of_months year = by_leap (leapyear year)
  where
    by_leap : (leap : Bool) → (if leap then 366 else 365) ≡ days_of_months leap 12
    by_leap true = refl
    by_leap false = refl

IsYear : ℕ → ℕ → ℕ × ℕ → Type 0
IsYear n dayno (d, year) =
    (k : ℕ) × (year ≡ 1970 + k)
    × (d < yearsize year)
    × (days_of_years n + dayno ≡ days_of_years k + d)

IsYear-step :
    (n dayno year : ℕ) (r : ℕ × ℕ)
    → year ≡ 1970 + n
    → yearsize year ≤ dayno
    → IsYear (suc n) (dayno - yearsize year) r
    → IsYear n dayno r
unfolding IsYear days_of_years
IsYear-step n dayno year r e h (k, y, d, s) =
    let same : yearsize (1970 + n) ≡ yearsize year = ap yearsize (sym e) in
    (k, y, d, omega (arith, s, same))

year_loop-IsYear :
    (fuel n dayno year : ℕ)
    → year ≡ 1970 + n
    → dayno ≤ fuel
    → IsYear n dayno (year_loop fuel dayno year)
unfolding year_loop IsYear
year_loop-IsYear zero n dayno year e h = (n, e, omega (arith, yearsize-bounds year), refl)
year_loop-IsYear (suc fuel) n dayno year e h =
    let bounds = yearsize-bounds year in
    elim (Bool-cases (leb (yearsize year) dayno)) [
      | inl t ↦
          let long : yearsize year ≤ dayno = leb→le (yearsize year) dayno t in
          rw t (
            IsYear-step n dayno year (year_loop fuel (dayno - yearsize year) (suc year)) e long (
              year_loop-IsYear fuel (suc n) (dayno - yearsize year) (suc year) (omega arith)
                (omega (arith, bounds))))
      | inr t ↦ let short : dayno < yearsize year = ground (arith, t) in rw t (n, e, short, refl)
    ]

IsMonth : Bool → ℕ → ℕ → ℕ × ℕ → Type 0
IsMonth leap month dayno (d, m) =
    (m < 12) × (d < ytab leap m) × (days_of_months leap month + dayno ≡ days_of_months leap m + d)

one_more :
    (leap : Bool) (month dayno : ℕ)
    → ytab leap month ≤ dayno
    → days_of_months leap month + dayno < days_of_months leap 12
    → days_of_months leap (suc month) + (dayno - ytab leap month) < days_of_months leap 12
unfolding days_of_months
one_more leap month dayno long h =
    let total = days_of_months leap 12 in
    let same : days_of_months leap month + ytab leap month + (dayno - ytab leap month)
        ≡ days_of_months leap month + dayno =
      omega (arith, long) in
    rw same h

IsMonth-step :
    (leap : Bool) (month dayno : ℕ) (r : ℕ × ℕ)
    → ytab leap month ≤ dayno
    → IsMonth leap (suc month) (dayno - ytab leap month) r
    → IsMonth leap month dayno r
unfolding IsMonth days_of_months
IsMonth-step leap month dayno r long (l, d, s) = (l, d, omega (arith, s, long))

month_loop-IsMonth :
    (left : ℕ) (leap : Bool) (dayno month : ℕ)
    → month + left ≡ 12
    → days_of_months leap month + dayno < days_of_months leap 12
    → IsMonth leap month dayno (month_loop left leap dayno month)
unfolding month_loop IsMonth
month_loop-IsMonth zero leap dayno month e h =
    let d : month ≡ 12 = omega arith in
    absurd (omega (arith, subst (λ k. days_of_months leap k + dayno < days_of_months leap 12) d h))
month_loop-IsMonth (suc left) leap dayno month e h =
    elim (Bool-cases (leb (ytab leap month) dayno)) [
      | inl t ↦
          let long : ytab leap month ≤ dayno = leb→le (ytab leap month) dayno t in
          rw t (
            IsMonth-step leap month dayno
              (month_loop left leap (dayno - ytab leap month) (suc month)) long
              (month_loop-IsMonth left leap (dayno - ytab leap month) (suc month) (omega arith)
                (less long)))
      | inr t ↦
          let short : dayno < ytab leap month = ground (arith, t) in rw t (omega arith, short, refl)
    ]
  where
    less :
        ytab leap month ≤ dayno
        → days_of_months leap (suc month) + (dayno - ytab leap month) < days_of_months leap 12
    less long = one_more leap month dayno long h

in_year :
    (n year d m dm : ℕ)
    → year ≡ 1970 + n
    → dm < ytab (leapyear year) m
    → d ≡ days_of_months (leapyear year) m + dm
    → (dm + 1 ≤ ytab (leapyear (1970 + n)) m)
      × (d + 1 ≡ days_of_months (leapyear (1970 + n)) m + (dm + 1))
in_year n year d m dm e h s =
    let h' = subst (λ k. dm < ytab (leapyear k) m) e h in
    let s' = subst (λ k. d ≡ days_of_months (leapyear k) m + dm) e s in
    (omega (arith, h'), omega (arith, s'))

clock :
    (time days : ℕ)
    → time / 86400 ≡ days
    → days * 86400 + time % 86400 / 3600 * 3600 + time % 86400 % 3600 / 60 * 60 + time % 86400 % 60
      ≡ time
clock time days h = omega (arith, h)

-- The fields of gmtime_r are in range, and the days of the years and months before, the day of the
-- month and the time of the day add up to the time.
pub gmtime_r_lem :
    (time : ℕ)
    → (n : ℕ) × ((gmtime_r time).tm_year + 1900 ≡ 1970 + n)
      × ((gmtime_r time).tm_mon < 12)
      × (1 ≤ (gmtime_r time).tm_mday)
      × ((gmtime_r time).tm_mday ≤ ytab (leapyear (1970 + n)) (gmtime_r time).tm_mon)
      × ((gmtime_r time).tm_yday + 1
          ≡ days_of_months (leapyear (1970 + n)) (gmtime_r time).tm_mon + (gmtime_r time).tm_mday)
      × ((gmtime_r time).tm_hour < 24)
      × ((gmtime_r time).tm_min < 60)
      × ((gmtime_r time).tm_sec < 60)
      × ((days_of_years n + (gmtime_r time).tm_yday) * 86400
            + (gmtime_r time).tm_hour * 3600
            + (gmtime_r time).tm_min * 60
            + (gmtime_r time).tm_sec
          ≡ time)
unfolding gmtime_r IsYear IsMonth days_of_years days_of_months
gmtime_r_lem time =
    let days = time / 86400 in
    let y = year_loop days days 1970 in
    let (n, year, left, total) = year_loop-IsYear days 0 days 1970 (omega arith) (omega arith) in
    let size : yearsize y.1 ≡ days_of_months (leapyear y.1) 12 = yearsize-days_of_months y.1 in
    let (month, day, sum) =
      month_loop-IsMonth 12 (leapyear y.1) y.0 0 (omega arith) (omega (arith, left, size)) in
    let m = month_loop 12 (leapyear y.1) y.0 0 in
    let dates = in_year n y.1 y.0 m.1 m.0 year day (omega (arith, sum)) in
    (
      n,
      omega (arith, year),
      month,
      omega arith,
      dates.0,
      dates.1,
      omega arith,
      omega arith,
      omega arith,
      clock time (days_of_years n + y.0) (omega (arith, total)),
    )
