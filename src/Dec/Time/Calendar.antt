-- ===== src/Dec/Time/Calendar.antt =====
-- The rules of the Gregorian calendar, and the year and the day that `civil_from_days` takes from a
-- day's place in its era of 400 years. Its years begin in March.
use pira.Common.{
  ℕ, zero, suc, ◌+◌, ◌-◌, ◌*◌, ◌/◌, ◌%◌, ◌≤◌, ◌<◌, ◌≡◌, refl, Bool, true, false, not, ◌&&◌, ◌||◌,
  inl, inr, ltb, leb, ◌==◌, if◌then◌else◌, arith, Bool-cases,
}
use pira.Common.Int.{ℤ, pos, pos_part, neg_part, ◌+ℤ◌}
use pira.Dec.Time.{Civil}

-- A year that four divides, and a hundred does not or four hundred does.
abbrev is_leap_number : ℕ → Bool
is_leap_number n = n % 4 == 0 && (not (n % 100 == 0) || n % 400 == 0)

abbrev pub is_leap : ℤ → Bool
is_leap year = is_leap_number (pos_part year + neg_part year)

unfoldable pub month_length : Bool → ℕ → ℕ
month_length leap month =
    if month == 2
    then (if leap then 29 else 28)
    else if month == 4 || month == 6 || month == 9 || month == 11
    then 30
    else 31

unfoldable pub next_date_in : Bool → Civil → Civil
unfolding month_length ◌+ℤ◌
next_date_in leap d =
    if ltb d.day (month_length leap d.month)
    then record d { day = d.day + 1 }
    else if ltb d.month 12
    then record d { month = d.month + 1; day = 1 }
    else record { year = d.year +ℤ pos 1; month = 1; day = 1 }

-- The day after a date.
abbrev pub next_date : Civil → Civil
next_date d = next_date_in (is_leap d.year) d

unfoldable pub year_of_era : ℕ → ℕ
year_of_era doe = (doe - doe / 1_460 + doe / 36_524 - doe / 146_096) / 365

abbrev pub start_of_year : ℕ → ℕ
start_of_year y = 365 * y + y / 4 - y / 100

pub year_of_era_bounds :
    (doe : ℕ)
    → doe < 146_097
    → (year_of_era doe < 400)
      × (start_of_year (year_of_era doe) ≤ doe)
      × (doe ≤ start_of_year (year_of_era doe) + 365)
unfolding year_of_era
year_of_era_bounds doe h = (omega arith, omega arith, omega arith)

-- Between the first days of two years lies the first of them.
pub year_of_era_unique :
    (doe y : ℕ)
    → y < 400
    → start_of_year y ≤ doe
    → doe < start_of_year (y + 1)
    → year_of_era doe ≡ y
unfolding year_of_era
year_of_era_unique doe y h l u = omega arith

pub year_of_era_below :
    (doe : ℕ) → doe < 146_097 → year_of_era doe < 399 → doe < start_of_year (year_of_era doe + 1)
unfolding year_of_era
year_of_era_below doe h l = omega arith

-- The last year of an era has one day more than its start says.
pub year_of_era_last : (doe : ℕ) → 145_731 ≤ doe → doe < 146_097 → year_of_era doe ≡ 399
unfolding year_of_era
year_of_era_last doe l u = omega arith

unfoldable pub month_prime : ℕ → ℕ
month_prime doy = (5 * doy + 2) / 153

unfoldable pub month_of : ℕ → ℕ
unfolding month_prime
month_of doy = let m = month_prime doy in if ltb m 10 then m + 3 else m - 9

unfoldable pub day_of : ℕ → ℕ
unfolding month_prime
day_of doy = doy - (153 * month_prime doy + 2) / 5 + 1

-- 1 for the months that stand in the next calendar year.
abbrev pub carry : ℕ → ℕ
carry doy = if leb (month_of doy) 2 then 1 else 0

-- The date of day `doy` of the year that begins in March of `year`.
abbrev pub date_of : ℕ → ℕ → Civil
date_of year doy = record { year = pos (year + carry doy); month = month_of doy; day = day_of doy }

-- Whether the day after `doy` is `doy + 1`, by the lengths of the months.
ticks : Bool → ℕ → Bool
unfolding month_length month_of day_of
ticks leap doy =
    let m = month_of doy in
    let d = day_of doy in
    let m' = month_of (doy + 1) in
    let d' = day_of (doy + 1) in
    if ltb d (month_length leap m)
    then m' == m && d' == d + 1
    else if ltb m 12
    then m' == m + 1 && d' == 1 && carry (doy + 1) == carry doy
    else m' == 1 && d' == 1 && carry (doy + 1) == carry doy + 1

-- A test that holds for the days from `i` on, as many as are asked for.
holds_from : (ℕ → Bool) → ℕ → ℕ → Bool
holds_from test i zero = true
holds_from test i (suc rounds) = test i && holds_from test (i + 1) rounds

holds_from-at :
    (test : ℕ → Bool) (i rounds doy : ℕ)
    → holds_from test i rounds ≡ true
    → i ≤ doy
    → doy < i + rounds
    → test doy ≡ true
unfolding holds_from
holds_from-at test i zero doy all lo hi = absurd (omega arith)
holds_from-at test i (suc rounds) doy all lo hi = elim (Bool-cases (ltb i doy)) [
  | inl p ↦ ground (arith, holds_from-at test (i + 1) rounds doy)
  | inr p ↦ let e : doy ≡ i = ground arith in rw e (ground arith)
]

ticks_table : holds_from (λ doy. ticks true doy && ticks false doy) 0 364 ≡ true
unfolding holds_from ticks
ticks_table = refl

ticks_last : ticks true 364 ≡ true
unfolding ticks
ticks_last = refl

ticks_all : (leap : Bool) (doy : ℕ) → doy < 364 → ticks leap doy ≡ true
ticks_all true doy h =
    ground (arith, holds_from-at (λ x. ticks true x && ticks false x) 0 364 doy ticks_table)
ticks_all false doy h =
    ground (arith, holds_from-at (λ x. ticks true x && ticks false x) 0 364 doy ticks_table)

next_date_of-ticks :
    (leap : Bool) (year doy : ℕ)
    → ticks leap doy ≡ true
    → next_date_in leap (date_of year doy) ≡ date_of year (doy + 1)
unfolding ticks next_date_in
next_date_of-ticks leap year doy h = ground arith

-- The next day within the year, whichever day of the year it is but the last.
pub next_date_within :
    (leap : Bool) (year doy : ℕ)
    → doy < (if leap then 365 else 364)
    → next_date_in leap (date_of year doy) ≡ date_of year (doy + 1)
next_date_within false year doy h = next_date_of-ticks false year doy (ticks_all false doy h)
next_date_within true year doy h = elim (Bool-cases (ltb doy 364)) [
  | inl p ↦ next_date_of-ticks true year doy (ticks_all true doy (ground arith))
  | inr p ↦ let e : doy ≡ 364 = ground arith in rw e (next_date_of-ticks true year 364 ticks_last)
]

-- Behind the last day of February comes the first of March.
pub next_date_across :
    (leap : Bool) (year doy : ℕ)
    → doy ≡ (if leap then 365 else 364)
    → next_date_in leap (date_of year doy) ≡ date_of (year + 1) 0
unfolding next_date_in month_of day_of month_length
next_date_across true year doy h = rw h (λ i. record { year = pos (same i); month = 3; day = 1 })
  where
    same : year + 1 ≡ year + 1 + 0
    same = omega arith
next_date_across false year doy h = rw h (λ i. record { year = pos (same i); month = 3; day = 1 })
  where
    same : year + 1 ≡ year + 1 + 0
    same = omega arith

-- Only February asks whether the year is a leap year, and it is in the second calendar year.
pub next_date-date_of :
    (year doy : ℕ)
    → next_date (date_of year doy) ≡ next_date_in (is_leap (pos (year + 1))) (date_of year doy)
next_date-date_of year doy = elim (Bool-cases (leb (month_of doy) 2)) [
  | inl p ↦ rw p refl
  | inr p ↦ unfold next_date_in month_length in ground arith
]
