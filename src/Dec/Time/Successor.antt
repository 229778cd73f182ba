-- ===== src/Dec/Time/Successor.antt =====
-- `civil_from_days` counts the days of the Gregorian calendar.
use pira.Common.{
  ℕ, zero, suc, ◌+◌, ◌-◌, ◌*◌, ◌/◌, ◌%◌, ◌≤◌, ◌<◌, ◌≡◌, refl, sym, ◌∙◌, ap, ap₂, Bool, true, false,
  ◌⊎◌, inl, inr, ltb, if◌then◌else◌, arith, Bool-cases, lt→ltb, ltb→lt, le→ltb_false,
}
use native.Mathlib.Nat.{mod-eq-sub-div-mul}
use native.Mathlib.Numerals.{add-one}
use pira.Common.Int.{pos, pos-add, pos-sub, pos-mul, pos-div}
use pira.Dec.Time.{Civil, civil_of_era, civil_from_days}
use pira.Dec.Time.Calendar.{
  is_leap, next_date, year_of_era, start_of_year, year_of_era_bounds, year_of_era_unique,
  year_of_era_last, year_of_era_below, next_date-date_of, month_prime, month_of, day_of, date_of,
  next_date_within, next_date_across,
}

-- The date of day `doe` of an era.
abbrev era_date : ℕ → ℕ → Civil
era_date era doe = let y = year_of_era doe in date_of (y + era * 400) (doe - start_of_year y)

civil_of_era_lem : (era doe : ℕ) → civil_of_era (pos era) doe ≡ era_date era doe
unfolding civil_of_era year_of_era month_of day_of month_prime
civil_of_era_lem era doe = rw (pos-mul era 400, pos-add) (rw pos-add refl)

civil_from_days_lem :
    (n : ℕ) → civil_from_days (pos n) ≡ era_date ((n + 719_468) / 146_097) ((n + 719_468) % 146_097)
unfolding civil_from_days
civil_from_days_lem n =
    let s = n + 719_468 in
    let e = s / 146_097 in
    rw (pos-add n 719_468, pos-div s 146_097, pos-mul e 146_097)
      (rw (pos-sub s (e * 146_097) (omega arith), ← mod-eq-sub-div-mul s 146_097)
        (civil_of_era_lem e (s % 146_097)))

long_year :
    (era y : ℕ)
    → y < 400
    → is_leap (pos (y + era * 400 + 1)) ≡ true
    → (start_of_year (y + 1) ≡ start_of_year y + 366) ⊎ (y ≡ 399)
long_year era y h l = ground arith

short_year :
    (era y : ℕ)
    → y < 400
    → is_leap (pos (y + era * 400 + 1)) ≡ false
    → (start_of_year (y + 1) ≡ start_of_year y + 365) × (y < 399)
short_year era y h l = ground arith

-- Where a day of an era stands in its year, and the next.
module _ (era doe : ℕ) (h : doe < 146_097) where
  abbrev y : ℕ
  y = year_of_era doe

  abbrev doy : ℕ
  doy = doe - start_of_year y

  abbrev leap : Bool
  leap = is_leap (pos (y + era * 400 + 1))

  -- The day after is in the same year, or it is the first of the next year.
  data Next : Type 0 where
    same_year :
        doy < (if leap then 365 else 364) → doe + 1 < 146_097 → year_of_era (doe + 1) ≡ y → Next
    next_year :
        doy ≡ (if leap then 365 else 364) → doe + 1 ≡ start_of_year (y + 1) → y + 1 < 400 → Next
    next_era : doy ≡ (if leap then 365 else 364) → doe + 1 ≡ 146_097 → y + 1 ≡ 400 → Next

  next_long : leap ≡ true → Next
  next_long l =
      let (small, low, high) = year_of_era_bounds doe h in
      let long = long_year era y small l in
      elim (Bool-cases (ltb doy 365)) [
        | inl p ↦
            let fits : doy < 365 = ground arith in
            same_year (rw l fits) (omega arith) (elim long [
              | inl e ↦ year_of_era_unique (doe + 1) y small (omega arith) (omega arith)
              | inr e ↦ year_of_era_last (doe + 1) (omega arith) (omega arith) ∙ sym e
            ])
        | inr p ↦
            let last : doy ≡ 365 = ground arith in
            elim long [
              | inl e ↦ next_year (rw l last) (omega arith) (omega arith)
              | inr e ↦ next_era (rw l last) (omega arith) (omega arith)
            ]
      ]

  next_short : leap ≡ false → Next
  next_short l =
      let (small, low, high) = year_of_era_bounds doe h in
      let (short, before_last) = short_year era y small l in
      elim (Bool-cases (ltb doy 364)) [
        | inl p ↦
            let fits : doy < 364 = ground arith in
            same_year (rw l fits) (omega arith)
              (year_of_era_unique (doe + 1) y small (omega arith) (omega arith))
        | inr p ↦
            let below = year_of_era_below doe h before_last in
            let last : doy ≡ 364 = ground arith in next_year (rw l last) (omega arith) (omega arith)
      ]

  next : Next
  next = elim (Bool-cases leap) [ inl l ↦ next_long l | inr l ↦ next_short l ]

first_year : year_of_era 0 ≡ 0
unfolding year_of_era
first_year = refl

-- The next day stands in the same year, begins the next one, or begins the next era.
next_date-era_date :
    (era doe : ℕ) (h : doe < 146_097)
    → Next era doe h
    → next_date (era_date era doe)
      ≡ (if ltb (doe + 1) 146_097 then era_date era (doe + 1) else era_date (era + 1) 0)
next_date-era_date era doe h (same_year fits inside same) =
    let (small, low, high) = year_of_era_bounds doe h in
    rw (lt→ltb (doe + 1) 146_097 inside) (
      next_date-date_of _ _
      ∙ next_date_within _ (year_of_era doe + era * 400) (doy era doe h) fits
      ∙ ap₂ date_of (omega arith) (omega arith))
next_date-era_date era doe h (next_year last now inside) =
    let begun =
      year_of_era_unique (doe + 1) (year_of_era doe + 1) inside (omega arith) (omega arith) in
    rw (lt→ltb (doe + 1) 146_097 (omega arith)) (
      next_date-date_of _ _
      ∙ next_date_across _ (year_of_era doe + era * 400) (doy era doe h) last
      ∙ ap₂ date_of (omega arith) (omega arith))
next_date-era_date era doe h (next_era last now end) =
    rw (le→ltb_false (doe + 1) 146_097 (omega arith)) (
      next_date-date_of _ _
      ∙ next_date_across _ (year_of_era doe + era * 400) (doy era doe h) last
      ∙ ap₂ date_of (omega (arith, first_year)) (omega (arith, first_year)))

era_step :
    (n : ℕ)
    → era_date ((n + 1 + 719_468) / 146_097) ((n + 1 + 719_468) % 146_097) ≡ (
        if ltb ((n + 719_468) % 146_097 + 1) 146_097
        then era_date ((n + 719_468) / 146_097) ((n + 719_468) % 146_097 + 1)
        else era_date ((n + 719_468) / 146_097 + 1) 0)
era_step n = elim (Bool-cases (ltb ((n + 719_468) % 146_097 + 1) 146_097)) [
  | inl p ↦ let inside = ltb→lt _ _ p in rw p (ap₂ era_date (omega arith) (omega arith))
  | inr p ↦
      let over : 146_097 ≤ (n + 719_468) % 146_097 + 1 = ground arith in
      rw p (ap₂ era_date (omega arith) (omega arith))
]

-- The date of each day is the calendar's next date after that of the day before.
pub civil_from_days-next_date :
    (n : ℕ) → civil_from_days (pos (n + 1)) ≡ next_date (civil_from_days (pos n))
civil_from_days-next_date n =
    let s = n + 719_468 in
    let era = s / 146_097 in
    let doe = s % 146_097 in
    let h : doe < 146_097 = omega arith in
    civil_from_days_lem (n + 1)
    ∙ era_step n
    ∙ sym (next_date-era_date era doe h (next era doe h))
    ∙ ap next_date (sym (civil_from_days_lem n))

-- The date `n` days after the first of January 1970, counted by the calendar.
unfoldable pub nth_date : ℕ → Civil
nth_date zero = record { year = pos 1970; month = 1; day = 1 }
nth_date (suc n) = next_date (nth_date n)

-- For every number of days since the first of January 1970 that is not negative, `civil_from_days`
-- gives the date that counting by the rules of the Gregorian calendar gives.
pub civil_from_days-nth_date : (n : ℕ) → civil_from_days (pos n) ≡ nth_date n
unfolding nth_date
civil_from_days-nth_date zero = civil_from_days_lem 0 ∙ epoch
  where
    epoch : era_date 4 135_080 ≡ record { year = pos 1970; month = 1; day = 1 }
    epoch = unfold year_of_era month_of day_of in refl
civil_from_days-nth_date (suc n) =
    ap (λ k. civil_from_days (pos k)) (sym (add-one n))
    ∙ civil_from_days-next_date n
    ∙ ap next_date (civil_from_days-nth_date n)
