-- ===== src/Dec/Time.antt =====
-- Timestamps of tools/src/pira_dec/util.rs: the calendar date of a millisecond count, and the two
-- forms in which it is written.
mod Tests
pub mod Parts
pub mod Calendar
pub mod Successor
use pira.Common.{
  ℕ, suc, ◌+◌, ◌-◌, ◌*◌, ◌/◌, ◌%◌, ◌<◌, ◌≡◌, refl, Bool, true, false, List, [], ◌∷◌, ◌++◌, ltb, leb,
  if◌then◌else◌, Text, Result, ok, err, reject, ◌>>=◌, ◌>>◌, codes,
}
use pira.Common.Chars.{padded, padded_int}
use pira.Common.Int.{ℤ, pos, negsuc, pos_part, ◌+ℤ◌, ◌-ℤ◌, ◌*ℤ◌, div_trunc, is_nonneg}
use pira.Dec.Error.{Error, timestamp_range}

abbrev pub max_timestamp_ms : ℕ
max_timestamp_ms = 253_402_300_799_999

unfoldable pub validate_timestamp : ℕ → Result Error (Unit {0})
validate_timestamp timestamp_ms = reject (ltb max_timestamp_ms timestamp_ms) timestamp_range

pub record Civil : Type 0 where
  pub year : ℤ
  pub month : ℕ
  pub day : ℕ

pub record UtcParts : Type 0 where
  pub date : Civil
  pub hour : ℕ
  pub minute : ℕ
  pub second : ℕ
  pub millis : ℕ

-- The part of `civil_from_days` within one era of 400 years. `day_of_era` is not negative, so the
-- `i64` operations are those of ℕ; the only one that can be, `month_prime - 9`, is guarded.
unfoldable pub civil_of_era : ℤ → ℕ → Civil
civil_of_era era day_of_era =
    let year_of_era =
      (day_of_era - day_of_era / 1_460 + day_of_era / 36_524 - day_of_era / 146_096) / 365 in
    let year = pos year_of_era +ℤ era *ℤ 400 in
    let day_of_year = day_of_era - (365 * year_of_era + year_of_era / 4 - year_of_era / 100) in
    let month_prime = (5 * day_of_year + 2) / 153 in
    let day = day_of_year - (153 * month_prime + 2) / 5 + 1 in
    let month = if ltb month_prime 10 then month_prime + 3 else month_prime - 9 in
    record { year = year +ℤ pos (if leb month 2 then 1 else 0); month = month; day = day }

unfoldable pub civil_from_days : ℤ → Civil
civil_from_days days_since_epoch =
    let shifted = days_since_epoch +ℤ pos 719_468 in
    let era = div_trunc (if is_nonneg shifted then shifted else shifted -ℤ pos 146_096) 146_097 in
    civil_of_era era (pos_part (shifted -ℤ era *ℤ 146_097))

unfoldable pub utc_parts : ℕ → Result Error UtcParts
unfolding validate_timestamp
utc_parts timestamp_ms = do
  validate_timestamp timestamp_ms
  let seconds = timestamp_ms / 1_000
  let days = seconds / 86_400
  let seconds_of_day = seconds % 86_400
  ok (record {
    date = civil_from_days (pos days);
    hour = seconds_of_day / 3_600;
    minute = seconds_of_day % 3_600 / 60;
    second = seconds_of_day % 60;
    millis = timestamp_ms % 1_000;
  })

unfoldable pub format_id_timestamp : ℕ → Result Error Text
unfolding utc_parts padded padded_int
format_id_timestamp timestamp_ms = do
  parts ← utc_parts timestamp_ms
  ok (
      padded_int 4 parts.date.year
      ++ (padded 2 parts.date.month
          ++ (padded 2 parts.date.day
              ++ (b'-'
                  ∷ (padded 2 parts.hour ++ (padded 2 parts.minute ++ padded 2 parts.second))))))

unfoldable pub format_rfc3339 : ℕ → Result Error Text
unfolding utc_parts padded padded_int
format_rfc3339 timestamp_ms = do
  parts ← utc_parts timestamp_ms
  ok (
      padded_int 4 parts.date.year
      ++ (b'-'
          ∷ (padded 2 parts.date.month
              ++ (b'-'
                  ∷ (padded 2 parts.date.day
                      ++ (b'T'
                          ∷ (padded 2 parts.hour
                              ++ (b':'
                                  ∷ (padded 2 parts.minute
                                      ++ (b':'
                                          ∷ (padded 2 parts.second
                                              ++ (b'.'
                                                  ∷ (padded 3 parts.millis ++ codes "Z")))))))))))))
