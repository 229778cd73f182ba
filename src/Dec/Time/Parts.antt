-- ===== src/Dec/Time/Parts.antt =====
-- `utc_parts` takes a timestamp apart with nothing lost.
use pira.Common.{
  ℕ, ◌+◌, ◌*◌, ◌/◌, ◌%◌, ◌≤◌, ◌<◌, ◌≡◌, refl, ap, ◌∙◌, ok, err, arith, le→ltb_false, lt→ltb,
}
use pira.Dec.Error.{timestamp_range}
use pira.Dec.Time.{UtcParts, max_timestamp_ms, utc_parts, civil_from_days}
use pira.Dec.Time.Successor.{nth_date, civil_from_days-nth_date}
use pira.Common.Int.{pos}

-- The parts of a timestamp: the date of its day, and a time of day that with the day adds up to it.
pub record Splits (timestamp_ms days : ℕ) (p : UtcParts) : Type 0 where
  pub date : p.date ≡ nth_date days
  pub hour : p.hour < 24
  pub minute : p.minute < 60
  pub second : p.second < 60
  pub millis : p.millis < 1000
  pub total :
      (((days * 24 + p.hour) * 60 + p.minute) * 60 + p.second) * 1000 + p.millis ≡ timestamp_ms

-- Up to the largest timestamp `utc_parts` succeeds, with the calendar date of the day and an hour,
-- minute, second and millisecond in their ranges that add up to the timestamp.
pub utc_parts-Splits :
    (timestamp_ms : ℕ)
    → timestamp_ms ≤ max_timestamp_ms
    → (p : UtcParts) × (utc_parts timestamp_ms ≡ ok p)
      × Splits timestamp_ms (timestamp_ms / 86_400_000) p
unfolding utc_parts
utc_parts-Splits t h =
    let seconds = t / 1000 in
    let day = seconds % 86_400 in
    let p : UtcParts = record {
      date = civil_from_days (pos (seconds / 86_400));
      hour = day / 3_600;
      minute = day % 3_600 / 60;
      second = day % 60;
      millis = t % 1_000;
    } in
    (
      p,
      rw (le→ltb_false max_timestamp_ms t h) refl,
      record {
        date = civil_from_days-nth_date (seconds / 86_400) ∙ ap nth_date (omega arith);
        hour = omega arith;
        minute = omega arith;
        second = omega arith;
        millis = omega arith;
        total = omega arith;
      },
    )

-- Past it there is the range error.
pub utc_parts-timestamp_range :
    (timestamp_ms : ℕ)
    → max_timestamp_ms < timestamp_ms
    → utc_parts timestamp_ms ≡ err timestamp_range
unfolding utc_parts
utc_parts-timestamp_range t h = rw (lt→ltb max_timestamp_ms t h) refl
