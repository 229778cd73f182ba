-- ===== src/Dec/Time/Tests.antt =====
-- Runs of the timestamp functions, after the tests of util.rs.
use pira.Common.{◌≡◌, refl, ok, codes}
use pira.Common.Int.{◌+ℤ◌, ◌-ℤ◌, ◌*ℤ◌, div_trunc}
use pira.Dec.Time.{civil_of_era, civil_from_days, format_id_timestamp, format_rfc3339}

formats_fixed_utc_timestamps :
    (format_id_timestamp 1_784_269_812_000 ≡ ok (codes "20260717-063012"))
    × (format_rfc3339 1_784_269_812_345 ≡ ok (codes "2026-07-17T06:30:12.345Z"))
unfolding format_id_timestamp format_rfc3339 civil_from_days civil_of_era ◌+ℤ◌ ◌-ℤ◌ ◌*ℤ◌ div_trunc
formats_fixed_utc_timestamps = (refl, refl)
