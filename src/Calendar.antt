-- ===== src/Calendar.antt =====
-- src/intercept.rs: `days_to_ymd`, and the fields that `format_timestamp` prints. Days and seconds are not
-- negative there; the numbers are far below the limits of their types.
mod Steps
pub mod Laws
mod Runs
pub mod Gregorian
use oms_modbus.Base.{ℕ, ◌+◌, ◌-◌, ◌*◌, ◌/◌, ◌%◌, if◌then◌else◌, ltb, leb}

-- `yoe`: the year of the era of 400 years, which starts in March.
unfoldable pub year_of_era : ℕ → ℕ
year_of_era doe = (doe - doe / 1460 + doe / 36524 - doe / 146096) / 365

-- `doy`: the day of that year.
unfoldable pub day_of_year : ℕ → ℕ → ℕ
day_of_year doe yoe = doe - (365 * yoe + yoe / 4 - yoe / 100)

-- `m`, from `mp`, the month from March on.
unfoldable pub month_of : ℕ → ℕ
month_of mp = if ltb mp 10 then mp + 3 else mp - 9

-- Year, month and day from the year that starts in March and the day of it.
unfoldable pub date_of : ℕ → ℕ → ℕ × ℕ × ℕ
unfolding month_of
date_of y doy =
    let mp = (5 * doy + 2) / 153 in
    let d = doy - (153 * mp + 2) / 5 + 1 in
    let m = month_of mp in (if leb m 2 then y + 1 else y, m, d)

unfoldable pub days_to_ymd : ℕ → ℕ × ℕ × ℕ
unfolding year_of_era day_of_year date_of
days_to_ymd days =
    let z = days + 719468 in
    let era = z / 146097 in
    let doe = z - era * 146097 in
    let yoe = year_of_era doe in date_of (yoe + era * 400) (day_of_year doe yoe)

-- What `format_timestamp` prints.
pub record Timestamp : Type 0 where
  pub date : ℕ × ℕ × ℕ
  pub hour : ℕ
  pub minute : ℕ
  pub second : ℕ
  pub micros : ℕ

unfoldable pub format_timestamp : ℕ → Timestamp
unfolding days_to_ymd
format_timestamp timestamp_us =
    let secs = timestamp_us / 1000000 in
    let time_of_day = secs % 86400 in
    record {
      date = days_to_ymd (secs / 86400);
      hour = time_of_day / 3600;
      minute = (time_of_day % 3600) / 60;
      second = time_of_day % 60;
      micros = timestamp_us % 1000000;
    }
