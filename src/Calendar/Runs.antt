-- ===== src/Calendar/Runs.antt =====
-- Runs of src/intercept.rs: dates and timestamps.
use oms_modbus.Base.{◌≡◌, refl}
use oms_modbus.Calendar.{days_to_ymd, format_timestamp, year_of_era, day_of_year, month_of, date_of}
use oms_modbus.Calendar.Gregorian.{IsTimeOf}
use oms_modbus.Calendar.Laws.{format_timestamp-IsTimeOf}

format_timestamp-IsTimeOf_example : IsTimeOf 951782400000001 (format_timestamp 951782400000001)
format_timestamp-IsTimeOf_example = format_timestamp-IsTimeOf 951782400000001

leap_day : days_to_ymd 11016 ≡ (2000, 2, 29)
unfolding days_to_ymd date_of year_of_era day_of_year month_of
leap_day = refl

dates_of_the_tests :
    (days_to_ymd 364 ≡ (1970, 12, 31))
    × (days_to_ymd 789 ≡ (1972, 2, 29))
    × (days_to_ymd 20675 ≡ (2026, 8, 10))
    × (days_to_ymd 47482 ≡ (2100, 1, 1))
unfolding days_to_ymd date_of year_of_era day_of_year month_of
dates_of_the_tests = (refl, refl, refl, refl)
