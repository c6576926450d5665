-- ===== src/Calendar/Gregorian.antt =====
-- src/intercept.rs: the Gregorian calendar, as a walk from day to day.
use oms_modbus.Base.{ℕ, zero, suc, ◌+◌, ◌*◌, ◌/◌, ◌%◌, ◌<◌, ◌≡◌, if◌then◌else◌, ltb, ◌==◌}
use oms_modbus.Calendar.{Timestamp}

abbrev pub leap : ℕ → ℕ
leap y = if y % 4 == 0 then if y % 100 == 0 then if y % 400 == 0 then 1 else 0 else 1 else 0

abbrev pub month_length : ℕ → ℕ → ℕ
month_length y m =
    if m == 2
    then 28 + leap y
    else if m == 4
    then 30
    else if m == 6
    then 30
    else if m == 9
    then 30
    else if m == 11
    then 30
    else 31

-- The day after a date.
unfoldable pub next_day : ℕ × ℕ × ℕ → ℕ × ℕ × ℕ
next_day (y, m, d) =
    if ltb d (month_length y m)
    then (y, m, d + 1)
    else if ltb m 12
    then (y, m + 1, 1)
    else (y + 1, 1, 1)

-- The date so many days after the first of January 1970.
unfoldable pub calendar : ℕ → ℕ × ℕ × ℕ
unfolding next_day
calendar zero = (1970, 1, 1)
calendar (suc days) = next_day (calendar days)

-- The date and the time of day of so many microseconds since the first of January 1970.
abbrev pub IsTimeOf : ℕ → Timestamp → Type 0
IsTimeOf timestamp_us t =
    (t.date ≡ calendar (timestamp_us / 86400000000))
    × (((t.hour * 60 + t.minute) * 60 + t.second) * 1000000 + t.micros ≡ timestamp_us % 86400000000)
    × (t.hour < 24)
    × (t.minute < 60)
    × (t.second < 60)
    × (t.micros < 1000000)
