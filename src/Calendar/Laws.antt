-- ===== src/Calendar/Laws.antt =====
-- src/intercept.rs: `days_to_ymd` gives the dates of the Gregorian calendar.
use oms_modbus.Base.{
  ℕ, zero, suc, ◌+◌, ◌-◌, ◌*◌, ◌/◌, ◌<◌, ◌≤◌, ◌≡◌, refl, ap, ap₂, sym, ◌∙◌, ltb, arith, Bool-cases,
  inl, inr, ◌%◌, subst, ◌⊎◌,
}
use oms_modbus.Calendar.{year_of_era, day_of_year, month_of, date_of, days_to_ymd, format_timestamp}
use oms_modbus.Calendar.Gregorian.{leap, next_day, calendar, IsTimeOf}
use oms_modbus.Calendar.Steps.{next_day-date_of, next_day-turn}

-- The days of an era before a year of it.
abbrev year_start : ℕ → ℕ
year_start yoe = 365 * yoe + yoe / 4 - yoe / 100

year_start-year_of_era :
    (doe : ℕ)
    → doe < 146097
    → (year_start (year_of_era doe) ≤ doe)
      × (year_of_era doe ≤ 399)
      × (doe ≤ year_start (year_of_era doe) + 365)
      × (year_of_era doe < 399 → doe < year_start (year_of_era doe + 1))
unfolding year_of_era
year_start-year_of_era doe h = (omega arith, omega arith, omega arith, λ l. omega arith)

year_start-leap :
    (yoe : ℕ) → yoe < 399 → year_start (yoe + 1) ≡ year_start yoe + 365 + leap (yoe + 1)
year_start-leap yoe h = ground arith

leap-era : (yoe era : ℕ) → leap (yoe + era * 400 + 1) ≡ leap (yoe + 1)
leap-era yoe era =
    let four : (yoe + era * 400 + 1) % 4 ≡ (yoe + 1) % 4 = omega arith in
    let hundred : (yoe + era * 400 + 1) % 100 ≡ (yoe + 1) % 100 = omega arith in
    let all : (yoe + era * 400 + 1) % 400 ≡ (yoe + 1) % 400 = omega arith in
    rw (four, hundred, all) refl

-- The date of a day of an era.
abbrev dated : ℕ → ℕ → ℕ × ℕ × ℕ
dated era doe = date_of (year_of_era doe + era * 400) (day_of_year doe (year_of_era doe))

room :
    (yoe doe : ℕ)
    → doe + 1 < 146097
    → yoe ≤ 399
    → (yoe < 399 → doe + 1 < year_start (yoe + 1))
    → doe + 1 < year_start yoe + (365 + leap (yoe + 1))
room yoe doe h limit below = elim (Bool-cases (ltb yoe 399)) [
  | inl t ↦
      let less : yoe < 399 = ground (arith, t) in
      omega (arith, below less, year_start-leap yoe less)
  | inr t ↦ let last : yoe ≡ 399 = ground (arith, t, limit) in rw last (omega (arith, h))
]

dated-same :
    (era doe : ℕ)
    → doe + 1 < 146097
    → year_of_era (doe + 1) ≡ year_of_era doe
    → next_day (dated era doe) ≡ dated era (doe + 1)
unfolding day_of_year
dated-same era doe h e =
    let yoe = year_of_era doe in
    let (start, limit, length, below) = year_start-year_of_era doe (omega arith) in
    let (start', limit', length', below') = year_start-year_of_era (doe + 1) h in
    let inside = room yoe doe h limit (λ l. omega (arith, e, below' (omega (arith, e, l)))) in
    next_day-date_of (yoe + era * 400) (doe - year_start yoe)
      (omega (arith, inside, start, leap-era yoe era))
    ∙ rw e (ap (date_of (yoe + era * 400)) (omega (arith, start)))

dated-next :
    (era doe : ℕ)
    → doe + 1 < 146097
    → year_of_era (doe + 1) ≡ year_of_era doe + 1
    → next_day (dated era doe) ≡ dated era (doe + 1)
unfolding day_of_year
dated-next era doe h e =
    let yoe = year_of_era doe in
    let (start, limit, length, below) = year_start-year_of_era doe (omega arith) in
    let (start', limit', length', below') = year_start-year_of_era (doe + 1) h in
    let less : yoe < 399 = omega (arith, e, limit') in
    let size = year_start-leap yoe less in
    let first : year_start (yoe + 1) ≤ doe + 1 = subst (λ y. year_start y ≤ doe + 1) e start' in
    let full : doe + 1 ≡ year_start (yoe + 1) = omega (arith, first, below less) in
    next_day-turn (yoe + era * 400) (doe - year_start yoe)
      (omega (arith, full, size, start, leap-era yoe era))
    ∙ rw e (ap₂ date_of (omega arith) (omega (arith, full)))

year_of_era-next :
    (doe : ℕ)
    → doe + 1 < 146097
    → (year_of_era (doe + 1) ≡ year_of_era doe) ⊎ (year_of_era (doe + 1) ≡ year_of_era doe + 1)
unfolding year_of_era
year_of_era-next doe h = ground arith

dated-suc : (era doe : ℕ) → doe + 1 < 146097 → next_day (dated era doe) ≡ dated era (doe + 1)
dated-suc era doe h = elim (year_of_era-next doe h) [
  | inl same ↦ dated-same era doe h same
  | inr later ↦ dated-next era doe h later
]

-- The last day of an era, in a leap year.
dated-era : (era doe : ℕ) → doe ≡ 146096 → next_day (dated era doe) ≡ dated (era + 1) 0
unfolding year_of_era day_of_year
dated-era era doe e = rw e (
    next_day-turn (399 + era * 400) 365 (omega (arith, leap-era 399 era))
    ∙ ap (λ y. date_of y 0) (omega arith))

next_day-days_to_ymd : (days : ℕ) → next_day (days_to_ymd days) ≡ days_to_ymd (suc days)
unfolding days_to_ymd
next_day-days_to_ymd days =
    let z = days + 719468 in
    let era = z / 146097 in
    let doe = z - era * 146097 in
    elim (Bool-cases (ltb (doe + 1) 146097)) [
      | inl t ↦
          let inside : doe + 1 < 146097 = ground (arith, t) in
          let same : (suc days + 719468) / 146097 ≡ era = omega (arith, inside) in
          let day : doe + 1 ≡ suc days + 719468 - (suc days + 719468) / 146097 * 146097 =
            omega (arith, inside, same) in
          dated-suc era doe inside ∙ ap₂ dated (sym same) day
      | inr t ↦
          let last : doe ≡ 146096 = ground (arith, t) in
          let next : (suc days + 719468) / 146097 ≡ era + 1 = omega (arith, last) in
          let day : 0 ≡ suc days + 719468 - (suc days + 719468) / 146097 * 146097 =
            omega (arith, last, next) in
          dated-era era doe last ∙ ap₂ dated (sym next) day
    ]

first_day : days_to_ymd 0 ≡ (1970, 1, 1)
unfolding days_to_ymd date_of year_of_era day_of_year month_of
first_day = refl

days_to_ymd-calendar : (days : ℕ) → days_to_ymd days ≡ calendar days
unfolding calendar
days_to_ymd-calendar zero = first_day
days_to_ymd-calendar (suc days) =
    sym (next_day-days_to_ymd days) ∙ ap next_day (days_to_ymd-calendar days)

-- Of every timestamp `format_timestamp` prints the date that a walk through the Gregorian calendar from the
-- first of January 1970 on, a day at a time, arrives at after the whole days of it; and hour, minute, second
-- and microseconds, each within its range, that together are the rest of it.
pub format_timestamp-IsTimeOf :
    (timestamp_us : ℕ) → IsTimeOf timestamp_us (format_timestamp timestamp_us)
unfolding format_timestamp
format_timestamp-IsTimeOf timestamp_us =
    let days : timestamp_us / 1000000 / 86400 ≡ timestamp_us / 86400000000 = omega arith in
    (
      days_to_ymd-calendar (timestamp_us / 1000000 / 86400) ∙ ap calendar days,
      omega arith,
      omega arith,
      omega arith,
      omega arith,
      omega arith,
    )
