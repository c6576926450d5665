-- ===== src/Calendar/Steps.antt =====
-- src/intercept.rs: a month from March on, and the day after a day of it.
use oms_modbus.Base.{
  ℕ, ◌+◌, ◌-◌, ◌*◌, ◌/◌, ◌<◌, ◌≤◌, ◌≡◌, refl, ap, sym, ◌∙◌, if◌then◌else◌, ltb, leb, arith,
  Bool-cases, inl, inr, true, false,
}
use oms_modbus.Calendar.{month_of, date_of}
use oms_modbus.Calendar.Gregorian.{leap, month_length, next_day}

abbrev pub month_start : ℕ → ℕ
month_start mp = (153 * mp + 2) / 5

abbrev pub year_in : ℕ → ℕ → ℕ
year_in y mp = if leb (month_of mp) 2 then y + 1 else y

date_of-month :
    (y mp d : ℕ)
    → mp ≤ 11
    → month_start mp + d < month_start (mp + 1)
    → date_of y (month_start mp + d) ≡ (year_in y mp, month_of mp, d + 1)
unfolding date_of
date_of-month y mp d h lt =
    let same : (5 * (month_start mp + d) + 2) / 153 ≡ mp = omega arith in
    let day : month_start mp + d - month_start mp + 1 ≡ d + 1 = omega arith in rw (same, day) refl

month_length-year_in :
    (y mp : ℕ)
    → mp ≤ 10
    → month_start mp + month_length (year_in y mp) (month_of mp) ≡ month_start (mp + 1)
unfolding month_of
month_length-year_in y mp h = ground arith

next_day-within : (y m d : ℕ) → d < month_length y m → next_day (y, m, d) ≡ (y, m, d + 1)
unfolding next_day
next_day-within y m d h = let t : ltb d (month_length y m) ≡ true = ground (arith, h) in rw t refl

next_day-last :
    (y mp d : ℕ)
    → mp ≤ 10
    → d ≡ month_length (year_in y mp) (month_of mp)
    → next_day (year_in y mp, month_of mp, d) ≡ (year_in y (mp + 1), month_of (mp + 1), 1)
unfolding next_day month_of
next_day-last y mp d h e =
    let t : ltb d (month_length (year_in y mp) (month_of mp)) ≡ false = ground (arith, e) in
    rw t (ground arith)

month_length-last :
    (y mp : ℕ) → mp ≡ 11 → month_length (year_in y mp) (month_of mp) ≡ 28 + leap (y + 1)
unfolding month_of
month_length-last y mp e = rw e refl

leap-le : (y : ℕ) → leap y ≤ 1
leap-le y = ground arith

-- The day after the day `d` of the month `mp`.
next_day-month :
    (y mp d : ℕ)
    → mp ≤ 11
    → month_start mp + d < month_start (mp + 1)
    → month_start mp + d + 1 < 365 + leap (y + 1)
    → next_day (year_in y mp, month_of mp, d + 1) ≡ date_of y (month_start mp + d + 1)
next_day-month y mp d h within inside = elim (Bool-cases (leb mp 10)) [
  | inl t ↦
      let early : mp ≤ 10 = ground (arith, t) in
      let size = month_length-year_in y mp early in
      elim (Bool-cases (ltb (d + 1) (month_length (year_in y mp) (month_of mp)))) [
        | inl u ↦
            let more : d + 1 < month_length (year_in y mp) (month_of mp) = ground (arith, u) in
            next_day-within (year_in y mp) (month_of mp) (d + 1) more
            ∙ sym (date_of-month y mp (d + 1) h (omega (arith, size, more)))
            ∙ ap (date_of y) (omega arith)
        | inr u ↦
            let full : d + 1 ≡ month_length (year_in y mp) (month_of mp) =
              ground (arith, u, size, within) in
            next_day-last y mp (d + 1) early full
            ∙ sym (date_of-month y (mp + 1) 0 (omega (arith, early)) (omega arith))
            ∙ ap (date_of y) (omega (arith, size, full))
      ]
  | inr t ↦
      let last : mp ≡ 11 = ground (arith, t, h) in
      let size = month_length-last y mp last in
      next_day-within (year_in y mp) (month_of mp) (d + 1) (omega (arith, size, last, inside))
      ∙ sym (date_of-month y mp (d + 1) h (omega (arith, last, inside, leap-le (y + 1))))
      ∙ ap (date_of y) (omega arith)
]

abbrev pub month_index : ℕ → ℕ
month_index doy = (5 * doy + 2) / 153

date_of-index :
    (y doy : ℕ)
    → doy ≤ 365
    → date_of y doy ≡ (
      year_in y (month_index doy),
      month_of (month_index doy),
      doy - month_start (month_index doy) + 1,
    )
unfolding date_of
date_of-index y doy h = refl

-- Inside a year that starts in March, `date_of` goes on as the calendar does.
pub next_day-date_of :
    (y doy : ℕ) → doy + 1 < 365 + leap (y + 1) → next_day (date_of y doy) ≡ date_of y (doy + 1)
next_day-date_of y doy h =
    let mp = month_index doy in
    let d = doy - month_start mp in
    let one = leap-le (y + 1) in
    let whole : month_start mp + d ≡ doy = omega arith in
    ap next_day (date_of-index y doy (omega (arith, h, one)))
    ∙ next_day-month y mp d (omega (arith, h, one)) (omega arith) (omega (arith, whole, h))
    ∙ ap (date_of y) (omega (arith, whole))

-- Behind its last day the next year starts in March.
pub next_day-turn :
    (y doy : ℕ) → doy + 1 ≡ 365 + leap (y + 1) → next_day (date_of y doy) ≡ date_of (y + 1) 0
unfolding next_day date_of month_of
next_day-turn y doy h =
    let one = leap-le (y + 1) in
    let same : month_index doy ≡ 11 = omega (arith, h, one) in
    let day : doy - 337 + 1 ≡ 28 + leap (y + 1) = omega (arith, h) in rw (same, day) (ground arith)
