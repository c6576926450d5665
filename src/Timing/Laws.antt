-- ===== src/Timing/Laws.antt =====
-- src/bus_timing.rs: the silence between two frames.
use oms_modbus.Base.{ℕ, ◌+◌, ◌*◌, ◌/◌, ◌≤◌, ◌<◌, ◌≡◌, refl, max, arith, ltb, Bool-cases, inl, inr}
use native.Mathlib.Nat.{div-add-mod, mod-lt, le-div_iff_mul-le, div-mul-le_self}
use oms_modbus.Timing.{BusTiming, rtu_35t, rtu_35t_raw, touch, wait_if_needed, min_spacing}

-- After bus activity at `touched`, which may be 0, and a wait that began at `now`, not before it, and slept
-- `slept` microseconds, as long as asked or longer, the time is at least the spacing after the activity; the
-- wait never asks for more than the spacing, and for nothing when enough time has passed after the time noted.
pub touch-wait_if_needed :
    (timing : BusTiming) (touched now slept : ℕ)
    → touched ≤ now
    → wait_if_needed now (touch touched timing) ≤ slept
    → (touched + min_spacing timing ≤ now + slept)
      × (wait_if_needed now (touch touched timing) ≤ min_spacing timing)
      × (max touched 1 + min_spacing timing ≤ now → wait_if_needed now (touch touched timing) ≡ 0)
unfolding touch wait_if_needed
touch-wait_if_needed timing touched now slept k s = (ground arith, ground arith, λ e. ground arith)

-- For every positive baud rate the spacing is at least the 1750 µs that the specification sets for fast
-- lines. Up to 19200 baud it is that of the uncapped formula: 3.5 characters of 11 bits, rounded down to a
-- microsecond.
pub rtu_35t_bounds :
    (baud_rate : ℕ)
    → 1 ≤ baud_rate
    → (1750 ≤ min_spacing (rtu_35t baud_rate))
      × (baud_rate ≤ 19200 → min_spacing (rtu_35t baud_rate) * baud_rate ≤ 38500000)
      × (baud_rate ≤ 19200 → min_spacing (rtu_35t_raw baud_rate) ≡ min_spacing (rtu_35t baud_rate))
      × (baud_rate ≤ 19200 → 38500000 < (min_spacing (rtu_35t baud_rate) + 1) * baud_rate)
unfolding rtu_35t rtu_35t_raw
rtu_35t_bounds baud_rate h =
    let positive : max baud_rate 1 ≡ baud_rate = omega arith in
    elim (Bool-cases (ltb 19200 baud_rate)) [
      | inl fast ↦ rw fast (
        omega arith,
        λ e. absurd (ground arith),
        λ e. absurd (ground arith),
        λ e. absurd (ground arith),
      )
      | inr slow ↦
          let limit : baud_rate ≤ 19200 = ground arith in
          let formula = 38500000 / baud_rate in
          let whole = div-add-mod 38500000 baud_rate in
          let rest = mod-lt 38500000 {m = baud_rate} h in
          rw (slow, positive)
            (
              (le-div_iff_mul-le h).1 (omega arith),
              λ e. div-mul-le_self 38500000 baud_rate,
              λ e. refl,
              λ e. grind (arith, whole, rest),
            )
    ]
