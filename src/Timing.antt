-- ===== src/Timing.antt =====
-- src/bus_timing.rs: the spacing of frames on the bus. The clock is an argument, in microseconds; a
-- sleep of `n` microseconds ends at the time asked for or later.
mod Runs
pub mod Laws
use oms_modbus.Base.{ℕ, ◌+◌, ◌-◌, ◌*◌, ◌/◌, ◌%◌, ◌^◌, max, if◌then◌else◌, ltb, ◌==◌}

pub record BusTiming : Type 0 where
  pub last_event_us : ℕ  -- u64, 0 for none
  pub min_spacing_us : ℕ  -- u64

-- `custom` takes the spacing in whole microseconds, which it cuts to 64 bits.
unfoldable pub custom : ℕ → BusTiming
custom min_spacing = record { last_event_us = 0; min_spacing_us = min_spacing % 2 ^ 64 }

unfoldable pub rtu_35t : ℕ → BusTiming
rtu_35t baud_rate = record {
  last_event_us = 0;
  min_spacing_us = if ltb 19200 baud_rate then 1750 else (3500000 * 11) / max baud_rate 1;
}

unfoldable pub rtu_35t_raw : ℕ → BusTiming
rtu_35t_raw baud_rate = record {
  last_event_us = 0;
  min_spacing_us = (3500000 * 11) / max baud_rate 1;
}

unfoldable pub ascii_35t : ℕ → BusTiming
unfolding rtu_35t
ascii_35t baud_rate = rtu_35t baud_rate

-- `touch` at the time `now`
unfoldable pub touch : ℕ → BusTiming → BusTiming
touch now timing = record timing { last_event_us = max now 1 }

-- `wait_if_needed` at the time `now`: the microseconds it asks to sleep.
unfoldable pub wait_if_needed : ℕ → BusTiming → ℕ
wait_if_needed now timing =
    if timing.last_event_us == 0
    then 0
    else if ltb (now - timing.last_event_us) timing.min_spacing_us
    then timing.min_spacing_us - (now - timing.last_event_us)
    else 0

abbrev pub min_spacing : BusTiming → ℕ
min_spacing timing = timing.min_spacing_us
