-- ===== src/Timing/Runs.antt =====
-- Runs of src/bus_timing.rs.
use oms_modbus.Base.{◌+◌, ◌*◌, ◌≤◌, ◌<◌, ◌≡◌, refl, arith, max}
use oms_modbus.Timing.{custom, rtu_35t, rtu_35t_raw, ascii_35t, touch, wait_if_needed, min_spacing}
use oms_modbus.Timing.Laws.{touch-wait_if_needed, rtu_35t_bounds}

rtu_9600 : min_spacing (rtu_35t 9600) ≡ 4010
unfolding rtu_35t
rtu_9600 = refl

ascii_115200 : min_spacing (ascii_35t 115200) ≡ 1750
unfolding ascii_35t
ascii_115200 = refl

raw_115200 : min_spacing (rtu_35t_raw 115200) ≡ 334
unfolding rtu_35t_raw
raw_115200 = refl

custom_first : wait_if_needed 7 (custom 50000) ≡ 0
unfolding wait_if_needed custom
custom_first = refl

touch-wait_if_needed_example :
    (100 + min_spacing (custom 50000) ≤ 300 + 49800)
    × (wait_if_needed 300 (touch 100 (custom 50000)) ≤ min_spacing (custom 50000))
    × (max 100 1 + min_spacing (custom 50000) ≤ 300
        → wait_if_needed 300 (touch 100 (custom 50000)) ≡ 0)
unfolding wait_if_needed touch custom
touch-wait_if_needed_example =
    touch-wait_if_needed (custom 50000) 100 300 49800 (omega arith) (omega arith)

rtu_35t_bounds_example :
    (1750 ≤ min_spacing (rtu_35t 9600))
    × (9600 ≤ 19200 → min_spacing (rtu_35t 9600) * 9600 ≤ 38500000)
    × (9600 ≤ 19200 → min_spacing (rtu_35t_raw 9600) ≡ min_spacing (rtu_35t 9600))
    × (9600 ≤ 19200 → 38500000 < (min_spacing (rtu_35t 9600) + 1) * 9600)
rtu_35t_bounds_example = rtu_35t_bounds 9600 (omega arith)
