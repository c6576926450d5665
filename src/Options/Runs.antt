-- ===== src/Options/Runs.antt =====
-- Runs of the settings: a client made by the default options.
use oms_modbus.Base.{ℕ, ◌≡◌, refl, [], ◌∷◌, ok, length}
use oms_modbus.Timing.{custom}
use oms_modbus.Sniff.Parts.{ready, WireTap, AsyncStream}
use oms_modbus.Sniff.Io.{prepare_send, poll_write, channel_capacity}
use oms_modbus.Options.{
  ClientOptions, default_options, with_timeout, with_tap, with_bus_timing,
  with_data_channel_capacity, with_tap_capacity, wrapped, serial_with_options,
}
use oms_modbus.Options.Spacing.{reading, writing, traffic, serial_with_options-never_waits}

-- A stream over any state that takes and yields all.
abbrev open_line : {T : Type 0} → AsyncStream T
open_line = record {
  poll_read = λ room t. (ready (ok (9 ∷ [])), t);
  poll_write = λ bytes t. (ready (ok (length bytes)), t);
}

abbrev silent : WireTap ℕ
silent = record {
  on_write = λ bytes now n. n;
  on_read = λ bytes now n. n;
  on_error = λ bytes cause now n. n;
}

abbrev slow : ClientOptions ℕ
slow = with_tap 0 (with_bus_timing (custom 100000) default_options)

serial_with_options-never_waits_example :
    prepare_send 200 (
      traffic open_line silent
        (writing 100 (1 ∷ 2 ∷ []) ∷ reading 0 150 8 [] ∷ [])
        (serial_with_options {T = ℕ} 0 slow).stream)
    ≡ 0
serial_with_options-never_waits_example =
    serial_with_options-never_waits open_line silent 0 slow
      (writing 100 (1 ∷ 2 ∷ []) ∷ reading 0 150 8 [] ∷ []) 200

-- The stream of a TCP client with the same options waits.
tcp_waits :
    prepare_send 200 (poll_write open_line silent 100 (1 ∷ 2 ∷ []) (wrapped {T = ℕ} 0 slow)).1
    ≡ 99900
unfolding wrapped poll_write prepare_send with_tap with_bus_timing custom default_options
tcp_waits = refl

capacities_set :
    channel_capacity
      (wrapped {T = ℕ} 0 (with_tap_capacity 3 (with_data_channel_capacity 9 (with_timeout 5 slow))))
    ≡ 9
unfolding wrapped with_tap with_bus_timing with_data_channel_capacity with_tap_capacity with_timeout
capacities_set = refl
