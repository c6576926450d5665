-- ===== src/Options.antt =====
-- src/options.rs and `with_options` of src/transport/rtu.rs, src/transport/ascii.rs and
-- src/transport/tcp.rs: the settings of a client, and the stream that it is made with. Times are in
-- microseconds; a tap of state `S` stands for itself.
mod Runs
pub mod Spacing
use oms_modbus.Base.{ℕ, Option, none, some}
use oms_modbus.Reconnect.{ReconnectConfig}
use oms_modbus.Timing.{BusTiming, rtu_35t}
use oms_modbus.Sniff.Io.{SniffIo, open_io, with_channel_capacity, with_tap_channel_capacity}

pub record ClientOptions (S : Type 0) : Type 0 where
  pub timeout : ℕ
  pub tap : Option S
  pub reconnect : Option ReconnectConfig
  pub bus_timing : Option BusTiming
  pub data_channel_capacity : Option ℕ
  pub tap_channel_capacity : Option ℕ

module _ {S : Type 0} where
  unfoldable pub default_options : ClientOptions S
  unfolding rtu_35t
  default_options = record {
    timeout = 1000000;
    tap = none;
    reconnect = none;
    bus_timing = some (rtu_35t 9600);
    data_channel_capacity = none;
    tap_channel_capacity = none;
  }

  unfoldable pub with_timeout : ℕ → ClientOptions S → ClientOptions S
  with_timeout timeout opts = record opts { timeout = timeout }

  unfoldable pub with_tap : S → ClientOptions S → ClientOptions S
  with_tap tap opts = record opts { tap = some tap }

  -- `with_reconnect`, given the configuration that it makes
  unfoldable pub with_reconnect : ReconnectConfig → ClientOptions S → ClientOptions S
  with_reconnect config opts = record opts { reconnect = some config }

  unfoldable pub with_bus_timing : BusTiming → ClientOptions S → ClientOptions S
  with_bus_timing timing opts = record opts { bus_timing = some timing }

  unfoldable pub with_data_channel_capacity : ℕ → ClientOptions S → ClientOptions S
  with_data_channel_capacity bytes opts = record opts { data_channel_capacity = some bytes }

  unfoldable pub with_tap_capacity : ℕ → ClientOptions S → ClientOptions S
  with_tap_capacity bytes opts = record opts { tap_channel_capacity = some bytes }

-- A serial client: its stream, and the settings that it keeps for a rebuild.
pub record SerialClient (T S : Type 0) : Type 0 where
  pub stream : SniffIo T S
  pub client_timeout : ℕ
  pub client_reconnect : Option ReconnectConfig
  pub client_timing : Option BusTiming
  pub client_tap : Option S

module _ {T S : Type 0} where
  abbrev data_capacity_set : Option ℕ → SniffIo T S → SniffIo T S
  data_capacity_set none io = io
  data_capacity_set (some cap) io = with_channel_capacity cap io

  abbrev tap_capacity_set : Option ℕ → SniffIo T S → SniffIo T S
  tap_capacity_set none io = io
  tap_capacity_set (some cap) io = with_tap_channel_capacity cap io

  -- The stream that `with_options` wraps the transport in; of a TCP client it is the stream.
  unfoldable pub wrapped : T → ClientOptions S → SniffIo T S
  unfolding open_io with_channel_capacity with_tap_channel_capacity
  wrapped transport opts =
      tap_capacity_set opts.tap_channel_capacity
        (data_capacity_set opts.data_channel_capacity (open_io transport opts.tap opts.bus_timing))

  -- `RtuClient::with_timeout` and `AsciiClient::with_timeout`
  unfoldable pub client_with_timeout : T → ℕ → SerialClient T S
  unfolding open_io
  client_with_timeout transport timeout = record {
    stream = open_io transport none none;
    client_timeout = timeout;
    client_reconnect = none;
    client_timing = none;
    client_tap = none;
  }

-- `with_options` of the RTU and of the ASCII client: `with_timeout` wraps the stream once more.
unfoldable pub serial_with_options :
    {T S : Type 0} → T → ClientOptions S → SerialClient (SniffIo T S) S
unfolding wrapped client_with_timeout
serial_with_options transport opts =
    record (client_with_timeout (wrapped transport opts) opts.timeout) {
      client_timing = opts.bus_timing;
      client_tap = opts.tap;
    }
