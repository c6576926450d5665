-- ===== src/Sniff/Io.antt =====
-- src/transport/sniff_io.rs: `SniffIo` over a transport of type `T` with a tap of state `S`.
use oms_modbus.Base.{
  ◌^◌, ◌%◌, ℕ, ◌+◌, true, Option, none, some, if◌then◌else◌, take, Result, ok, err, ◌==◌,
}
use oms_modbus.Timing.{BusTiming, touch, wait_if_needed}
use oms_modbus.Sniff.Channel.{
  Chunk, Waker, IoError, set_capacity, close, default_data_channel_capacity,
  default_tap_channel_capacity,
}
use oms_modbus.Sniff.Parts.{
  new_sniffing, Poll, ready, pending, WireTap, AsyncStream, SniffState, passthrough, sniffing,
  on_sniffing, of_sniffing, read_state, read_touch, touched, write_state,
}

pub record SniffIo (T S : Type 0) : Type 0 where
  pub tap : Option S
  pub buf_size : ℕ
  pub data_capacity : ℕ
  pub tap_capacity : ℕ
  pub timing : Option BusTiming
  pub state : SniffState T

module _ {T S : Type 0} where
  unfoldable pub start_sniffing : T → S → Option BusTiming → ℕ → ℕ → ℕ → SniffIo T S
  unfolding new_sniffing
  start_sniffing inner tap timing buf_size data_capacity tap_capacity = record {
    tap = some tap;
    buf_size = buf_size;
    data_capacity = data_capacity;
    tap_capacity = tap_capacity;
    timing = timing;
    state = sniffing (new_sniffing inner buf_size data_capacity tap_capacity);
  }

  -- `replace_inner`, and `new` with the default sizes
  unfoldable pub wrap : T → Option S → Option BusTiming → ℕ → ℕ → ℕ → SniffIo T S
  unfolding start_sniffing
  wrap inner (some t) timing buf data_cap tap_cap =
      start_sniffing inner t timing buf data_cap tap_cap
  wrap inner none timing buf data_cap tap_cap = record {
    tap = none;
    buf_size = buf;
    data_capacity = data_cap;
    tap_capacity = tap_cap;
    timing = timing;
    state = passthrough inner;
  }

  unfoldable pub open_io : T → Option S → Option BusTiming → SniffIo T S
  unfolding wrap
  open_io inner tap timing =
      wrap inner tap timing 4096 default_data_channel_capacity default_tap_channel_capacity

  unfoldable pub replace_inner : T → SniffIo T S → SniffIo T S
  unfolding wrap
  replace_inner inner io = wrap inner io.tap io.timing io.buf_size io.data_capacity io.tap_capacity

  unfoldable pub with_buf_size : ℕ → SniffIo T S → SniffIo T S
  with_buf_size size io = record io { buf_size = size }

  unfoldable pub with_channel_capacity : ℕ → SniffIo T S → SniffIo T S
  unfolding set_capacity
  with_channel_capacity bytes io = record io {
    data_capacity = bytes;
    state =
        on_sniffing (λ s. record s { data_channel = set_capacity bytes s.data_channel }) io.state;
  }

  unfoldable pub with_tap_channel_capacity : ℕ → SniffIo T S → SniffIo T S
  unfolding set_capacity
  with_tap_channel_capacity bytes io = record io {
    tap_capacity = bytes;
    state = on_sniffing (λ s. record s { tap_channel = set_capacity bytes s.tap_channel }) io.state;
  }

  abbrev pub data_dropped_chunks : SniffIo T S → ℕ
  data_dropped_chunks io = of_sniffing (λ s. s.data_channel.dropped_chunks) io.state

  abbrev pub data_dropped_bytes : SniffIo T S → ℕ
  data_dropped_bytes io = of_sniffing (λ s. s.data_channel.dropped_bytes) io.state

  abbrev pub tap_dropped_chunks : SniffIo T S → ℕ
  tap_dropped_chunks io = of_sniffing (λ s. s.tap_channel.dropped_chunks) io.state

  abbrev pub tap_dropped_bytes : SniffIo T S → ℕ
  tap_dropped_bytes io = of_sniffing (λ s. s.tap_channel.dropped_bytes) io.state

  abbrev pub total_dropped_bytes : SniffIo T S → ℕ
  total_dropped_bytes io = (data_dropped_bytes io + tap_dropped_bytes io) % 2 ^ 64

  abbrev pub channel_capacity : SniffIo T S → ℕ
  channel_capacity io = of_sniffing (λ s. s.data_channel.capacity) io.state

  -- `prepare_send`: the microseconds to sleep.
  unfoldable pub prepare_send : ℕ → SniffIo T S → ℕ
  unfolding wait_if_needed
  prepare_send now io = elim io.timing [ some t ↦ wait_if_needed now t | none ↦ 0 ]

  -- `drop`: both channels are closed; the tasks are aborted.
  unfoldable pub drop_io : SniffIo T S → SniffIo T S
  unfolding close
  drop_io io = record io {
    state =
        on_sniffing
          (λ s. record s {
            data_channel = (close s.data_channel).0;
            tap_channel = (close s.tap_channel).0;
            reader_finished = true;
          })
          io.state;
  }

  unfoldable pub poll_read :
      AsyncStream T
      → Waker
      → ℕ
      → ℕ
      → Chunk
      → SniffIo T S
      → Poll (Result Chunk IoError) × SniffIo T S
  unfolding read_state read_touch
  poll_read ops w now room filled io =
      let (result, state') = read_state ops w room io.state in
      (result, record io { timing = read_touch now filled result io.timing; state = state' })

  -- The end of `poll_write`: bytes that were written go to the tap, and are bus activity.
  unfoldable pub write_done :
      WireTap S → ℕ → Chunk → Poll (Result ℕ IoError) → SniffIo T S → SniffIo T S
  unfolding touch
  write_done tap_ops now buf (ready (ok n)) io = if n == 0 then io else record io {
    tap = elim io.tap [ some t ↦ some (tap_ops.on_write (take n buf) now t) | none ↦ none ];
    timing = touched now io.timing;
  }
  write_done tap_ops now buf (ready (err e)) io = io
  write_done tap_ops now buf pending io = io

  unfoldable pub poll_write :
      AsyncStream T → WireTap S → ℕ → Chunk → SniffIo T S → Poll (Result ℕ IoError) × SniffIo T S
  unfolding write_state write_done
  poll_write ops tap_ops now buf io =
      let (result, state') = write_state ops buf io.state in
      (result, write_done tap_ops now buf result (record io { state = state' }))
