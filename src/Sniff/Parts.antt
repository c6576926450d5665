-- ===== src/Sniff/Parts.antt =====
-- src/transport/sniff_io.rs and src/wire_tap.rs: the parts of a `SniffIo` in its `Sniffing` state over a
-- transport of type `T`, which is a parameter, with a tap of state `S`. A background task is its next
-- step: the reader takes what one read of the transport returned, the forwarder one chunk.
use oms_modbus.Base.{
  ℕ, min, Bool, true, false, Option, none, some, [], ◌∷◌, ◌++◌, if◌then◌else◌, ltb, length, take,
  drop, Result, ok, err, ◌==◌, String,
}
use oms_modbus.Timing.{BusTiming, touch}
use oms_modbus.Sniff.Channel.{
  Chunk, Waker, IoError, unexpected_eof, broken_pipe, SniffChannel, new, send, send_error,
  is_closed, poll_recv, recv,
}

-- `std::task::Poll`
pub data Poll (A : Type 0) : Type 0 where
  ready : A → Poll A
  pending : Poll A

-- `WireTap`: what an observer does with the bytes and the time of a write, a read and a read error.
pub record WireTap (S : Type 0) : Type 0 where
  pub on_write : Chunk → ℕ → S → S
  pub on_read : Chunk → ℕ → S → S
  pub on_error : Chunk → String → ℕ → S → S

-- The transport: a read into a given room, and a write.
pub record AsyncStream (T : Type 0) : Type 0 where
  pub poll_read : ℕ → T → Poll (Result Chunk IoError) × T
  pub poll_write : Chunk → T → Poll (Result ℕ IoError) × T

-- The `Sniffing` state; `reader_buf_size` is the buffer size that its background reader was started with.
pub record Sniffing (T : Type 0) : Type 0 where
  pub data_channel : SniffChannel
  pub tap_channel : SniffChannel
  pub writer : T
  pub reader_buf_size : ℕ
  pub reader_finished : Bool
  pub leftover : Option Chunk

-- What `start_sniffing` makes: two empty channels, and a reader that has just started.
unfoldable pub new_sniffing : {T : Type 0} → T → ℕ → ℕ → ℕ → Sniffing T
unfolding new
new_sniffing inner buf_size data_capacity tap_capacity = record {
  data_channel = new data_capacity;
  tap_channel = new tap_capacity;
  writer = inner;
  reader_buf_size = buf_size;
  reader_finished = false;
  leftover = none;
}

pub data SniffState (T : Type 0) : Type 0 where
  passthrough : T → SniffState T
  sniffing : Sniffing T → SniffState T

abbrev pub transport_closed : IoError
transport_closed = record { kind = unexpected_eof; message = "transport closed" }

abbrev pub reader_terminated : IoError
reader_terminated = record { kind = broken_pipe; message = "background reader terminated" }

-- What `poll_read` puts in the buffer of room `n`, and what it keeps of the chunk.
unfoldable pub put : ℕ → Chunk → Chunk × Option Chunk
put room chunk =
    let n = min (length chunk) room in
    (take n chunk, if ltb n (length chunk) then some (drop n chunk) else none)

abbrev pub touched : ℕ → Option BusTiming → Option BusTiming
touched now none = none
touched now (some t) = some (touch now t)

-- The end of `poll_read`: bus activity is noted when the buffer, `filled` before the call, holds bytes.
unfoldable pub read_touch :
    ℕ → Chunk → Poll (Result Chunk IoError) → Option BusTiming → Option BusTiming
unfolding touch
read_touch now filled (ready (ok read)) timing =
    if length (filled ++ read) == 0 then timing else touched now timing
read_touch now filled (ready (err e)) timing = timing
read_touch now filled pending timing = timing

module _ {S : Type 0} where
  -- What `tap_forwarder` does with what it received; false when its loop ends.
  unfoldable pub forward :
      WireTap S → ℕ → Option (Option Chunk) → SniffChannel → S → Bool × SniffChannel × S
  forward ops now (some (some chunk)) channel tap = (true, channel, ops.on_read chunk now tap)
  forward ops now (some none) channel tap = (false, channel, tap)
  forward ops now none channel tap = (true, channel, tap)

  -- One round of `tap_forwarder` at the time `now`
  unfoldable pub tap_forwarder : WireTap S → Waker → ℕ → SniffChannel → S → Bool × SniffChannel × S
  unfolding recv forward
  tap_forwarder ops w now channel tap =
      let (received, channel') = recv w channel in forward ops now received channel' tap

module _ {T : Type 0} where
  abbrev pub on_sniffing : (Sniffing T → Sniffing T) → SniffState T → SniffState T
  on_sniffing f (passthrough inner) = passthrough inner
  on_sniffing f (sniffing s) = sniffing (f s)

  abbrev pub of_sniffing : (Sniffing T → ℕ) → SniffState T → ℕ
  of_sniffing f (passthrough inner) = 0
  of_sniffing f (sniffing s) = f s

  -- One round of `active_reader`: what its read of the transport returned; an empty chunk is the end.
  unfoldable pub active_reader : Result Chunk IoError → Sniffing T → Sniffing T
  unfolding send send_error
  active_reader (ok []) s = record s {
    data_channel = (send_error transport_closed s.data_channel).0;
    reader_finished = true;
  }
  active_reader (ok (b ∷ bs)) s =
      let sent = (send (b ∷ bs) s.data_channel).0 in
      record s {
        data_channel = sent;
        tap_channel = (send (b ∷ bs) s.tap_channel).0;
        reader_finished = is_closed sent;
      }
  active_reader (err e) s = record s {
    data_channel = (send_error e s.data_channel).0;
    reader_finished = true;
  }

  -- `poll_read` without a leftover: what the channel holds.
  unfoldable pub read_channel :
      ℕ
      → Result (Option Chunk) IoError × SniffChannel
      → Sniffing T
      → Poll (Result Chunk IoError) × Sniffing T
  unfolding put
  read_channel room (ok (some chunk), c) s =
      let (read, rest) = put room chunk in
      (ready (ok read), record s { data_channel = c; leftover = rest })
  read_channel room (ok none, c) s = (
    if s.reader_finished then ready (err reader_terminated) else pending,
    record s { data_channel = c },
  )
  read_channel room (err e, c) s = (ready (err e), record s { data_channel = c })

  -- `poll_read` of the `Sniffing` state, by its leftover
  unfoldable pub read_sniffing :
      Waker → ℕ → Option Chunk → Sniffing T → Poll (Result Chunk IoError) × Sniffing T
  unfolding read_channel put poll_recv
  read_sniffing w room (some p) s =
      let (read, rest) = put room p in (ready (ok read), record s { leftover = rest })
  read_sniffing w room none s = read_channel room (poll_recv w s.data_channel) s

  unfoldable pub read_state :
      AsyncStream T → Waker → ℕ → SniffState T → Poll (Result Chunk IoError) × SniffState T
  unfolding read_sniffing
  read_state ops w room (passthrough inner) =
      let (result, inner') = ops.poll_read room inner in (result, passthrough inner')
  read_state ops w room (sniffing s) =
      let (result, s') = read_sniffing w room s.leftover s in (result, sniffing s')

  unfoldable pub write_state :
      AsyncStream T → Chunk → SniffState T → Poll (Result ℕ IoError) × SniffState T
  write_state ops buf (passthrough inner) =
      let (result, inner') = ops.poll_write buf inner in (result, passthrough inner')
  write_state ops buf (sniffing s) =
      let (result, writer') = ops.poll_write buf s.writer in
      (result, sniffing (record s { writer = writer' }))
