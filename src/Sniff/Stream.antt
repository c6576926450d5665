-- ===== src/Sniff/Stream.antt =====
-- src/transport/sniff_io.rs: the reader, the forwarder and the consumer of one `SniffIo`, interleaved in
-- any order.
use oms_modbus.Base.{
  flatten, ℕ, ◌≡◌, Bool, true, false, Option, none, some, List, [], ◌∷◌, ◌++◌, Result, ok, err,
}
use oms_modbus.Sniff.Channel.{Chunk, Waker, IoError, set_capacity}
use oms_modbus.Sniff.Trace.{IsChannel}
use oms_modbus.Sniff.Parts.{
  new_sniffing, Poll, ready, pending, WireTap, Sniffing, active_reader, tap_forwarder,
  read_sniffing,
}

abbrev pub leftover_bytes : Option Chunk → List ℕ
leftover_bytes none = []
leftover_bytes (some chunk) = chunk

-- A step of the reader, the consumer, the forwarder, or the settings.
pub data Act : Type 0 where
  arrived : Result Chunk IoError → Act
  read : Waker → ℕ → Act
  forwarded : Waker → ℕ → Act
  resized : ℕ → ℕ → Act

-- A tap that keeps the chunks it sees.
unfoldable pub logging : WireTap (List Chunk)
logging = record {
  on_write = λ bytes now seen. seen;
  on_read = λ bytes now seen. seen ++ (bytes ∷ []);
  on_error = λ bytes cause now seen. seen;
}

abbrev pub chunk_arrived : Result Chunk IoError → List Chunk
chunk_arrived (ok []) = []
chunk_arrived (ok (b ∷ bs)) = (b ∷ bs) ∷ []
chunk_arrived (err e) = []

abbrev pub bytes_of : Poll (Result Chunk IoError) → List ℕ
bytes_of (ready (ok bytes)) = bytes
bytes_of (ready (err e)) = []
bytes_of pending = []

-- A `SniffIo` with the chunks that its tap has seen, those that arrived, and the bytes that were read.
pub record Session (T : Type 0) : Type 0 where
  pub io : Sniffing T
  pub seen : List Chunk
  pub arrived_chunks : List Chunk
  pub bytes : List ℕ

module _ {T : Type 0} where
  -- The reader stops when it has finished.
  unfoldable pub reader_act : Bool → Result Chunk IoError → Session T → Session T
  unfolding active_reader
  reader_act true result s = s
  reader_act false result s = record s {
    io = active_reader result s.io;
    arrived_chunks = s.arrived_chunks ++ chunk_arrived result;
  }

  unfoldable pub act : Act → Session T → Session T
  unfolding reader_act read_sniffing tap_forwarder logging
  act (arrived result) s = reader_act s.io.reader_finished result s
  act (read w room) s =
      let (result, io') = read_sniffing w room s.io.leftover s.io in
      record s { io = io'; bytes = s.bytes ++ bytes_of result }
  act (forwarded w now) s =
      let (more, channel, seen') = tap_forwarder logging w now s.io.tap_channel s.seen in
      record s { io = record (s.io) { tap_channel = channel }; seen = seen' }
  act (resized data_cap tap_cap) s = record s {
    io = record (s.io) {
      data_channel = set_capacity data_cap s.io.data_channel;
      tap_channel = set_capacity tap_cap s.io.tap_channel;
    };
  }

  unfoldable pub session : List Act → Session T → Session T
  unfolding act
  session [] s = s
  session (a ∷ acts) s = session acts (act a s)

  -- The channels are channels of what arrived; what was read and what is left over are the bytes of the
  -- chunks that the data channel delivered.
  pub record IsStream (s : Session T) : Type 0 where
    pub delivered : List Chunk
    pub data_side : IsChannel s.arrived_chunks delivered s.io.data_channel
    pub tap_side : IsChannel s.arrived_chunks s.seen s.io.tap_channel
    pub consumed : flatten delivered ≡ s.bytes ++ leftover_bytes s.io.leftover

-- A `SniffIo` that was just started.
unfoldable pub begin : {T : Type 0} → T → ℕ → ℕ → ℕ → Session T
unfolding new_sniffing
begin inner buf data_cap tap_cap = record {
  io = new_sniffing inner buf data_cap tap_cap;
  seen = [];
  arrived_chunks = [];
  bytes = [];
}
