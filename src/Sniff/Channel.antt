-- ===== src/Sniff/Channel.antt =====
-- src/transport/sniff_io.rs: the bounded channel of chunks, which evicts the oldest ones. Each operation
-- holds the lock throughout, so it is one step. A waker is the number of its task; an operation that wakes
-- a task returns its waker. `total_bytes` counts memory in use and does not overflow.
use oms_modbus.Base.{
  ℕ, ◌+◌, ◌-◌, ◌^◌, ◌%◌, Bool, true, false, Option, none, some, List, [], ◌∷◌, ◌++◌, String,
  if◌then◌else◌, ltb, length, Result, ok, err,
}

-- `Bytes`
abbrev pub Chunk : Type 0
Chunk = List ℕ

abbrev pub Waker : Type 0
Waker = ℕ

-- `io::ErrorKind`: the kinds that the code makes itself, and those of the transport.
pub data ErrorKind : Type 0 where
  unexpected_eof broken_pipe : ErrorKind
  transport_kind : ℕ → ErrorKind

-- `io::Error`
pub record IoError : Type 0 where
  pub kind : ErrorKind
  pub message : String

-- `SniffChannelInner`
pub record SniffChannel : Type 0 where
  pub queue : List Chunk
  pub total_bytes : ℕ
  pub capacity : ℕ
  pub dropped_chunks : ℕ  -- u64
  pub dropped_bytes : ℕ  -- u64
  pub closed : Bool
  pub error : Option IoError
  pub waker : Option Waker

abbrev pub default_data_channel_capacity : ℕ
default_data_channel_capacity = 1048576

abbrev pub default_tap_channel_capacity : ℕ
default_tap_channel_capacity = 262144

unfoldable pub new : ℕ → SniffChannel
new capacity = record {
  queue = [];
  total_bytes = 0;
  capacity = capacity;
  dropped_chunks = 0;
  dropped_bytes = 0;
  closed = false;
  error = none;
  waker = none;
}

-- `dropped_chunks += 1; dropped_bytes += lost.len()`
unfoldable pub count_dropped : Chunk → SniffChannel → SniffChannel
count_dropped lost c = record c {
  dropped_chunks = (c.dropped_chunks + 1) % 2 ^ 64;
  dropped_bytes = (c.dropped_bytes + length lost) % 2 ^ 64;
}

-- The loops of `send` and `set_capacity` over the queue of the channel: while `extra` more bytes exceed
-- the capacity, the oldest chunk goes. False when the last one is gone and they still do.
unfoldable pub make_room : ℕ → List Chunk → SniffChannel → Bool × SniffChannel
unfolding count_dropped
make_room extra [] c =
    if ltb c.capacity (c.total_bytes + extra)
    then (false, record c { queue = [] })
    else (true, record c { queue = [] })
make_room extra (old ∷ rest) c =
    let evicted =
      make_room extra rest
        (count_dropped old (record c { queue = rest; total_bytes = c.total_bytes - length old })) in
    if ltb c.capacity (c.total_bytes + extra)
    then evicted
    else (true, record c { queue = old ∷ rest })

-- `if let Some(w) = inner.waker.take() { w.wake(); }`
unfoldable pub wake : SniffChannel → SniffChannel × Option Waker
wake c = (record c { waker = none }, c.waker)

-- The end of `send`: the chunk is queued when there is room, and dropped otherwise.
unfoldable pub push : Chunk → Bool → SniffChannel → SniffChannel × Option Waker
unfolding count_dropped wake
push chunk true c =
    wake (record c { queue = c.queue ++ (chunk ∷ []); total_bytes = c.total_bytes + length chunk })
push chunk false c = (count_dropped chunk c, none)

unfoldable pub send : Chunk → SniffChannel → SniffChannel × Option Waker
unfolding make_room push
send chunk c = let (room, c') = make_room (length chunk) c.queue c in push chunk room c'

unfoldable pub send_error : IoError → SniffChannel → SniffChannel × Option Waker
unfolding wake
send_error e c = wake (record c { error = some e })

unfoldable pub set_capacity : ℕ → SniffChannel → SniffChannel
unfolding make_room
set_capacity new_cap c = (make_room 0 c.queue (record c { capacity = new_cap })).1

abbrev pub is_closed : SniffChannel → Bool
is_closed c = c.closed

unfoldable pub close : SniffChannel → SniffChannel × Option Waker
unfolding wake
close c = wake (record c { closed = true })

unfoldable pub eof : IoError
eof = record { kind = unexpected_eof; message = "channel closed" }

-- `poll_recv` when the queue is empty
unfoldable pub poll_empty : Waker → SniffChannel → Result (Option Chunk) IoError × SniffChannel
unfolding eof
poll_empty w c = elim c.error [
  | some e ↦ (err e, record c { error = none })
  | none ↦ if c.closed then (err eof, c) else (ok none, record c { waker = some w })
]

-- `poll_recv` by its first test: the queue.
unfoldable pub poll_queue :
    Waker → List Chunk → SniffChannel → Result (Option Chunk) IoError × SniffChannel
unfolding poll_empty
poll_queue w [] c = poll_empty w c
poll_queue w (chunk ∷ rest) c =
    (ok (some chunk), record c { queue = rest; total_bytes = c.total_bytes - length chunk })

unfoldable pub poll_recv : Waker → SniffChannel → Result (Option Chunk) IoError × SniffChannel
unfolding poll_queue
poll_recv w c = poll_queue w c.queue c

-- `recv`: one poll of the forwarder's future; `none` within `some` is the end of the stream, and `none`
-- is pending.
unfoldable pub recv_outcome : Result (Option Chunk) IoError → Option (Option Chunk)
recv_outcome (ok (some chunk)) = some (some chunk)
recv_outcome (ok none) = none
recv_outcome (err e) = some none

unfoldable pub recv : Waker → SniffChannel → Option (Option Chunk) × SniffChannel
unfolding poll_recv recv_outcome
recv w c = let (polled, c') = poll_recv w c in (recv_outcome polled, c')
