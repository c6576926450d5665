-- ===== src/Sniff/Trace.antt =====
-- src/transport/sniff_io.rs: a channel with the history of what its two ends do, and the invariant of the two.
use oms_modbus.Base.{
  ℕ, ◌≤◌, ◌≡◌, false, Option, none, some, List, [], ◌∷◌, ◌++◌, length, Result, ok, err,
}
use oms_modbus.Sniff.Channel.{
  Chunk, Waker, IoError, SniffChannel, new, send, send_error, set_capacity, close, poll_recv,
}
use oms_modbus.Sniff.Merge.{Merge}
use oms_modbus.Sniff.Bounds.{size, IsCounter}

-- What the two ends do to a channel.
pub data ChannelEvent : Type 0 where
  sent : Chunk → ChannelEvent
  failed : IoError → ChannelEvent
  resized : ℕ → ChannelEvent
  shut : ChannelEvent
  polled : Waker → ChannelEvent

-- A channel with all chunks that were sent and delivered, and the wakers that were woken.
pub record Run : Type 0 where
  pub channel : SniffChannel
  pub sent_chunks : List Chunk
  pub delivered : List Chunk
  pub woken : List Waker

abbrev pub woken_by : Option Waker → List Waker
woken_by none = []
woken_by (some w) = w ∷ []

abbrev pub chunk_of : Result (Option Chunk) IoError → List Chunk
chunk_of (ok (some chunk)) = chunk ∷ []
chunk_of (ok none) = []
chunk_of (err e) = []

unfoldable pub step : ChannelEvent → Run → Run
step (sent chunk) r =
    let (c, w) = send chunk r.channel in
    record r {
      channel = c;
      sent_chunks = r.sent_chunks ++ (chunk ∷ []);
      woken = r.woken ++ woken_by w;
    }
step (failed e) r =
    let (c, w) = send_error e r.channel in record r { channel = c; woken = r.woken ++ woken_by w }
step (resized n) r = record r { channel = set_capacity n r.channel }
step shut r =
    let (c, w) = close r.channel in record r { channel = c; woken = r.woken ++ woken_by w }
step (polled w) r =
    let (result, c) = poll_recv w r.channel in
    record r { channel = c; delivered = r.delivered ++ chunk_of result }

unfoldable pub run : List ChannelEvent → Run → Run
run [] r = r
run (e ∷ es) r = run es (step e r)

unfoldable pub start : ℕ → Run
unfolding new
start capacity = record { channel = new capacity; sent_chunks = []; delivered = []; woken = [] }

-- The consumer has nothing to see.
abbrev pub IsIdle : SniffChannel → Type 0
IsIdle c = (c.queue ≡ []) × (c.error ≡ none) × (c.closed ≡ false)

-- Every chunk that was sent was delivered or dropped, in order, or is queued, in order; the drop counters
-- are those of the dropped ones, and `total_bytes` is the size of the queue, within the capacity. While a
-- consumer waits, there is nothing to tell it.
pub record IsChannel (sent_chunks delivered : List Chunk) (c : SniffChannel) : Type 0 where
  pub lost : List Chunk
  pub gone : List Chunk
  pub order : Merge delivered lost gone
  pub whole : sent_chunks ≡ gone ++ c.queue
  pub counted : c.total_bytes ≡ size c.queue
  pub bounded : c.total_bytes ≤ c.capacity
  pub counter : IsCounter (length lost) (size lost) c
  pub parked : (w : Waker) → c.waker ≡ some w → IsIdle c
