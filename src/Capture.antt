-- ===== src/Capture.antt =====
-- src/capture.rs, src/intercept.rs: the captures of traffic. A capture is fed by the calls of `WireTap`; a
-- lock is taken for each operation as a whole, and counters are 64 bits wide.
mod Runs
pub mod Laws
use oms_modbus.Base.{
  ℕ, ◌+◌, ◌^◌, ◌%◌, max, Bool, true, false, List, [], ◌∷◌, ◌++◌, String, if◌then◌else◌, ltb, length,
  drop, ◌==◌,
}
use oms_modbus.Monitor.{RingBufferCapture, add_record}

pub data PacketData : Type 0 where
  raw_tx : List ℕ → PacketData
  raw_rx : List ℕ → PacketData
  raw_error : List ℕ → String → PacketData

pub record PacketRecord : Type 0 where
  pub timestamp_us : ℕ
  pub packet : PacketData

-- The calls of `WireTap`.
pub data TapCall : Type 0 where
  on_write : List ℕ → ℕ → TapCall
  on_read : List ℕ → ℕ → TapCall
  on_error : List ℕ → String → ℕ → TapCall

-- What the captures of `BusCapture`, `PacketCapture` and `RingBufferCapture` record of a call.
unfoldable pub record_of : TapCall → PacketRecord
record_of (on_write bytes ts) = record { timestamp_us = ts; packet = raw_tx bytes }
record_of (on_read bytes ts) = record { timestamp_us = ts; packet = raw_rx bytes }
record_of (on_error bytes error ts) = record { timestamp_us = ts; packet = raw_error bytes error }

abbrev pub bump : ℕ → ℕ
bump n = (n + 1) % 2 ^ 64

-- `TrafficStats`
pub record TrafficStats : Type 0 where
  pub requests : ℕ
  pub responses : ℕ
  pub errors : ℕ

-- `TrafficStats::new` and `TrafficStats::reset`
unfoldable pub zeroed : TrafficStats
zeroed = record { requests = 0; responses = 0; errors = 0 }

-- `WireTap for TrafficStats`
unfoldable pub count_call : TapCall → TrafficStats → TrafficStats
count_call (on_write bytes ts) s = record s { requests = bump s.requests }
count_call (on_read bytes ts) s = record s { responses = bump s.responses }
count_call (on_error bytes error ts) s = record s { errors = bump s.errors }

-- `PacketCapture` and its `WireTap`: all records.
unfoldable pub packet_call : TapCall → List PacketRecord → List PacketRecord
unfolding record_of
packet_call call records = records ++ (record_of call ∷ [])

-- `Store` of src/capture.rs
pub data Store : Type 0 where
  stats_only : Store
  unbounded : List PacketRecord → Store
  bounded : List PacketRecord → ℕ → Store

pub record BusCapture : Type 0 where
  pub stats : TrafficStats
  pub dropped : ℕ
  pub store : Store

-- `stats_only`, `unbounded` and `bounded` make a capture with such a store.
unfoldable pub with_store : Store → BusCapture
unfolding zeroed
with_store store = record { stats = zeroed; dropped = 0; store = store }

unfoldable pub new_bounded : ℕ → BusCapture
unfolding with_store
new_bounded capacity = with_store (bounded [] (max capacity 1))

unfoldable pub reset_stats : BusCapture → BusCapture
unfolding zeroed
reset_stats capture = record capture { stats = zeroed; dropped = 0 }

-- `snapshot` by the store
unfoldable pub stored : Store → List PacketRecord
stored stats_only = []
stored (unbounded records) = records
stored (bounded buf cap) = buf

abbrev pub bus_snapshot : BusCapture → List PacketRecord
unfolding stored
bus_snapshot capture = stored capture.store

-- `len` by the store
abbrev pub bus_len : BusCapture → ℕ
unfolding stored
bus_len capture = length (stored capture.store)

abbrev pub is_empty : BusCapture → Bool
is_empty capture = bus_len capture == 0

unfoldable pub emptied : Store → Store
emptied stats_only = stats_only
emptied (unbounded records) = unbounded []
emptied (bounded buf cap) = bounded [] cap

-- `drain`: the records, and the capture without them.
unfoldable pub bus_drain : BusCapture → List PacketRecord × BusCapture
unfolding stored emptied
bus_drain capture = (stored capture.store, record capture { store = emptied capture.store })

-- `record`, by the store
unfoldable pub store_record : Store → PacketRecord → BusCapture → BusCapture
store_record stats_only x capture = capture
store_record (unbounded records) x capture = record capture {
  store = unbounded (records ++ (x ∷ []));
}
store_record (bounded buf cap) x capture =
    if ltb (length buf) cap
    then record capture { store = bounded (buf ++ (x ∷ [])) cap }
    else record capture {
      store = bounded (drop 1 buf ++ (x ∷ [])) cap;
      dropped = bump capture.dropped;
    }

-- `WireTap for BusCapture`
unfoldable pub bus_call : TapCall → BusCapture → BusCapture
unfolding count_call store_record record_of
bus_call call capture =
    store_record capture.store (record_of call)
      (record capture { stats = count_call call capture.stats })

-- `WireTap for RingBufferCapture`
unfoldable pub ring_call : TapCall → RingBufferCapture PacketRecord → RingBufferCapture PacketRecord
unfolding record_of add_record
ring_call call capture = add_record capture (record_of call)

-- Calls in the order in which they are made.
unfoldable pub calls {ℓ} : {C : Type ℓ} → (TapCall → C → C) → List TapCall → C → C
calls f [] capture = capture
calls f (call ∷ rest) capture = calls f rest (f call capture)
