-- ===== src/Capture/Laws.antt =====
-- src/capture.rs and src/monitor/ring_buffer.rs: the bounded capture is the ring buffer, and the counters
-- count the calls.
use oms_modbus.Base.{
  ℕ, suc, ◌+◌, ◌^◌, ◌%◌, ◌≡◌, refl, ap, ◌∙◌, false, List, [], ◌∷◌, ltb, length, arith, Bool-cases,
  inl, inr,
}
use oms_modbus.Monitor.{RingBufferCapture, new, add_record, drain, snapshot}
use oms_modbus.Capture.{
  TapCall, on_write, on_read, on_error, PacketRecord, record_of, TrafficStats, zeroed, reset_stats,
  count_call, Store, stats_only, unbounded, bounded, BusCapture, with_store, new_bounded, stored,
  emptied, bus_drain, store_record, bus_call, ring_call, calls, bump,
}

-- A bounded bus capture and a ring buffer with the same records, capacity and dropped counter.
pub record IsSame (capture : BusCapture) (ring : RingBufferCapture PacketRecord) : Type 0 where
  pub same : capture.store ≡ bounded ring.records ring.capacity
  pub lost : capture.dropped ≡ ring.dropped
  pub limited : ring.is_unbounded ≡ false

bus_call-IsSame :
    (call : TapCall) (capture : BusCapture) (ring : RingBufferCapture PacketRecord)
    → IsSame capture ring
    → IsSame (bus_call call capture) (ring_call call ring)
unfolding bus_call ring_call store_record add_record count_call
bus_call-IsSame call capture ring h = elim (Bool-cases (ltb (length ring.records) ring.capacity)) [
  | inl space ↦
      rw (h.same, h.limited, space, store_record)
        (record { same = refl; lost = h.lost; limited = refl })
  | inr full ↦
      rw (h.same, h.limited, full, store_record)
        (record { same = refl; lost = ap bump h.lost; limited = refl })
]

calls-IsSame :
    (given : List TapCall) (capture : BusCapture) (ring : RingBufferCapture PacketRecord)
    → IsSame capture ring
    → IsSame (calls bus_call given capture) (calls ring_call given ring)
unfolding calls
calls-IsSame [] capture ring h = h
calls-IsSame (call ∷ rest) capture ring h =
    calls-IsSame rest (bus_call call capture) (ring_call call ring)
      (bus_call-IsSame call capture ring h)

new-IsSame : (n : ℕ) → IsSame (new_bounded n) (new n)
unfolding new_bounded with_store new
new-IsSame n = record { same = refl; lost = refl; limited = refl }

-- After the same calls, from new ones of the same capacity, a bounded `BusCapture` and a
-- `RingBufferCapture` hold the same records, give the same records when they are drained and are then
-- empty alike, and have dropped as many.
pub bus_capture-ring_buffer :
    (n : ℕ) (given : List TapCall)
    → let capture = calls bus_call given (new_bounded n) in
      let ring = calls ring_call given (new n) in
      (stored capture.store ≡ snapshot ring)
      × ((bus_drain capture).0 ≡ (drain ring).0)
      × (stored (bus_drain capture).1.store ≡ snapshot (drain ring).1)
      × (capture.dropped ≡ ring.dropped)
unfolding bus_drain drain stored emptied
bus_capture-ring_buffer n given =
    let h = calls-IsSame given (new_bounded n) (new n) (new-IsSame n) in
    rw h.same (refl, refl, refl, h.lost)

-- How many calls are writes, reads and errors.
abbrev pub writes : List TapCall → ℕ
writes [] = 0
writes (on_write bytes ts ∷ rest) = suc (writes rest)
writes (on_read bytes ts ∷ rest) = writes rest
writes (on_error bytes error ts ∷ rest) = writes rest

abbrev pub reads : List TapCall → ℕ
reads [] = 0
reads (on_write bytes ts ∷ rest) = reads rest
reads (on_read bytes ts ∷ rest) = suc (reads rest)
reads (on_error bytes error ts ∷ rest) = reads rest

abbrev pub failures : List TapCall → ℕ
failures [] = 0
failures (on_write bytes ts ∷ rest) = failures rest
failures (on_read bytes ts ∷ rest) = failures rest
failures (on_error bytes error ts ∷ rest) = suc (failures rest)

store_record-stats :
    (store : Store) (x : PacketRecord) (capture : BusCapture)
    → (store_record store x capture).stats ≡ capture.stats
unfolding store_record
store_record-stats stats_only x capture = refl
store_record-stats (unbounded records) x capture = refl
store_record-stats (bounded buf cap) x capture = elim (Bool-cases (ltb (length buf) cap)) [
  | inl e ↦ rw e refl
  | inr e ↦ rw e refl
]

bus_call-stats :
    (call : TapCall) (capture : BusCapture)
    → (bus_call call capture).stats ≡ count_call call capture.stats
unfolding bus_call
bus_call-stats call capture = store_record-stats capture.store (record_of call) _

-- Counters that have counted `w`, `r` and `e` calls, in 64 bits.
pub record IsCount (w r e : ℕ) (s : TrafficStats) : Type 0 where
  pub wrote : s.requests ≡ w % 2 ^ 64
  pub got : s.responses ≡ r % 2 ^ 64
  pub failed : s.errors ≡ e % 2 ^ 64

IsCount-again :
    (w r e w' r' e' : ℕ) (s : TrafficStats)
    → IsCount w r e s
    → w ≡ w'
    → r ≡ r'
    → e ≡ e'
    → IsCount w' r' e' s
IsCount-again w r e w' r' e' s h a b c = record {
  wrote = omega (arith, h.wrote);
  got = omega (arith, h.got);
  failed = omega (arith, h.failed);
}

calls-IsCount :
    (given : List TapCall) (w r e : ℕ) (s : TrafficStats)
    → IsCount w r e s
    → IsCount (w + writes given) (r + reads given) (e + failures given) (calls count_call given s)
unfolding calls count_call
calls-IsCount [] w r e s h = IsCount-again w r e _ _ _ s h (omega arith) (omega arith) (omega arith)
calls-IsCount (on_write bytes ts ∷ rest) w r e s h =
    IsCount-again _ _ _ _ _ _ _
      (calls-IsCount rest (w + 1) r e _
        (record { wrote = omega (arith, h.wrote); got = h.got; failed = h.failed }))
      (omega arith) refl refl
calls-IsCount (on_read bytes ts ∷ rest) w r e s h =
    IsCount-again _ _ _ _ _ _ _
      (calls-IsCount rest w (r + 1) e _
        (record { wrote = h.wrote; got = omega (arith, h.got); failed = h.failed }))
      refl (omega arith) refl
calls-IsCount (on_error bytes error ts ∷ rest) w r e s h =
    IsCount-again _ _ _ _ _ _ _
      (calls-IsCount rest w r (e + 1) _
        (record { wrote = h.wrote; got = h.got; failed = omega (arith, h.failed) }))
      refl refl (omega arith)

calls-stats :
    (given : List TapCall) (capture : BusCapture)
    → (calls bus_call given capture).stats ≡ calls count_call given capture.stats
unfolding calls
calls-stats [] capture = refl
calls-stats (call ∷ rest) capture =
    calls-stats rest (bus_call call capture)
    ∙ ap (λ s. calls count_call rest s) (bus_call-stats call capture)

-- With every store, new or reset, the counters of a `BusCapture` are those of `TrafficStats` after the
-- same calls: the numbers of writes, reads and errors, in 64 bits.
pub reset_stats-calls :
    (given : List TapCall) (capture : BusCapture)
    → ((calls bus_call given (reset_stats capture)).stats ≡ calls count_call given zeroed)
      × IsCount (writes given) (reads given) (failures given) (calls count_call given zeroed)
unfolding reset_stats zeroed
reset_stats-calls given capture = (
  calls-stats given (reset_stats capture),
  IsCount-again _ _ _ _ _ _ _
      (calls-IsCount given 0 0 0 zeroed (record { wrote = refl; got = refl; failed = refl }))
      (omega arith) (omega arith) (omega arith),
)
