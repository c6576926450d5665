-- ===== src/Capture/Runs.antt =====
-- Runs of src/capture.rs.
use oms_modbus.Base.{◌≡◌, refl, List, [], ◌∷◌}
use oms_modbus.Monitor.{new, drain, snapshot}
use oms_modbus.Capture.{
  TapCall, on_write, on_read, on_error, raw_rx, raw_error, unbounded, with_store, new_bounded,
  stored, bus_drain, bus_call, ring_call, calls, packet_call, reset_stats, zeroed, count_call,
}
use oms_modbus.Capture.Laws.{
  bus_capture-ring_buffer, reset_stats-calls, IsCount, writes, reads, failures,
}

abbrev three : List TapCall
three = on_write (1 ∷ 3 ∷ []) 10 ∷ on_read (1 ∷ []) 12 ∷ on_error [] "timed out" 15 ∷ []

keeps_two :
    stored (calls bus_call three (new_bounded 2)).store
    ≡ record { timestamp_us = 12; packet = raw_rx (1 ∷ []) }
      ∷ record { timestamp_us = 15; packet = raw_error [] "timed out" }
      ∷ []
unfolding stored calls bus_call new_bounded
keeps_two = refl

keeps_all :
    stored (calls bus_call three (with_store (unbounded []))).store ≡ calls packet_call three []
unfolding stored calls bus_call packet_call with_store
keeps_all = refl

bus_capture-ring_buffer_example :
    let capture = calls bus_call three (new_bounded 2) in
    let ring = calls ring_call three (new 2) in
    (stored capture.store ≡ snapshot ring)
    × ((bus_drain capture).0 ≡ (drain ring).0)
    × (stored (bus_drain capture).1.store ≡ snapshot (drain ring).1)
    × (capture.dropped ≡ ring.dropped)
bus_capture-ring_buffer_example = bus_capture-ring_buffer 2 three

reset_stats-calls_example :
    ((calls bus_call three (reset_stats (new_bounded 2))).stats ≡ calls count_call three zeroed)
    × IsCount (writes three) (reads three) (failures three) (calls count_call three zeroed)
reset_stats-calls_example = reset_stats-calls three (new_bounded 2)
