-- ===== src/Rtu/Runs.antt =====
-- src/transport/rtu.rs: the RTU theorems at a small store and at a frame from the protocol's
-- documents.
use oms_modbus.Base.{
  flatten, map, ◌++◌, ℕ, ◌≡◌, refl, arith, true, List, [], ◌∷◌, ok, none, some, length,
}
use oms_modbus.Frame.Types.{Request, Response, is_known_function_code}
use oms_modbus.Frame.Wire.{response_layout}
use oms_modbus.Frame.Encode.{u16_bytes}
use oms_modbus.Codec.{
  encode_rtu_frame, calculate_crc, crc_from, crc_byte, crc_table, crc_entries, crc_rounds, crc_step,
}
use oms_modbus.Store.Memory.{SlaveStore, call}
use oms_modbus.Store.Model.{change}
use oms_modbus.Store.Service.{IsStore, view}
use oms_modbus.Store.Runs.{small_store, small_store-IsStore}
use oms_modbus.Server.Laws.{store_service}
use oms_modbus.Rtu.{
  RtuServer, received, silence, serve_event, serve_events, rtu_request, rtu_response,
  try_parse_server_rtu, crc_received, without_crc,
}
use oms_modbus.Rtu.Exchange.{rtu_exchange}
use oms_modbus.Rtu.Serve.{IsServing, serve_events-IsServing, serve_events-silence}
use oms_modbus.Receive.{some_bytes, elapsed, stale, quiet, drain_stale_data, drain_loop}
use oms_modbus.Rtu.Call.{rtu_send_recv, rtu_send_recv-serve_event}
use oms_modbus.Store.Answers.{answer}
use oms_modbus.Rtu.Sound.{try_parse_server_rtu_sound}

rtu_exchange_example :
    (sent : List ℕ) × (back : List ℕ) × (rtu_request 17 (Request.read_holding_registers 0 2)
      ≡ ok sent)
    × (serve_event store_service
          (received sent)
          (record { buffer = []; service_state = small_store })
        ≡ some (back ∷ [], record { buffer = []; service_state = small_store }))
    × (rtu_response 17 back ≡ ok (Response.read_holding_registers (7 ∷ 8 ∷ [])))
    × (view small_store ≡ change (Request.read_holding_registers 0 2) (view small_store))
unfolding call
rtu_exchange_example =
    rtu_exchange 17 (Request.read_holding_registers 0 2) small_store (omega arith) (omega arith)
      (omega arith) small_store-IsStore

-- A server that has read a slave id and a function code so far.
abbrev waiting : RtuServer SlaveStore
waiting = record { buffer = 1 ∷ 3 ∷ []; service_state = small_store }

waiting_settled : try_parse_server_rtu (1 ∷ 3 ∷ []) ≡ none
unfolding try_parse_server_rtu
waiting_settled = refl

serve_events-silence_example :
    (sent : List (List ℕ)) × (after : RtuServer SlaveStore) × (serve_event store_service
        (received (0 ∷ []))
        waiting
      ≡ some (sent, after))
    × (serve_events store_service (received (0 ∷ []) ∷ silence ∷ []) waiting
        ≡ some (sent, record after { buffer = [] }))
serve_events-silence_example = serve_events-silence store_service (0 ∷ []) waiting

serve_events-IsServing_example :
    (sent : List (List ℕ)) × (after : RtuServer SlaveStore) × (serve_events store_service
        (received (0 ∷ 0 ∷ []) ∷ silence ∷ [])
        waiting
      ≡ some (sent, after))
    × IsServing after
serve_events-IsServing_example =
    serve_events-IsServing (received (0 ∷ 0 ∷ []) ∷ silence ∷ []) waiting (omega arith, (tt, tt))
      (record { settled = waiting_settled; bytes = omega arith; store = small_store-IsStore })

-- The request that reads register 0 of slave 1.
abbrev read_one : List ℕ
read_one = 1 ∷ 3 ∷ 0 ∷ 0 ∷ 0 ∷ 1 ∷ 0x84 ∷ 0x0a ∷ []

read_one_parsed : try_parse_server_rtu read_one ≡ some (1, (3 ∷ 0 ∷ 0 ∷ 0 ∷ 1 ∷ [], 8))
unfolding try_parse_server_rtu crc_received without_crc is_known_function_code calculate_crc
    crc_from crc_byte crc_table crc_entries crc_rounds crc_step
read_one_parsed = refl

try_parse_server_rtu_sound_example :
    (encode_rtu_frame (1 ∷ 3 ∷ 0 ∷ 0 ∷ 0 ∷ 1 ∷ []) [] ≡ read_one) × (8 ≡ length read_one)
try_parse_server_rtu_sound_example =
    try_parse_server_rtu_sound read_one (3 ∷ 0 ∷ 0 ∷ 0 ∷ 1 ∷ []) 1 8 (omega arith) read_one_parsed

-- The answer to setting coil 9 comes in two pieces.
abbrev two_pieces : List (List ℕ)
two_pieces = (17 ∷ 5 ∷ 0 ∷ []) ∷ (9 ∷ 255 ∷ 0 ∷ 94 ∷ 168 ∷ []) ∷ []

wire_of_answer :
    flatten two_pieces
    ≡ encode_rtu_frame
        (17 ∷ response_layout (answer (Request.write_single_coil 9 true) (view small_store)))
        []
unfolding encode_rtu_frame calculate_crc crc_from crc_byte crc_table crc_entries crc_rounds crc_step
    u16_bytes
wire_of_answer = refl

line_drained : drain_stale_data (stale 500 ∷ quiet ∷ []) ≡ some (ok tt)
unfolding drain_stale_data drain_loop
line_drained = refl

rtu_send_recv-serve_event_example :
    (sent : List ℕ) × (after : SlaveStore) × (serve_event store_service
        (received sent)
        (record { buffer = []; service_state = small_store })
      ≡ some (flatten two_pieces ∷ [], record { buffer = []; service_state = after }))
    × IsStore after
    × (view after ≡ change (Request.write_single_coil 9 true) (view small_store))
    × (rtu_send_recv 17
          (Request.write_single_coil 9 true)
          (stale 500 ∷ quiet ∷ [])
          (map some_bytes two_pieces ++ (elapsed ∷ []))
        ≡ some (sent ∷ [], ok (Response.write_single_coil 9 true)))
rtu_send_recv-serve_event_example =
    rtu_send_recv-serve_event 17 (Request.write_single_coil 9 true) small_store
      (stale 500 ∷ quiet ∷ []) two_pieces [] (omega arith) (omega arith) (omega arith)
      small_store-IsStore line_drained wire_of_answer
