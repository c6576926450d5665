-- ===== src/Tcp/Runs.antt =====
-- src/transport/tcp.rs: MBAP frames of single requests, and two frames that are read wrong.
use oms_modbus.Base.{
  ℕ, ◌+◌, ◌≡◌, refl, arith, true, false, List, [], ◌∷◌, ◌++◌, ok, is_ok, some, length, ap,
}
use oms_modbus.Frame.Types.{Request, Response, is_known_function_code}
use oms_modbus.Frame.Decode.{request_of_bytes}
use oms_modbus.Frame.Encode.{u16_bytes}
use oms_modbus.Frame.RequestTrip.{request_round_trip}
use oms_modbus.Store.Memory.{SlaveStore}
use oms_modbus.Store.Runs.{small_store, small_store-IsStore}
use oms_modbus.Server.Laws.{store_service}
use oms_modbus.Tcp.{
  TcpConfig, TcpConnection, LengthMode, TidMode, standard, gateway, encode_tcp_frame,
  try_parse_tcp_frame, serve_chunk, tcp_response, is_tcp_header_corrupt,
}
use oms_modbus.Tcp.Trip.{
  try_parse_tcp_frame_round_trip, try_parse_tcp_frame_swallows, try_parse_tcp_frame_pdu_only,
  try_parse_tcp_frame-gateway, try_parse_tcp_frame_misread, tcp_response_round_trip,
}
use oms_modbus.Tcp.Serve.{IsConnection, serve_chunk-IsConnection}

-- Three registers from address 107 on.
abbrev read_three : List ℕ
read_three = 3 ∷ 0 ∷ 107 ∷ 0 ∷ 3 ∷ []

known_three : is_known_function_code 3 ≡ true
unfolding is_known_function_code
known_three = refl

known_six : is_known_function_code 6 ≡ true
unfolding is_known_function_code
known_six = refl

try_parse_tcp_frame_round_trip_example :
    try_parse_tcp_frame (encode_tcp_frame standard 9 (17 ∷ read_three) [])
    ≡ some (9, (17, (read_three, length (encode_tcp_frame standard 9 (17 ∷ read_three) []))))
try_parse_tcp_frame_round_trip_example =
    try_parse_tcp_frame_round_trip 9 17 read_three (omega arith) (omega arith) (omega arith)
      known_three

-- The next frame starts with the byte 0.
try_parse_tcp_frame_swallows_example :
    try_parse_tcp_frame (encode_tcp_frame standard 9 (17 ∷ read_three) [] ++ (0 ∷ 10 ∷ []))
    ≡ some (
      9,
      (17, (read_three ++ (0 ∷ []), length (encode_tcp_frame standard 9 (17 ∷ read_three) []) + 1)),
    )
try_parse_tcp_frame_swallows_example =
    try_parse_tcp_frame_swallows 9 17 0 read_three (10 ∷ []) (omega arith) (omega arith)
      (omega arith) known_three

abbrev short_lengths : TcpConfig
short_lengths = record {
  tid = TidMode.fixed 0;
  unit_id_in_body = false;
  length_mode = LengthMode.pdu_only;
}

try_parse_tcp_frame_pdu_only_example :
    try_parse_tcp_frame (encode_tcp_frame short_lengths 9 (17 ∷ read_three) [] ++ (0 ∷ 10 ∷ []))
    ≡ some (9, (17, (read_three, length (encode_tcp_frame short_lengths 9 (17 ∷ read_three) []))))
try_parse_tcp_frame_pdu_only_example =
    try_parse_tcp_frame_pdu_only short_lengths 9 17 read_three (0 ∷ 10 ∷ []) refl refl (omega arith)
      (omega arith) (omega arith) known_three

try_parse_tcp_frame-gateway_example :
    try_parse_tcp_frame (encode_tcp_frame gateway 9 (17 ∷ read_three) [])
    ≡ some (9, (17, (read_three, length (encode_tcp_frame gateway 9 (17 ∷ read_three) []))))
try_parse_tcp_frame-gateway_example =
    try_parse_tcp_frame-gateway 9 17 (Request.read_holding_registers 107 3) (omega arith)
      (omega arith)

-- Unit 16 is asked to write the register at address 0x0600. The bytes behind the function code write
-- 0x0102 to the register at address 0.
abbrev inner : List ℕ
inner = 6 ∷ 0 ∷ 0 ∷ 1 ∷ 2 ∷ 18 ∷ 52 ∷ []

outer_request :
    request_of_bytes (16 ∷ inner) ≡ ok (Request.write_multiple_registers 0x0600 (0x1234 ∷ []))
unfolding u16_bytes
outer_request =
    (request_round_trip (Request.write_multiple_registers 0x0600 (0x1234 ∷ [])) [] (omega arith)
      (omega arith)).1

inner_request : request_of_bytes inner ≡ ok (Request.write_single_register 0 0x0102)
inner_request =
    (request_round_trip (Request.write_single_register 0 0x0102) (18 ∷ 52 ∷ []) (omega arith)
      (omega arith)).1

try_parse_tcp_frame_misread_example :
    try_parse_tcp_frame (encode_tcp_frame standard 9 (16 ∷ 16 ∷ inner) [])
    ≡ some (9, (16, (inner, length (encode_tcp_frame standard 9 (16 ∷ 16 ∷ inner) []))))
try_parse_tcp_frame_misread_example =
    try_parse_tcp_frame_misread 9 16 inner (omega arith) (omega arith) known_six
      (ap is_ok inner_request)

tcp_response_round_trip_example :
    tcp_response standard 17 (encode_tcp_frame standard 9 (17 ∷ 6 ∷ 0 ∷ 1 ∷ 0 ∷ 3 ∷ []) [])
    ≡ ok (Response.write_single_register 1 3)
tcp_response_round_trip_example =
    tcp_response_round_trip 9 17 17 (Response.write_single_register 1 3) (omega arith) (omega arith)
      (omega arith)

abbrev fresh : TcpConnection SlaveStore
fresh = record { buffer = []; service_state = small_store }

fresh_header : is_tcp_header_corrupt [] ≡ false
unfolding is_tcp_header_corrupt
fresh_header = refl

serve_chunk-IsConnection_example :
    (sent : List (List ℕ)) × (after : TcpConnection SlaveStore) × (serve_chunk standard
        store_service
        (0 ∷ 9 ∷ 0 ∷ 0 ∷ [])
        fresh
      ≡ some (sent, after))
    × IsConnection after
serve_chunk-IsConnection_example =
    serve_chunk-IsConnection standard (0 ∷ 9 ∷ 0 ∷ 0 ∷ []) fresh (omega arith) (record {
      bytes = tt;
      bounded = omega arith;
      header = fresh_header;
      store = small_store-IsStore;
    })
