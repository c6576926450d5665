-- ===== src/Frame/Runs.antt =====
-- src/frame.rs: the codec's theorems at requests and responses as they stand on the wire.
use oms_modbus.Base.{
  ◌≡◌, ◌≢◌, refl, arith, Bool, true, [], ◌∷◌, ok, err, replicate, length-replicate,
}
use oms_modbus.Frame.Types.{Request, Response, IoError, panic, request_function_code}
use oms_modbus.Frame.Encode.{
  u16_bytes, bytes_of_request, encode_request, encode_request_into, encode_response_into,
  bytes_of_response,
}
use oms_modbus.Frame.Decode.{request_of_bytes, response_of_bytes}
use oms_modbus.Frame.Wire.{IsRequest, response_layout}
use oms_modbus.Frame.RequestTrip.{request_round_trip, encode_request_into_lem}
use oms_modbus.Frame.ResponseTrip.{
  response_of_bytes-layout, encode_response_refused, oversized_read_is_encoded,
}
use oms_modbus.Frame.RequestSound.{request_of_bytes-IsRequest, request_of_bytes-ne-panic}

-- Three registers at address 16.
abbrev write_three : Request
write_three = Request.write_multiple_registers 16 (258 ∷ 772 ∷ 65535 ∷ [])

request_round_trip_example :
    (bytes_of_request write_three ≡ ok (16 ∷ 0 ∷ 16 ∷ 0 ∷ 3 ∷ 6 ∷ 1 ∷ 2 ∷ 3 ∷ 4 ∷ 255 ∷ 255 ∷ []))
    × (request_of_bytes (16 ∷ 0 ∷ 16 ∷ 0 ∷ 3 ∷ 6 ∷ 1 ∷ 2 ∷ 3 ∷ 4 ∷ 255 ∷ 255 ∷ 9 ∷ [])
        ≡ ok write_three)
unfolding u16_bytes
request_round_trip_example = request_round_trip write_three (9 ∷ []) (omega arith) (omega arith)

-- Of a write of 128 registers, whose byte count does not fit, the front stays in the buffer; of a write of
-- 124 registers nothing stays.
left_in_buffer :
    ((encode_request_into (Request.write_multiple_registers 7 (replicate 128 0)) []).1
      ≡ 16 ∷ 0 ∷ 7 ∷ 0 ∷ 128 ∷ [])
    × ((encode_request_into (Request.write_multiple_registers 7 (replicate 124 0)) []).1 ≡ [])
unfolding encode_request_into encode_request request_function_code u16_bytes
left_in_buffer = (refl, refl)

encode_request_into_lem_example :
    encode_request_into (Request.read_holding_registers 107 3) (17 ∷ [])
    ≡ (ok tt, 17 ∷ 3 ∷ 0 ∷ 107 ∷ 0 ∷ 3 ∷ [])
encode_request_into_lem_example =
    encode_request_into_lem (Request.read_holding_registers 107 3) (17 ∷ []) (omega arith)

read_three : request_of_bytes (3 ∷ 0 ∷ 107 ∷ 0 ∷ 3 ∷ []) ≡ ok (Request.read_holding_registers 107 3)
read_three =
    (request_round_trip (Request.read_holding_registers 107 3) [] (omega arith) (omega arith)).1

request_of_bytes-IsRequest_example : IsRequest (Request.read_holding_registers 107 3)
request_of_bytes-IsRequest_example =
    request_of_bytes-IsRequest (3 ∷ 0 ∷ 107 ∷ 0 ∷ 3 ∷ []) (Request.read_holding_registers 107 3)
      (omega arith) read_three

-- A write of two registers that ends too early.
request_of_bytes-ne-panic_example : request_of_bytes (16 ∷ 0 ∷ 1 ∷ 0 ∷ 2 ∷ 4 ∷ 0 ∷ []) ≢ err panic
request_of_bytes-ne-panic_example =
    request_of_bytes-ne-panic (16 ∷ 0 ∷ 1 ∷ 0 ∷ 2 ∷ 4 ∷ 0 ∷ []) (omega arith)

response_of_bytes-layout_example :
    response_of_bytes (3 ∷ 4 ∷ 0 ∷ 6 ∷ 0 ∷ 5 ∷ [])
    ≡ ok (Response.read_holding_registers (6 ∷ 5 ∷ []))
unfolding u16_bytes
response_of_bytes-layout_example =
    response_of_bytes-layout (Response.read_holding_registers (6 ∷ 5 ∷ [])) [] (omega arith)

abbrev many_registers : Response
many_registers = Response.read_input_registers (replicate 126 1)

encode_response_refused_example :
    (e : IoError) × (encode_response_into many_registers (1 ∷ []) ≡ (err e, 1 ∷ []))
unfolding u16_bytes
encode_response_refused_example = encode_response_refused many_registers (1 ∷ []) (omega arith)

oversized_read_is_encoded_example :
    (bytes_of_response (Response.read_coils (replicate 2001 true))
      ≡ response_layout (Response.read_coils (replicate 2001 true)))
    × (bytes_of_response (Response.read_discrete_inputs (replicate 2001 true))
        ≡ response_layout (Response.read_discrete_inputs (replicate 2001 true)))
oversized_read_is_encoded_example =
    oversized_read_is_encoded (replicate 2001 true)
      (omega (arith, length-replicate {A = Bool} 2001 true))
      (omega (arith, length-replicate {A = Bool} 2001 true))
