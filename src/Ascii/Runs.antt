-- ===== src/Ascii/Runs.antt =====
-- Runs of src/transport/ascii.rs: a frame behind a line of noise, and the ASCII theorems at a small store.
use oms_modbus.Base.{
  ℕ, ◌+◌, ◌≡◌, refl, arith, List, [], ◌∷◌, ◌++◌, ok, err, none, some, length, flatten, map,
}
use oms_modbus.Frame.Types.{Request, Response}
use oms_modbus.Errors.{ModbusError}
use oms_modbus.Codec.{encode_ascii_frame}
use oms_modbus.Store.Memory.{SlaveStore, call}
use oms_modbus.Store.Runs.{small_store, small_store-IsStore}
use oms_modbus.Server.Laws.{store_service}
use oms_modbus.Ascii.{
  decode_line, found, incomplete, find_crlf, scan, try_parse_ascii, try_parse_ascii_response,
  ascii_request,
}
use oms_modbus.Ascii.Trip.{joined, IsJunk, try_parse_ascii_round_trip}
use oms_modbus.Ascii.Server.{AsciiServer, bytes_read, read_timeout, ascii_events, ascii_receive}
use oms_modbus.Receive.{some_bytes, closed, elapsed}
use oms_modbus.Ascii.Serve.{IsAsciiServing, ascii_events-IsAsciiServing}
use oms_modbus.Ascii.Pieces.{pieces}
use oms_modbus.Ascii.Exchange.{ascii_exchange}
use oms_modbus.Store.Model.{change}
use oms_modbus.Store.Service.{view}

-- The line "#!" with a line feed before it and a carriage return behind it is no frame.
abbrev noise : List ℕ
noise = 10 ∷ 35 ∷ 33 ∷ 13 ∷ []

noise_in_one_line : find_crlf noise ≡ none
unfolding find_crlf
noise_in_one_line = refl

noise_is_no_frame : decode_line noise ≡ none
unfolding decode_line
noise_is_no_frame = refl

noise-IsJunk : IsJunk noise
noise-IsJunk = (noise_in_one_line, noise_is_no_frame)

try_parse_ascii_round_trip_example :
    try_parse_ascii
      (joined (noise ∷ []) ++ (encode_ascii_frame (17 ∷ 3 ∷ 0 ∷ 107 ∷ 0 ∷ 3 ∷ []) ++ (58 ∷ [])))
    ≡ found 17
        (3 ∷ 0 ∷ 107 ∷ 0 ∷ 3 ∷ [])
        (length (joined (noise ∷ [])) + length (encode_ascii_frame (17 ∷ 3 ∷ 0 ∷ 107 ∷ 0 ∷ 3 ∷ [])))
try_parse_ascii_round_trip_example =
    try_parse_ascii_round_trip 17 3 (0 ∷ 107 ∷ 0 ∷ 3 ∷ []) (58 ∷ []) (noise ∷ []) (omega arith)
      (noise-IsJunk, tt)

ascii_exchange_example :
    (sent : List ℕ) × (back : List ℕ) × (ascii_request 17 (Request.read_holding_registers 0 2)
      ≡ ok sent)
    × ((chunks : List (List ℕ))
        → flatten chunks ≡ sent
        → ascii_events store_service
            (map bytes_read chunks)
            (record { buffer = []; service_state = small_store })
          ≡ some (back ∷ [], record { buffer = []; service_state = small_store }))
    × ((chunks : List (List ℕ))
        → flatten chunks ≡ back
        → ascii_receive 17 [] (pieces chunks)
          ≡ some (ok (Response.read_holding_registers (7 ∷ 8 ∷ []))))
    × (view small_store ≡ change (Request.read_holding_registers 0 2) (view small_store))
unfolding call
ascii_exchange_example =
    ascii_exchange 17 (Request.read_holding_registers 0 2) small_store (omega arith) (omega arith)
      (omega arith) (omega arith) small_store-IsStore

-- A server that has read the front of a line.
abbrev waiting : AsciiServer SlaveStore
waiting = record { buffer = 58 ∷ 49 ∷ []; service_state = small_store }

waiting_settled : try_parse_ascii (58 ∷ 49 ∷ []) ≡ incomplete
unfolding try_parse_ascii scan find_crlf
waiting_settled = refl

ascii_events-IsAsciiServing_example :
    (sent : List (List ℕ)) × (after : AsciiServer SlaveStore) × (ascii_events store_service
        (bytes_read (13 ∷ 10 ∷ []) ∷ read_timeout ∷ [])
        waiting
      ≡ some (sent, after))
    × IsAsciiServing after
ascii_events-IsAsciiServing_example =
    ascii_events-IsAsciiServing (bytes_read (13 ∷ 10 ∷ []) ∷ read_timeout ∷ []) waiting
      (omega arith)
      (record { settled = waiting_settled; bytes = omega arith; store = small_store-IsStore })

-- A frame of another kind of end: the client's loop reports what its reads yield.
receive_ends :
    (ascii_receive 17 [] (some_bytes (58 ∷ []) ∷ closed ∷ []) ≡ some (err ModbusError.connection))
    × (ascii_receive 17 [] (some_bytes (58 ∷ []) ∷ elapsed ∷ []) ≡ some (err ModbusError.timeout))
unfolding ascii_receive try_parse_ascii_response try_parse_ascii scan find_crlf
receive_ends = (refl, refl)
