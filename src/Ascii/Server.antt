-- ===== src/Ascii/Server.antt =====
-- src/transport/ascii.rs: the loops of `AsciiServer::serve_forever` and of the receiving half of
-- `AsciiClient::send_recv`. A frame that cannot be written ends the server, which is left out.
use oms_modbus.Base.{
  ℕ, zero, suc, List, [], ◌∷◌, ◌++◌, Option, none, some, length, drop, Result, err,
}
use oms_modbus.Frame.Types.{Response}
use oms_modbus.Errors.{ModbusError}
use oms_modbus.Codec.{encode_ascii_frame_into}
use oms_modbus.Server.{Service}
use oms_modbus.Server.Process.{process_server_request}
use oms_modbus.Receive.{ReadOutcome, some_bytes, closed, failed, elapsed, expired}
use oms_modbus.Ascii.{found, incomplete, stuck, try_parse_ascii, try_parse_ascii_response}

abbrev pub ascii_frames : Option (List ℕ) → List (List ℕ)
ascii_frames none = []
ascii_frames (some rsp_data) = encode_ascii_frame_into rsp_data [] ∷ []

-- The server between two reads: what it has not parsed, and the state behind the service.
pub record AsciiServer (S : Type 0) : Type 0 where
  pub buffer : List ℕ
  pub service_state : S

-- `while let Some(…) = try_parse_ascii(&buf)`: the frames sent and the server afterwards; `none` where the
-- fuel does not suffice.
unfoldable pub line_loop :
    {S : Type 0} → ℕ → Service S → AsciiServer S → Option (List (List ℕ) × AsciiServer S)
line_loop zero service server = none
line_loop (suc fuel) service server = elim (try_parse_ascii server.buffer) [
  | incomplete ↦ some ([], server)
  | stuck ↦ none
  | found slave pdu consumed ↦
      let (rsp, s') = process_server_request pdu slave service server.service_state in
      let rest =
        line_loop fuel service
          (record { buffer = drop consumed server.buffer; service_state = s' }) in
      elim rest [ none ↦ none | some (sent, after) ↦ some (ascii_frames rsp ++ sent, after) ]
]

-- What a read yields: bytes, or the silence after which the timeout expires.
pub data AsciiEvent : Type 0 where
  bytes_read : List ℕ → AsciiEvent
  read_timeout : AsciiEvent

-- One round of `serve_forever`. The timeout runs only behind pending bytes; it discards them.
unfoldable pub ascii_event :
    {S : Type 0} → Service S → AsciiEvent → AsciiServer S → Option (List (List ℕ) × AsciiServer S)
unfolding line_loop
ascii_event service (bytes_read chunk) server =
    let buf = server.buffer ++ chunk in
    line_loop (suc (length buf)) service (record server { buffer = buf })
ascii_event service read_timeout server = some ([], record server { buffer = [] })

unfoldable pub ascii_events :
    {S : Type 0}
    → Service S
    → List AsciiEvent
    → AsciiServer S
    → Option (List (List ℕ) × AsciiServer S)
unfolding ascii_event
ascii_events service [] server = some ([], server)
ascii_events service (event ∷ events) server = elim (ascii_event service event server) [
  | none ↦ none
  | some (sent, next) ↦ elim (ascii_events service events next) [
    | none ↦ none
    | some (later, after) ↦ some (sent ++ later, after)
  ]
]

abbrev pub or_else :
    Option (Result Response ModbusError)
    → Option (Result Response ModbusError)
    → Option (Result Response ModbusError)
or_else (some result) later = some result
or_else none later = later

-- The receive loop, over what its reads yield; `none` while it still waits.
unfoldable pub ascii_receive : ℕ → List ℕ → List ReadOutcome → Option (Result Response ModbusError)
ascii_receive slave buf [] = none
ascii_receive slave buf (some_bytes chunk ∷ reads) =
    or_else (try_parse_ascii_response (buf ++ chunk) slave)
      (ascii_receive slave (buf ++ chunk) reads)
ascii_receive slave buf (closed ∷ reads) = some (err ModbusError.connection)
ascii_receive slave buf (failed e ∷ reads) = some (err e)
ascii_receive slave buf (elapsed ∷ reads) =
    or_else (try_parse_ascii_response buf slave) (some (err ModbusError.timeout))
ascii_receive slave buf (expired ∷ reads) =
    or_else (try_parse_ascii_response buf slave) (some (err ModbusError.timeout))
