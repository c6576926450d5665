-- ===== src/Rtu.antt =====
-- src/transport/rtu.rs: the frames of the RTU client and of the RTU server, and the server's buffer
-- from one event of the transport to the next.
mod Runs
pub mod Trip
pub mod Serve
pub mod Exchange
pub mod Receive
pub mod Call
pub mod Sound
use oms_modbus.Base.{
  ℕ, zero, suc, ◌+◌, ◌-◌, ◌*◌, Bool, not, List, [], ◌∷◌, ◌++◌, Option, none, some, Result, ok, err,
  length, take, drop, get_or, div_ceil,
}
use oms_modbus.Base.{if◌then◌else◌, ltb, ◌==◌}
use oms_modbus.Frame.Types.{Request, Response, is_known_function_code}
use oms_modbus.Codec.{calculate_crc, encode_rtu_frame}
use oms_modbus.Errors.{ModbusError}
use oms_modbus.Server.{Service}
use oms_modbus.Server.Process.{process_server_request, frame_request, decoded}

abbrev pub min_rtu_frame : ℕ
min_rtu_frame = 5

abbrev pub crc_size : ℕ
crc_size = 2

-- `u16::from_le_bytes` of the last two bytes.
unfoldable pub crc_received : List ℕ → ℕ
crc_received buf = get_or buf (length buf - 2) 0 + get_or buf (length buf - 1) 0 * 256

-- `&buf[..buf.len() - 2]`
unfoldable pub without_crc : List ℕ → List ℕ
without_crc buf = take (length buf - 2) buf

-- `try_parse_server_rtu`: the slave id, the PDU and the number of bytes consumed.
unfoldable pub try_parse_server_rtu : List ℕ → Option (ℕ × (List ℕ × ℕ))
try_parse_server_rtu buf =
    let frame = without_crc buf in
    if ltb (length buf) min_rtu_frame
    then none
    else if not (crc_received buf == calculate_crc frame)
    then none
    else if ltb (length frame) 2
    then none
    else if not (is_known_function_code (get_or frame 1 0))
    then none
    else some (get_or frame 0 0, (drop 1 frame, length buf))

-- `expected_rtu_pdu_len`
unfoldable pub expected_rtu_pdu_len : Request → Option ℕ
expected_rtu_pdu_len (Request.read_coils a count) = some (2 + div_ceil count 8)
expected_rtu_pdu_len (Request.read_discrete_inputs a count) = some (2 + div_ceil count 8)
expected_rtu_pdu_len (Request.read_holding_registers a count) = some (2 + count * 2)
expected_rtu_pdu_len (Request.read_input_registers a count) = some (2 + count * 2)
expected_rtu_pdu_len (Request.write_single_coil a v) = some 5
expected_rtu_pdu_len (Request.write_single_register a v) = some 5
expected_rtu_pdu_len (Request.write_multiple_coils a vs) = some 5
expected_rtu_pdu_len (Request.write_multiple_registers a vs) = some 5
expected_rtu_pdu_len (Request.read_write_multiple_registers r count w vs) = some (2 + count * 2)
expected_rtu_pdu_len (Request.mask_write_register a m o) = some 7
expected_rtu_pdu_len (Request.diagnostic s d) = some 5
expected_rtu_pdu_len Request.disconnect = none

-- The bytes that the client waits for: slave id, PDU and CRC, or the shortest frame.
abbrev pub frame_target : Option ℕ → ℕ
frame_target (some pdu) = pdu + 1 + crc_size
frame_target none = min_rtu_frame

unfoldable pub receive_target : Request → ℕ
receive_target req = frame_target (expected_rtu_pdu_len req)

-- `RtuClient::send_recv`, from the bytes that were read on.
unfoldable pub rtu_response : ℕ → List ℕ → Result Response ModbusError
rtu_response slave buf =
    let frame = without_crc buf in
    if ltb (length buf) min_rtu_frame
    then err ModbusError.timeout
    else if not (crc_received buf == calculate_crc frame)
    then err ModbusError.protocol
    else if ltb (length frame) 2
    then err ModbusError.protocol
    else if not (get_or frame 0 0 == slave)
    then err ModbusError.protocol
    else decoded (drop 1 frame)

-- The bytes that `RtuClient::send_recv` writes.
unfoldable pub rtu_request : ℕ → Request → Result (List ℕ) ModbusError
rtu_request = frame_request encode_rtu_frame

abbrev pub rtu_frames : Option (List ℕ) → List (List ℕ)
rtu_frames none = []
rtu_frames (some rsp_data) = encode_rtu_frame rsp_data [] ∷ []

-- The server between two reads: what it has not parsed, and the state behind the service.
pub record RtuServer (S : Type 0) : Type 0 where
  pub buffer : List ℕ
  pub service_state : S

-- `while let Some(…) = try_parse_server_rtu(&buf)`: the frames sent and the server afterwards; `none` where
-- the fuel does not suffice. A frame that cannot be written ends the server, which is left out.
unfoldable pub parse_loop :
    {S : Type 0} → ℕ → Service S → RtuServer S → Option (List (List ℕ) × RtuServer S)
parse_loop zero service server = none
parse_loop (suc fuel) service server = elim (try_parse_server_rtu server.buffer) [
  | none ↦ some ([], server)
  | some (slave, (pdu, consumed)) ↦
      let (rsp, s') = process_server_request pdu slave service server.service_state in
      let rest =
        parse_loop fuel service
          (record { buffer = drop consumed server.buffer; service_state = s' }) in
      elim rest [ none ↦ none | some (sent, after) ↦ some (rtu_frames rsp ++ sent, after) ]
]

-- What `read` yields: bytes, or the silence after which the timeout expires.
pub data Event : Type 0 where
  received : List ℕ → Event
  silence : Event

-- One round of the loop of `serve_forever`. The silence is waited for only behind pending bytes;
-- without any, the server waits on.
unfoldable pub serve_event :
    {S : Type 0} → Service S → Event → RtuServer S → Option (List (List ℕ) × RtuServer S)
serve_event service (received chunk) server =
    let buf = server.buffer ++ chunk in
    parse_loop (suc (length buf)) service (record server { buffer = buf })
serve_event service silence server = elim (try_parse_server_rtu server.buffer) [
  | none ↦ some ([], record server { buffer = [] })
  | some found ↦ some ([], server)
]

-- The rounds of `serve_forever` for the events of a transport, in order: the frames sent and the
-- server afterwards.
unfoldable pub serve_events :
    {S : Type 0} → Service S → List Event → RtuServer S → Option (List (List ℕ) × RtuServer S)
serve_events service [] server = some ([], server)
serve_events service (event ∷ events) server = elim (serve_event service event server) [
  | none ↦ none
  | some (sent, next) ↦ elim (serve_events service events next) [
    | none ↦ none
    | some (later, after) ↦ some (sent ++ later, after)
  ]
]
