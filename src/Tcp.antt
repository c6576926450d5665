-- ===== src/Tcp.antt =====
-- src/transport/tcp.rs: the MBAP framing of Modbus TCP, its parser, the server's connection loop and
-- what the client makes of the bytes it read.
mod Runs
pub mod Trip
pub mod Serve
use oms_modbus.Base.{
  ℕ, zero, suc, ◌+◌, ◌-◌, ◌*◌, ◌%◌, ◌^◌, Bool, true, false, not, ◌&&◌, ◌||◌, List, [], ◌∷◌, ◌++◌,
  Option, none, some, Result, ok, err, is_ok, length, take, drop, get_or,
}
use oms_modbus.Base.{if◌then◌else◌, ltb, leb, ◌==◌}
use oms_modbus.Frame.Types.{Request, Response, is_known_function_code}
use oms_modbus.Frame.Buffer.{be_bytes}
use oms_modbus.Frame.Decode.{request_of_bytes}
use oms_modbus.Errors.{ModbusError}
use oms_modbus.Server.{Service}
use oms_modbus.Server.Process.{process_server_request, frame_request, decoded}

abbrev pub mbap_header_size : ℕ
mbap_header_size = 7

abbrev pub mbap_prefix_size : ℕ
mbap_prefix_size = 6

abbrev pub max_tcp_adu_size : ℕ
max_tcp_adu_size = 260

abbrev pub max_tcp_buf_bytes : ℕ
max_tcp_buf_bytes = max_tcp_adu_size * 4

pub data TidMode : Type 0 where
  fixed : ℕ → TidMode
  auto : TidMode

pub data LengthMode : Type 0 where
  standard_length : LengthMode
  pdu_only : LengthMode

pub record TcpConfig : Type 0 where
  pub tid : TidMode
  pub unit_id_in_body : Bool
  pub length_mode : LengthMode

-- `TcpConfig::standard` and `TcpConfig::default`, and `TcpConfig::gateway`.
abbrev pub standard : TcpConfig
standard = record { tid = fixed 0; unit_id_in_body = false; length_mode = standard_length }

abbrev pub gateway : TcpConfig
gateway = record { tid = auto; unit_id_in_body = true; length_mode = standard_length }

-- `next_tid`, with the counter before and after.
unfoldable pub next_tid : TidMode → ℕ → ℕ × ℕ
next_tid (fixed v) counter = (v, counter)
next_tid auto counter = (counter, (counter + 1) % 2 ^ 16)

abbrev pub unit_and_pdu : List ℕ → ℕ × List ℕ
unit_and_pdu [] = (1, [])
unit_and_pdu (unit_id ∷ pdu) = (unit_id, pdu)

abbrev pub length_field : LengthMode → ℕ → ℕ → ℕ
length_field standard_length n extra = (n % 2 ^ 16 + 1 + extra) % 2 ^ 16
length_field pdu_only n extra = (n % 2 ^ 16 + extra) % 2 ^ 16

-- `encode_tcp_frame`, on the buffer that it appends to.
unfoldable pub encode_tcp_frame : TcpConfig → ℕ → List ℕ → List ℕ → List ℕ
encode_tcp_frame config tid data_ buf =
    let (unit_id, pdu) = unit_and_pdu data_ in
    let extra = if config.unit_id_in_body then 1 else 0 in
    let len = length_field config.length_mode (length pdu) extra in
    buf
    ++ (be_bytes tid
        ++ (be_bytes 0
            ++ (be_bytes len
                ++ (unit_id ∷ (if config.unit_id_in_body then unit_id ∷ pdu else pdu)))))

-- `u16::from_be_bytes([buf[i], buf[i + 1]])`
unfoldable pub u16_at : List ℕ → ℕ → ℕ
u16_at buf i = get_or buf i 0 * 256 + get_or buf (i + 1) 0

-- `is_tcp_header_corrupt`
unfoldable pub is_tcp_header_corrupt : List ℕ → Bool
is_tcp_header_corrupt buf =
    if ltb (length buf) mbap_header_size
    then false
    else not (u16_at buf 2 == 0)
      || not (leb 1 (u16_at buf 4) && leb (u16_at buf 4) max_tcp_adu_size)

-- `try_extract_tcp_pdu`: the transaction id, the unit id, the PDU and the number of bytes consumed.
-- The body is never empty.
unfoldable pub try_extract_tcp_pdu : ℕ → ℕ → List ℕ → ℕ → Option (ℕ × (ℕ × (List ℕ × ℕ)))
try_extract_tcp_pdu tid unit_id body consumed =
    if leb 2 (length body)
      && (get_or body 0 0 == unit_id
          && (is_known_function_code (get_or body 1 0) && is_ok (request_of_bytes (drop 1 body))))
    then some (tid, (get_or body 0 0, (drop 1 body, consumed)))
    else if is_known_function_code (get_or body 0 0)
    then if get_or body 0 0 == unit_id && not (is_ok (request_of_bytes body))
      then none
      else some (tid, (unit_id, (body, consumed)))
    else none

-- `&buf[MBAP_HEADER_SIZE..fl]`
abbrev pub tcp_body : List ℕ → ℕ → List ℕ
tcp_body buf fl = take (fl - mbap_header_size) (drop mbap_header_size buf)

-- One round of the loop over the two frame lengths: whether the frame is complete.
abbrev pub is_complete : List ℕ → ℕ → Bool
is_complete buf fl = ltb mbap_header_size fl && leb fl (length buf)

-- `try_parse_tcp_frame`
unfoldable pub try_parse_tcp_frame : List ℕ → Option (ℕ × (ℕ × (List ℕ × ℕ)))
try_parse_tcp_frame buf =
    let payload_len = u16_at buf 4 in
    if ltb (length buf) mbap_header_size
    then none
    else if not (u16_at buf 2 == 0) || ltb max_tcp_adu_size payload_len
    then none
    else if is_complete buf (mbap_header_size + payload_len)
    then try_extract_tcp_pdu (u16_at buf 0) (get_or buf 6 0)
        (tcp_body buf (mbap_header_size + payload_len)) (mbap_header_size + payload_len)
    else if is_complete buf (mbap_prefix_size + payload_len)
    then try_extract_tcp_pdu (u16_at buf 0) (get_or buf 6 0)
        (tcp_body buf (mbap_prefix_size + payload_len)) (mbap_prefix_size + payload_len)
    else none

-- The server's side of a connection between two reads.
pub record TcpConnection (S : Type 0) : Type 0 where
  pub buffer : List ℕ
  pub service_state : S

abbrev pub tcp_frames : TcpConfig → ℕ → Option (List ℕ) → List (List ℕ)
tcp_frames config tid none = []
tcp_frames config tid (some rsp_data) = encode_tcp_frame config tid rsp_data [] ∷ []

-- `while let Some(…) = try_parse_tcp_frame(&buf)`: the frames sent and the connection afterwards; `none`
-- where the fuel does not suffice. A frame that cannot be written ends the connection, which is left
-- out.
unfoldable pub frame_loop :
    {S : Type 0}
    → ℕ
    → TcpConfig
    → Service S
    → TcpConnection S
    → Option (List (List ℕ) × TcpConnection S)
frame_loop zero config service conn = none
frame_loop (suc fuel) config service conn = elim (try_parse_tcp_frame conn.buffer) [
  | none ↦ some ([], conn)
  | some (tid, (slave, (pdu, consumed))) ↦
      let (rsp, s') = process_server_request pdu slave service conn.service_state in
      let rest =
        frame_loop fuel config service
          (record { buffer = drop consumed conn.buffer; service_state = s' }) in
      elim rest [
        | none ↦ none
        | some (sent, after) ↦ some (tcp_frames config tid rsp ++ sent, after)
      ]
]

-- What is left is discarded where its header is corrupt, or where there is too much of it.
unfoldable pub discard : {S : Type 0} → TcpConnection S → TcpConnection S
discard conn =
    if is_tcp_header_corrupt conn.buffer || ltb max_tcp_buf_bytes (length conn.buffer)
    then record conn { buffer = [] }
    else conn

-- A round of `handle_tcp_connection` for the bytes of one read.
unfoldable pub serve_chunk :
    {S : Type 0}
    → TcpConfig
    → Service S
    → List ℕ
    → TcpConnection S
    → Option (List (List ℕ) × TcpConnection S)
serve_chunk config service chunk conn =
    let buf = conn.buffer ++ chunk in
    elim (frame_loop (suc (length buf)) config service (record conn { buffer = buf })) [
      | none ↦ none
      | some (sent, after) ↦ some (sent, discard after)
    ]

-- The bytes that `TcpClient::send_recv` writes.
unfoldable pub tcp_request : TcpConfig → ℕ → ℕ → Request → Result (List ℕ) ModbusError
tcp_request config tid = frame_request (encode_tcp_frame config tid)

-- `pdu.slice(1..)` where a gateway repeats the unit id.
abbrev pub strip_unit_id : TcpConfig → ℕ → List ℕ → List ℕ
strip_unit_id config slave pdu =
    if config.unit_id_in_body && (ltb 1 (length pdu) && get_or pdu 0 0 == slave)
    then drop 1 pdu
    else pdu

abbrev pub tcp_decoded : TcpConfig → ℕ → List ℕ → Result Response ModbusError
tcp_decoded config slave [] = err ModbusError.protocol
tcp_decoded config slave (b ∷ pdu) = decoded (strip_unit_id config slave (b ∷ pdu))

-- `TcpClient::send_recv`, from the bytes that were read on.
unfoldable pub tcp_response : TcpConfig → ℕ → List ℕ → Result Response ModbusError
tcp_response config slave buf =
    let payload_len = u16_at buf 4 in
    if ltb (length buf) mbap_header_size
    then err ModbusError.timeout
    else if not (u16_at buf 2 == 0)
    then err ModbusError.protocol
    else if ltb max_tcp_adu_size payload_len
    then err ModbusError.protocol
    else if leb (mbap_header_size + payload_len) (length buf)
    then tcp_decoded config slave (tcp_body buf (mbap_header_size + payload_len))
    else if leb (mbap_prefix_size + payload_len) (length buf)
    then tcp_decoded config slave (tcp_body buf (mbap_prefix_size + payload_len))
    else err ModbusError.timeout
