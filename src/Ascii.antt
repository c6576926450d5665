-- ===== src/Ascii.antt =====
-- src/transport/ascii.rs: the frame scanner of the client and of the server, and the two sides'
-- use of it.
mod Runs
pub mod Scan
pub mod Trip
pub mod Server
pub mod Found
pub mod Pieces
pub mod Exchange
pub mod Serve
use oms_modbus.Base.{
  not, Result, err, ℕ, zero, suc, ◌+◌, ◌-◌, ◌%◌, Bool, ◌&&◌, List, [], ◌∷◌, Option, none, some,
  length, take, drop, get_or,
}
use oms_modbus.Base.{if◌then◌else◌, leb, ◌==◌}
use oms_modbus.Frame.Types.{Request, Response}
use oms_modbus.Errors.{ModbusError}
use oms_modbus.Server.Process.{frame_request, decoded}
use oms_modbus.Codec.{ascii_start, cr, lf, calculate_lrc, encode_ascii_frame_into}
use oms_modbus.Codec.Hex.{decode_pairs}

-- `remaining.windows(2).position(|w| w == [CR, LF])`
abbrev pub next_position : Option ℕ → Option ℕ
next_position none = none
next_position (some p) = some (suc p)

unfoldable pub find_crlf : List ℕ → Option ℕ
find_crlf [] = none
find_crlf (x ∷ []) = none
find_crlf (x ∷ y ∷ rest) =
    if x == cr && y == lf then some 0 else next_position (find_crlf (y ∷ rest))

abbrev pub split_slave : List ℕ → Option (ℕ × List ℕ)
split_slave [] = none
split_slave (slave ∷ pdu) = some (slave, pdu)

-- The checks on the decoded bytes of a line: their number, the LRC, a slave id and a function code.
abbrev pub check_bytes : Option (List ℕ) → Option (ℕ × List ℕ)
check_bytes none = none
check_bytes (some bytes) =
    let n = length bytes - 1 in
    if leb 2 (length bytes) && (get_or bytes n 0 == calculate_lrc (take n bytes) && leb 2 n)
    then split_slave (take n bytes)
    else none

unfoldable pub decode_line : List ℕ → Option (ℕ × List ℕ)
decode_line [] = none
decode_line (c ∷ hex_chars) =
    if c == ascii_start && length hex_chars % 2 == 0
    then check_bytes (decode_pairs hex_chars)
    else none

-- What the scan of a buffer yields. `stuck` is no value of the source: the loop ran out of fuel.
pub data ScanResult : Type 0 where
  found : ℕ → List ℕ → ℕ → ScanResult
  incomplete : ScanResult
  stuck : ScanResult

-- The loop of `try_parse_ascii`, from an offset on.
unfoldable pub scan : ℕ → ℕ → List ℕ → ScanResult
scan zero offset buf = stuck
scan (suc fuel) offset buf = elim (find_crlf (drop offset buf)) [
  | none ↦ incomplete
  | some crlf_pos ↦ elim (decode_line (take crlf_pos (drop offset buf))) [
    | none ↦ scan fuel (offset + crlf_pos + 2) buf
    | some (slave, pdu) ↦ found slave pdu (offset + crlf_pos + 2)
  ]
]

-- `try_parse_ascii`: each round passes a line of at least two bytes, so the fuel is enough.
unfoldable pub try_parse_ascii : List ℕ → ScanResult
try_parse_ascii buf = scan (suc (length buf)) 0 buf

-- `try_parse_ascii_response`: `none` where no frame was found.
abbrev pub response_found : ℕ → ScanResult → Option (Result Response ModbusError)
response_found slave (found rsp_slave pdu consumed) =
    if not (rsp_slave == slave) then some (err ModbusError.protocol) else some (decoded pdu)
response_found slave incomplete = none
response_found slave stuck = none

unfoldable pub try_parse_ascii_response : List ℕ → ℕ → Option (Result Response ModbusError)
try_parse_ascii_response buf slave = response_found slave (try_parse_ascii buf)

-- The bytes that `AsciiClient::send_recv` writes.
unfoldable pub ascii_request : ℕ → Request → Result (List ℕ) ModbusError
ascii_request = frame_request encode_ascii_frame_into
