-- ===== src/Server/Process.antt =====
-- src/transport/send_recv.rs: what a server does with one decoded frame, and how a client frames a
-- request.
use oms_modbus.Base.{
  ℕ, List, [], ◌∷◌, Option, none, some, Result, ok, err, if◌then◌else◌, ◌==◌, map_err,
}
use oms_modbus.Frame.Types.{Request, Response, Exception, IoError, request_function_code}
use oms_modbus.Frame.Encode.{encode_request_into, encode_response_into}
use oms_modbus.Frame.Decode.{request_of_bytes, response_of_bytes}
use oms_modbus.Errors.{ModbusError}
use oms_modbus.Server.{Service}

-- `Err(ex) => Response::Exception(req_fc, ex)`
abbrev pub response_or_exception : ℕ → Result Response Exception → Response
response_or_exception fc (ok rsp) = rsp
response_or_exception fc (err ex) = Response.exception fc ex

abbrev pub buffer_if_ok : Result (Unit {0}) IoError × List ℕ → Option (List ℕ)
buffer_if_ok (ok u, buf) = some buf
buffer_if_ok (err e, buf) = none

-- The response buffer: the slave id and the encoded response, `none` where it does not fit.
unfoldable pub reply : ℕ → Response → Option (List ℕ)
reply slave rsp = buffer_if_ok (encode_response_into rsp (slave ∷ []))

abbrev pub serve_request :
    {S : Type 0} → Service S → ℕ → Result Request IoError → S → Option (List ℕ) × S
serve_request service slave (err e) s = (none, s)
serve_request service slave (ok req) s =
    let (result, s') = service (some slave) req s in
    (reply slave (response_or_exception (request_function_code req) result), s')

abbrev pub serve_nonempty : {S : Type 0} → Service S → ℕ → List ℕ → S → Option (List ℕ) × S
serve_nonempty service slave [] s = (none, s)
serve_nonempty service slave (fc ∷ raw) s =
    serve_request service slave (request_of_bytes (fc ∷ raw)) s

-- `process_server_request`
unfoldable pub process_server_request :
    {S : Type 0} → List ℕ → ℕ → Service S → S → Option (List ℕ) × S
process_server_request raw slave service s =
    if slave == 0 then (none, s) else serve_nonempty service slave raw s

abbrev pub framed :
    (List ℕ → List ℕ → List ℕ) → Result (Unit {0}) IoError × List ℕ → Result (List ℕ) ModbusError
framed encode_fn (ok u, buf) = ok (encode_fn buf [])
framed encode_fn (err e, buf) = err ModbusError.protocol

-- `send_frame` up to the write: the bytes that are written, for the encoder of a transport.
unfoldable pub frame_request :
    (List ℕ → List ℕ → List ℕ) → ℕ → Request → Result (List ℕ) ModbusError
frame_request encode_fn slave req = framed encode_fn (encode_request_into req (slave ∷ []))

-- `Response::try_from(pdu).map_err(…)`
abbrev pub decoded : List ℕ → Result Response ModbusError
decoded pdu = map_err (λ e. ModbusError.protocol) (response_of_bytes pdu)
