-- ===== src/Rtu/Exchange.antt =====
-- src/transport/rtu.rs: a call of the RTU client against the RTU server before a `SlaveStore`, from the
-- request to the response.
use oms_modbus.Base.{
  ℕ, suc, ◌+◌, ◌*◌, ◌≤◌, ◌≡◌, ◌≢◌, ◌-◌, subst, refl, ap, sym, ◌∙◌, arith, false, some,
}
use oms_modbus.Base.{
  inl, inr, List, [], ◌∷◌, ok, err, Result, map_err, length, div_ceil, append-nil, ltb,
}
use oms_modbus.Frame.Types.{Request, Response, Exception, max_pdu_size, request_function_code}
use oms_modbus.Frame.Wire.{IsRequest, IsResponse, request_layout, response_layout, received}
use oms_modbus.Frame.Bits.{length-pack_bits}
use oms_modbus.Frame.Words.{length-u16_bytes}
use oms_modbus.Frame.Encode.{u16_bytes}
use oms_modbus.Frame.RequestTrip.{encode_request_into_lem}
use oms_modbus.Frame.ResponseTrip.{response_of_bytes-layout}
use oms_modbus.Frame.Decode.{response_of_bytes}
use oms_modbus.Codec.{encode_rtu_frame}
use oms_modbus.Errors.{ModbusError}
use oms_modbus.Server.Process.{response_or_exception, process_server_request, frame_request}
use oms_modbus.Server.Laws.{store_service, process_valid}
use oms_modbus.Store.Memory.{SlaveStore, call}
use oms_modbus.Store.Model.{Tables, respond, change, window}
use oms_modbus.Store.Service.{IsStore, view, call_responds, call_refines}
use oms_modbus.Store.Answers.{
  answer, length-answer, answer-IsResponse, view-IsTables, request_layout-known, length-window,
  diagnose-cases,
}
use oms_modbus.Rtu.{
  expected_rtu_pdu_len, RtuServer, serve_event, parse_loop, rtu_request, rtu_response, rtu_frames,
  Event,
}
use oms_modbus.Rtu.Trip.{length-frame, try_parse_server_rtu_round_trip, rtu_response_round_trip}
use oms_modbus.Rtu.Serve.{loop-frame}

ok_injective : (a b : Response) → ◌≡◌ {A = Result Response Exception} (ok a) (ok b) → a ≡ b
ok_injective a b e = cc

err-ne-ok : {x : Exception} {r : Response} → ◌≢◌ {A = Result Response Exception} (err x) (ok r)
err-ne-ok e = cc

sized :
    (n : ℕ) (a b : Response)
    → ◌≡◌ {A = Result Response Exception} (ok a) (ok b)
    → n ≡ length (response_layout a)
    → some n ≡ some (length (response_layout b))
sized n a b e size = ap some (size ∙ ap (λ r. length (response_layout r)) (ok_injective a b e))

length-read : (f : ℕ → ℕ) (a n : ℕ) → 2 + n * 2 ≡ suc (suc (length (u16_bytes (window f a n))))
length-read f a n = omega (arith, length-window f a n, length-u16_bytes (window f a n))

pub expected_rtu_pdu_len-answer :
    (req : Request) (t : Tables) (rsp : Response)
    → IsRequest req
    → respond req t ≡ ok rsp
    → expected_rtu_pdu_len req ≡ some (length (response_layout rsp))
unfolding expected_rtu_pdu_len
expected_rtu_pdu_len-answer (Request.read_coils a n) t rsp h e =
    sized (2 + div_ceil n 8) _ rsp e
      (omega (arith, length-window t.coil a n, length-pack_bits (window t.coil a n)))
expected_rtu_pdu_len-answer (Request.read_discrete_inputs a n) t rsp h e =
    sized (2 + div_ceil n 8) _ rsp e (
      omega
        (arith, length-window t.discrete_input a n, length-pack_bits (window t.discrete_input a n)))
expected_rtu_pdu_len-answer (Request.read_holding_registers a n) t rsp h e =
    sized (2 + n * 2) _ rsp e (length-read t.holding a n)
expected_rtu_pdu_len-answer (Request.read_input_registers a n) t rsp h e =
    sized (2 + n * 2) _ rsp e (length-read t.input a n)
expected_rtu_pdu_len-answer (Request.write_single_coil a v) t rsp h e = sized 5 _ rsp e refl
expected_rtu_pdu_len-answer (Request.write_single_register a v) t rsp h e = sized 5 _ rsp e refl
expected_rtu_pdu_len-answer (Request.write_multiple_coils a vs) t rsp h e = sized 5 _ rsp e refl
expected_rtu_pdu_len-answer (Request.write_multiple_registers a vs) t rsp h e = sized 5 _ rsp e refl
expected_rtu_pdu_len-answer (Request.mask_write_register a m o) t rsp h e = sized 7 _ rsp e refl
expected_rtu_pdu_len-answer (Request.read_write_multiple_registers r q w vs) t rsp h e =
    sized (2 + q * 2) _ rsp e (length-read t.holding r q)
expected_rtu_pdu_len-answer (Request.diagnostic sf d) t rsp h e = elim (diagnose-cases sf d) [
  | inl (x, (good, le)) ↦ sized 5 _ rsp (sym good ∙ e) refl
  | inr bad ↦ absurd (err-ne-ok (sym bad ∙ e))
]
expected_rtu_pdu_len-answer Request.disconnect t rsp h e = absurd h

-- The RTU client waits for as many bytes as the response of the store takes, for every request
-- within the protocol's limits that is not answered by an exception.
pub expected_rtu_pdu_len-call :
    (req : Request) (s : SlaveStore) (rsp : Response)
    → IsRequest req
    → (call req s).0 ≡ ok rsp
    → expected_rtu_pdu_len req ≡ some (length (response_layout rsp))
expected_rtu_pdu_len-call req s rsp h e =
    expected_rtu_pdu_len-answer req (view s) rsp h (sym (call_responds req s) ∙ e)

-- A request within the protocol's limits goes out as a frame around its layout.
pub rtu_request-layout :
    (slave : ℕ) (req : Request)
    → IsRequest req
    → length (request_layout req) ≤ max_pdu_size
    → rtu_request slave req ≡ ok (encode_rtu_frame (slave ∷ request_layout req) [])
unfolding rtu_request frame_request
rtu_request-layout slave req h fits =
    let small : ltb max_pdu_size (length (request_layout req)) ≡ false = ground arith in
    rw (encode_request_into_lem req (slave ∷ []) h, small) refl

-- The client takes the answer of the slave that it asked out of the answer's frame.
pub rtu_response-layout :
    (slave : ℕ) (rsp : Response)
    → IsResponse rsp
    → 2 ≤ length (response_layout rsp)
    → rtu_response slave (encode_rtu_frame (slave ∷ response_layout rsp) []) ≡ ok (received rsp)
rtu_response-layout slave rsp h two =
    rtu_response_round_trip slave (response_layout rsp) two
    ∙ ap (map_err (λ e. ModbusError.protocol)) (
        ap response_of_bytes (sym (append-nil (response_layout rsp)))
        ∙ response_of_bytes-layout rsp [] h)

pub processed :
    (slave : ℕ) (req : Request) (s : SlaveStore)
    → slave ≢ 0
    → IsRequest req
    → length (request_layout req) ≤ max_pdu_size
    → process_server_request (request_layout req) slave store_service s
      ≡ (some (slave ∷ response_layout (answer req (view s))), (call req s).1)
processed slave req s ne h fits =
    let same = ap (response_or_exception (request_function_code req)) (call_responds req s) in
    process_valid slave req store_service s ne h fits (
      subst (λ r. length (response_layout r) ≤ max_pdu_size) (sym same)
        (length-answer req (view s) h).1)
    ∙ ap (λ r. (some (slave ∷ response_layout r), (call req s).1)) same

-- The server before a `SlaveStore`, its buffer empty, answers the client's frame with one frame, and
-- the store changes as it does on the request.
pub serve-request :
    (slave : ℕ) (req : Request) (s : SlaveStore)
    → slave ≢ 0
    → IsRequest req
    → length (request_layout req) ≤ max_pdu_size
    → serve_event store_service
        (Event.received (encode_rtu_frame (slave ∷ request_layout req) []))
        (record { buffer = []; service_state = s })
      ≡ some (
        encode_rtu_frame (slave ∷ response_layout (answer req (view s))) [] ∷ [],
        record { buffer = []; service_state = (call req s).1 },
      )
unfolding serve_event
serve-request slave req s ne h fits =
    let pdu = request_layout req in
    let wire = encode_rtu_frame (slave ∷ pdu) [] in
    let server : RtuServer SlaveStore = record { buffer = wire; service_state = s } in
    let (two, known) = request_layout-known req h in
    let size : length wire ≡ suc (length wire - 1) = omega (arith, length-frame (slave ∷ pdu)) in
    let whole : length pdu + 3 ≡ length wire = omega (arith, length-frame (slave ∷ pdu)) in
    ap (λ n. parse_loop (suc n) store_service server) size
    ∙ loop-frame store_service (length wire - 1) slave pdu server (
        try_parse_server_rtu_round_trip slave pdu two known
        ∙ ap (λ n. some (slave, (pdu, n))) whole)
    ∙ ap (λ r. some (rtu_frames r.0, record { buffer = []; service_state = r.1 }))
        (processed slave req s ne h fits)

-- A call of the RTU client for a slave id other than 0 and a request within the protocol's
-- limits, whose PDU takes at most 253 bytes, against a server before a `SlaveStore` in shape, its
-- buffer empty: the request goes out as one frame, the server answers it with one frame and
-- changes the store as `call` does, which is the change that the request makes to the four tables, and the
-- client gets the answer that the four tables give, with the Booleans of a read padded.
pub rtu_exchange :
    (slave : ℕ) (req : Request) (s : SlaveStore)
    → slave ≢ 0
    → IsRequest req
    → length (request_layout req) ≤ max_pdu_size
    → IsStore s
    → (sent : List ℕ) × (back : List ℕ) × (rtu_request slave req ≡ ok sent)
      × (serve_event store_service (Event.received sent) (record { buffer = []; service_state = s })
          ≡ some (back ∷ [], record { buffer = []; service_state = (call req s).1 }))
      × (rtu_response slave back ≡ ok (received (answer req (view s))))
      × (view (call req s).1 ≡ change req (view s))
rtu_exchange slave req s ne h fits store = (
  encode_rtu_frame (slave ∷ request_layout req) [],
  encode_rtu_frame (slave ∷ response_layout (answer req (view s))) [],
  rtu_request-layout slave req h fits,
  serve-request slave req s ne h fits,
  rtu_response-layout slave (answer req (view s))
      (answer-IsResponse req (view s) h (view-IsTables s store)) (length-answer req (view s) h).0,
  (call_refines req s store).1,
)
