-- ===== src/Tcp/Trip.antt =====
-- src/transport/tcp.rs: frames that the encoder wrote, read back by the parser: alone, followed by
-- more bytes, and in the modes of the MBAP length field.
use oms_modbus.Base.{
  ℕ, suc, ◌+◌, ◌-◌, ◌/◌, ◌%◌, ◌^◌, ◌≤◌, ◌≡◌, ◌≢◌, refl, sym, ap, ◌∙◌, Bool, true, false, ◌&&◌, List,
  [], ◌∷◌, ◌++◌, some, ok, map_err, is_ok, length, take, get_or,
}
use oms_modbus.Base.{
  arith, ltb, leb, ◌==◌, ==-refl, append-nil, length-append, take-length, take-append_self,
}
use oms_modbus.Frame.Types.{Response, Request, is_known_function_code, max_pdu_size}
use oms_modbus.Frame.Wire.{IsRequest, request_layout, IsResponse, response_layout, received}
use oms_modbus.Frame.Decode.{request_of_bytes}
use oms_modbus.Frame.RequestTrip.{request_round_trip}
use oms_modbus.Store.Answers.{request_layout-known}
use oms_modbus.Errors.{ModbusError}
use oms_modbus.Server.Process.{decoded}
use oms_modbus.Frame.ResponseTrip.{response_of_bytes-layout}
use oms_modbus.Tcp.{
  tcp_response, tcp_decoded, TcpConfig, encode_tcp_frame, try_parse_tcp_frame, try_extract_tcp_pdu,
  u16_at, standard, gateway, LengthMode, is_complete,
}

-- The MBAP header and what follows it.
abbrev pub mbap : ℕ → ℕ → ℕ → List ℕ → List ℕ
mbap tid len unit_id body =
    (tid / 256) ∷ (tid % 256) ∷ 0 ∷ 0 ∷ (len / 256) ∷ (len % 256) ∷ unit_id ∷ body

module _ (tid len unit_id : ℕ) (body : List ℕ) where
  pub tid_at : u16_at (mbap tid len unit_id body) 0 ≡ tid
  unfolding u16_at
  tid_at = omega arith

  pub proto_at : u16_at (mbap tid len unit_id body) 2 ≡ 0
  unfolding u16_at
  proto_at = omega arith

  pub len_at : u16_at (mbap tid len unit_id body) 4 ≡ len
  unfolding u16_at
  len_at = omega arith

module _ (tid len unit_id : ℕ) (body : List ℕ) (small_len : len ≤ 260) where
  abbrev frame : List ℕ
  frame = mbap tid len unit_id body

  -- As many bytes as the length field says stand behind the unit id: they are the body.
  pub parse_first :
      1 ≤ len
      → len ≤ length body
      → try_parse_tcp_frame frame ≡ try_extract_tcp_pdu tid unit_id (take len body) (7 + len)
  unfolding try_parse_tcp_frame
  parse_first h k =
      let header : ltb (length (mbap tid len unit_id body)) 7 ≡ false = ground arith in
      let small : ltb 260 len ≡ false = ground arith in
      let whole : is_complete (mbap tid len unit_id body) (7 + len) ≡ true = ground arith in
      let size : 7 + len - 7 ≡ len = omega arith in
      rw
        (
          header,
          proto_at tid len unit_id body,
          len_at tid len unit_id body,
          tid_at tid len unit_id body,
          small,
          whole,
          size,
        )
        refl

  -- One byte fewer stands there: the length field counts the unit id too.
  pub parse_second :
      len ≡ length body + 1
      → 1 ≤ length body
      → try_parse_tcp_frame frame ≡ try_extract_tcp_pdu tid unit_id body (length body + 7)
  unfolding try_parse_tcp_frame
  parse_second h k =
      let header : ltb (length (mbap tid len unit_id body)) 7 ≡ false = ground arith in
      let small : ltb 260 len ≡ false = ground arith in
      let whole : is_complete (mbap tid len unit_id body) (7 + len) ≡ false = ground arith in
      let exact : is_complete (mbap tid len unit_id body) (6 + len) ≡ true = ground arith in
      let size : 6 + len - 7 ≡ length body = omega arith in
      let total : 6 + len ≡ length body + 7 = omega arith in
      rw
        (
          header,
          proto_at tid len unit_id body,
          len_at tid len unit_id body,
          tid_at tid len unit_id body,
          small,
          whole,
          exact,
          size,
          take-length body,
          total,
        )
        refl

never : (b : Bool) → (b && false) ≡ false
never b = ground arith

-- A body whose first byte is another than the unit id is the PDU.
pub extract_plain :
    (tid unit_id : ℕ) (body : List ℕ) (n : ℕ)
    → get_or body 0 0 ≢ unit_id
    → is_known_function_code (get_or body 0 0) ≡ true
    → try_extract_tcp_pdu tid unit_id body n ≡ some (tid, (unit_id, (body, n)))
unfolding try_extract_tcp_pdu
extract_plain tid unit_id body n ne known =
    let other : (get_or body 0 0 == unit_id) ≡ false = ground arith in
    rw (other, known, never (leb 2 (length body))) refl

-- A body that repeats the unit id before a request's PDU holds that PDU.
pub extract_repeated :
    (tid unit_id : ℕ) (pdu : List ℕ) (n : ℕ)
    → 1 ≤ length pdu
    → is_known_function_code (get_or pdu 0 0) ≡ true
    → is_ok (request_of_bytes pdu) ≡ true
    → try_extract_tcp_pdu tid unit_id (unit_id ∷ pdu) n ≡ some (tid, (unit_id, (pdu, n)))
unfolding try_extract_tcp_pdu
extract_repeated tid unit_id pdu n h known good =
    let long : leb 2 (suc (length pdu)) ≡ true = ground arith in
    rw (long, ==-refl unit_id, known, good) refl

take_one_more :
    (pdu : List ℕ) (x : ℕ) (rest : List ℕ)
    → take (length pdu + 1) (pdu ++ (x ∷ rest)) ≡ pdu ++ (x ∷ [])
take_one_more [] x rest = refl
take_one_more (y ∷ pdu) x rest =
    let step : suc (length pdu) + 1 ≡ suc (length pdu + 1) = omega arith in
    rw step (ap (λ t. y ∷ t) (take_one_more pdu x rest))

first_kept : (pdu ys : List ℕ) → 1 ≤ length pdu → get_or (pdu ++ ys) 0 0 ≡ get_or pdu 0 0
first_kept [] ys h = absurd (omega arith)
first_kept (y ∷ pdu) ys h = refl

-- A frame in the standard mode, for a PDU of a known function code that is not the unit id, up to 259
-- bytes: read alone, it is the PDU, with the transaction id and the unit id that were sent, and is used up.
pub try_parse_tcp_frame_round_trip :
    (tid slave : ℕ) (pdu : List ℕ)
    → 1 ≤ length pdu
    → length pdu ≤ 259
    → get_or pdu 0 0 ≢ slave
    → is_known_function_code (get_or pdu 0 0) ≡ true
    → try_parse_tcp_frame (encode_tcp_frame standard tid (slave ∷ pdu) [])
      ≡ some (tid, (slave, (pdu, length (encode_tcp_frame standard tid (slave ∷ pdu) []))))
unfolding encode_tcp_frame
try_parse_tcp_frame_round_trip tid slave pdu h k ne known =
    let n = length pdu in
    let len : (n % 2 ^ 16 + 1 + 0) % 2 ^ 16 ≡ n + 1 = omega arith in
    rw len (
      parse_second tid (n + 1) slave pdu (omega arith) refl h
      ∙ extract_plain tid slave pdu (n + 7) ne known
      ∙ ap (λ c. some (tid, (slave, (pdu, c)))) (omega arith))

-- A frame in the standard mode, for a PDU of a known function code that is not the unit id, up to 259
-- bytes, followed by at least one more byte: the parser takes that byte into the PDU and uses it up too.
pub try_parse_tcp_frame_swallows :
    (tid slave x : ℕ) (pdu rest : List ℕ)
    → 1 ≤ length pdu
    → length pdu ≤ 259
    → get_or pdu 0 0 ≢ slave
    → is_known_function_code (get_or pdu 0 0) ≡ true
    → try_parse_tcp_frame (encode_tcp_frame standard tid (slave ∷ pdu) [] ++ (x ∷ rest))
      ≡ some (
        tid,
        (slave, (pdu ++ (x ∷ []), length (encode_tcp_frame standard tid (slave ∷ pdu) []) + 1)),
      )
unfolding encode_tcp_frame
try_parse_tcp_frame_swallows tid slave x pdu rest h k ne known =
    let n = length pdu in
    let len : (n % 2 ^ 16 + 1 + 0) % 2 ^ 16 ≡ n + 1 = omega arith in
    let body = pdu ++ (x ∷ rest) in
    let one_more : take (n + 1) body ≡ pdu ++ (x ∷ []) = take_one_more pdu x rest in
    rw len (
      parse_first tid (n + 1) slave body (omega arith) (omega arith)
        (omega (arith, length-append pdu (x ∷ rest)))
      ∙ ap (λ b. try_extract_tcp_pdu tid slave b (7 + (n + 1))) one_more
      ∙ extract_plain tid slave (pdu ++ (x ∷ [])) (7 + (n + 1))
          (λ e. ne (sym (first_kept pdu (x ∷ []) h) ∙ e))
          (ap is_known_function_code (first_kept pdu (x ∷ []) h) ∙ known)
      ∙ ap (λ c. some (tid, (slave, (pdu ++ (x ∷ []), c)))) (omega arith))

-- A frame whose length field counts the PDU alone, without a second unit id, for a PDU of a known
-- function code that is not the unit id, up to 260 bytes: whatever follows it, it is the PDU, and is used up.
pub try_parse_tcp_frame_pdu_only :
    (config : TcpConfig) (tid slave : ℕ) (pdu rest : List ℕ)
    → config.unit_id_in_body ≡ false
    → config.length_mode ≡ LengthMode.pdu_only
    → 1 ≤ length pdu
    → length pdu ≤ 260
    → get_or pdu 0 0 ≢ slave
    → is_known_function_code (get_or pdu 0 0) ≡ true
    → try_parse_tcp_frame (encode_tcp_frame config tid (slave ∷ pdu) [] ++ rest)
      ≡ some (tid, (slave, (pdu, length (encode_tcp_frame config tid (slave ∷ pdu) []))))
unfolding encode_tcp_frame
try_parse_tcp_frame_pdu_only config tid slave pdu rest one_unit only h k ne known =
    let n = length pdu in
    let len : (n % 2 ^ 16 + 0) % 2 ^ 16 ≡ n = omega arith in
    rw (one_unit, only, len)
      (parse_first tid n slave (pdu ++ rest) k h (omega (arith, length-append pdu rest))
        ∙ ap (λ b. try_extract_tcp_pdu tid slave b (7 + n)) (take-append_self pdu rest)
        ∙ extract_plain tid slave pdu (7 + n) ne known
        ∙ ap (λ c. some (tid, (slave, (pdu, c)))) (omega arith))

-- The frame of a gateway, the unit id before the PDU, for a request within the protocol's limits: read
-- alone, it is the PDU, where that takes at most 253 bytes.
pub try_parse_tcp_frame-gateway :
    (tid slave : ℕ) (req : Request)
    → IsRequest req
    → length (request_layout req) ≤ max_pdu_size
    → try_parse_tcp_frame (encode_tcp_frame gateway tid (slave ∷ request_layout req) [])
      ≡ some (
        tid,
        (
          slave,
          (
            request_layout req,
            length (encode_tcp_frame gateway tid (slave ∷ request_layout req) []),
          ),
        ),
      )
unfolding encode_tcp_frame
try_parse_tcp_frame-gateway tid slave req h fits =
    let pdu = request_layout req in
    let n = length pdu in
    let len : (n % 2 ^ 16 + 1 + 1) % 2 ^ 16 ≡ n + 2 = omega arith in
    let (two, known) = request_layout-known req h in
    let read : request_of_bytes pdu ≡ ok req =
      ap request_of_bytes (sym (append-nil pdu)) ∙ (request_round_trip req [] h fits).1 in
    rw len (
      parse_second tid (n + 2) slave (slave ∷ pdu) (omega arith) (omega arith) (omega arith)
      ∙ extract_repeated tid slave pdu (suc n + 7) (omega arith) known (ap is_ok read)
      ∙ ap (λ c. some (tid, (slave, (pdu, c)))) (omega arith))

-- A frame in the standard mode, read alone, whose PDU of at most 259 bytes starts with a function code that
-- equals the unit id, and whose further bytes, a known function code first, would be a request by
-- themselves: the parser takes those bytes for the PDU.
pub try_parse_tcp_frame_misread :
    (tid slave : ℕ) (inner : List ℕ)
    → 1 ≤ length inner
    → length inner ≤ 258
    → is_known_function_code (get_or inner 0 0) ≡ true
    → is_ok (request_of_bytes inner) ≡ true
    → try_parse_tcp_frame (encode_tcp_frame standard tid (slave ∷ slave ∷ inner) [])
      ≡ some
          (tid, (slave, (inner, length (encode_tcp_frame standard tid (slave ∷ slave ∷ inner) []))))
unfolding encode_tcp_frame
try_parse_tcp_frame_misread tid slave inner h k known good =
    let n = length inner in
    let len : (suc n % 2 ^ 16 + 1 + 0) % 2 ^ 16 ≡ n + 2 = omega arith in
    rw len (
      parse_second tid (n + 2) slave (slave ∷ inner) (omega arith) (omega arith) (omega arith)
      ∙ extract_repeated tid slave inner (suc n + 7) h known good
      ∙ ap (λ c. some (tid, (slave, (inner, c)))) (omega arith))

standard-decoded :
    (asked : ℕ) (pdu : List ℕ) → 1 ≤ length pdu → tcp_decoded standard asked pdu ≡ decoded pdu
standard-decoded asked [] h = absurd (omega arith)
standard-decoded asked (b ∷ pdu) h = refl

standard_decodes :
    (asked : ℕ) (rsp : Response)
    → IsResponse rsp
    → 1 ≤ length (response_layout rsp)
    → tcp_decoded standard asked (response_layout rsp) ≡ ok (received rsp)
standard_decodes asked rsp h some_ =
    standard-decoded asked (response_layout rsp) some_
    ∙ ap decoded (sym (append-nil (response_layout rsp)))
    ∙ ap (map_err (λ e. ModbusError.protocol)) (response_of_bytes-layout rsp [] h)

-- The client in the standard mode, when it read the frame of a response in shape whose PDU takes
-- from 1 to 259 bytes and nothing more, gets the response back; the Booleans of a read are
-- padded.
pub tcp_response_round_trip :
    (tid slave asked : ℕ) (rsp : Response)
    → IsResponse rsp
    → 1 ≤ length (response_layout rsp)
    → length (response_layout rsp) ≤ 259
    → tcp_response standard asked (encode_tcp_frame standard tid (slave ∷ response_layout rsp) [])
      ≡ ok (received rsp)
unfolding tcp_response encode_tcp_frame
tcp_response_round_trip tid slave asked rsp h some_ k =
    let body = response_layout rsp in
    let n = length body in
    let len : (n % 2 ^ 16 + 1 + 0) % 2 ^ 16 ≡ n + 1 = omega arith in
    let header : ltb (length (mbap tid (n + 1) slave body)) 7 ≡ false = ground arith in
    let small : ltb 260 (n + 1) ≡ false = ground arith in
    let whole : leb (7 + (n + 1)) (length (mbap tid (n + 1) slave body)) ≡ false = ground arith in
    let exact : leb (6 + (n + 1)) (length (mbap tid (n + 1) slave body)) ≡ true = ground arith in
    let size : 6 + (n + 1) - 7 ≡ n = omega arith in
    rw
      (
        len,
        header,
        proto_at tid (n + 1) slave body,
        len_at tid (n + 1) slave body,
        small,
        whole,
        exact,
        size,
        take-length body,
      )
      (standard_decodes asked rsp h some_)
