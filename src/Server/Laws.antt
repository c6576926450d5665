-- ===== src/Server/Laws.antt =====
-- src/transport/send_recv.rs and src/server.rs: broadcasts, undecodable requests, the store behind
-- the request processor, and hooks.
use oms_modbus.Base.{
  ℕ, ◌≡◌, ◌≢◌, refl, sym, ap, ◌∙◌, append-nil, List, [], ◌∷◌, Option, none, some, ok, All, length,
  ◌≤◌, arith,
}
use oms_modbus.Base.{Result-cases, inl, inr, ◌==◌, false, Bool-cases}
use oms_modbus.Frame.Types.{Request, Response, request_function_code, max_pdu_size}
use oms_modbus.Frame.Wire.{IsByte, IsRequest, request_layout, response_layout}
use oms_modbus.Frame.Decode.{request_of_bytes}
use oms_modbus.Frame.RequestTrip.{request_round_trip}
use oms_modbus.Frame.RequestSound.{request_of_bytes-IsRequest}
use oms_modbus.Frame.ResponseTrip.{encode_response_fits}
use oms_modbus.Server.{Service, default_hook, hooked_call}
use oms_modbus.Server.Process.{
  process_server_request, serve_request, serve_nonempty, reply, response_or_exception,
}
use oms_modbus.Store.Memory.{SlaveStore, call}
use oms_modbus.Store.Service.{IsStore, call-IsStore}

-- A broadcast is not answered and does not reach the service: whatever the request, the state stays
-- as it was.
pub process_broadcast :
    {S : Type 0} (raw : List ℕ) (service : Service S) (s : S)
    → process_server_request raw 0 service s ≡ (none, s)
unfolding process_server_request
process_broadcast raw service s = refl

pub addressed :
    {S : Type 0} (raw : List ℕ) (slave : ℕ) (service : Service S) (s : S)
    → slave ≢ 0
    → process_server_request raw slave service s ≡ serve_nonempty service slave raw s
unfolding process_server_request
addressed raw slave service s h = let other : (slave == 0) ≡ false = ground arith in rw other refl

-- A response whose PDU takes at most 253 bytes goes behind the slave id.
pub reply_fits :
    (slave : ℕ) (rsp : Response)
    → length (response_layout rsp) ≤ max_pdu_size
    → reply slave rsp ≡ some (slave ∷ response_layout rsp)
unfolding reply
reply_fits slave rsp h = rw (encode_response_fits rsp (slave ∷ []) h) refl

-- The service that a `SlaveStore` is: it does not look at the slave id.
abbrev pub store_service : Service SlaveStore
store_service ctx req s = call req s

serve_decoded :
    {S : Type 0} (service : Service S) (slave : ℕ) (raw : List ℕ) (req : Request) (s : S)
    → request_of_bytes raw ≡ ok req
    → serve_nonempty service slave raw s ≡ serve_request service slave (ok req) s
unfolding request_of_bytes
serve_decoded service slave [] req s e = absurd (cc)
serve_decoded service slave (fc ∷ raw) req s e = ap (λ r. serve_request service slave r s) e

-- A request within the protocol's limits for a slave id other than 0, in the bytes of its layout,
-- at most 253, is handed to the service once; the service's response, or the exception with the
-- request's function code, follows the slave id in the answer, if its PDU takes at most 253
-- bytes.
pub process_valid :
    {S : Type 0} (slave : ℕ) (req : Request) (service : Service S) (s : S)
    → slave ≢ 0
    → IsRequest req
    → length (request_layout req) ≤ max_pdu_size
    → length (
        response_layout
          (response_or_exception (request_function_code req) (service (some slave) req s).0))
      ≤ max_pdu_size
    → process_server_request (request_layout req) slave service s ≡ (
      some (
          slave
          ∷ response_layout
              (response_or_exception (request_function_code req) (service (some slave) req s).0)),
      (service (some slave) req s).1,
    )
process_valid slave req service s h valid fits short =
    let outcome = service (some slave) req s in
    let rsp = response_or_exception (request_function_code req) outcome.0 in
    let read : request_of_bytes (request_layout req) ≡ ok req =
      ap request_of_bytes (sym (append-nil (request_layout req)))
      ∙ (request_round_trip req [] valid fits).1 in
    addressed (request_layout req) slave service s h
    ∙ serve_decoded service slave (request_layout req) req s read
    ∙ ap (λ r. (r, outcome.1)) (reply_fits slave rsp short)

serve_nonempty-IsStore :
    (slave : ℕ) (raw : List ℕ) (s : SlaveStore)
    → All IsByte raw
    → IsStore s
    → IsStore (serve_nonempty store_service slave raw s).1
serve_nonempty-IsStore slave [] s bytes h = h
serve_nonempty-IsStore slave (fc ∷ raw) s bytes h =
    elim (Result-cases (request_of_bytes (fc ∷ raw))) [
      | inl (req, e) ↦
          rw e (call-IsStore req s (request_of_bytes-IsRequest (fc ∷ raw) req bytes e) h)
      | inr (x, e) ↦ rw e h
    ]

-- Whatever bytes arrive, for whatever slave id: a `SlaveStore` in shape stays in shape, its
-- vectors made of bytes and 16-bit words and within the addresses.
pub process_server_request-IsStore :
    (raw : List ℕ) (slave : ℕ) (s : SlaveStore)
    → All IsByte raw
    → IsStore s
    → IsStore (process_server_request raw slave store_service s).1
unfolding process_server_request
process_server_request-IsStore raw slave s bytes h = elim (Bool-cases (slave == 0)) [
  | inl e ↦ rw e h
  | inr e ↦ rw e (serve_nonempty-IsStore slave raw s bytes h)
]

-- A service behind the default hook answers and changes its state as it does alone, and the hook's
-- own state stays.
pub hooked_call-default_hook :
    {S H : Type 0} (service : Service S) (ctx : Option ℕ) (req : Request) (s : S) (h : H)
    → hooked_call service default_hook ctx req (s, h)
      ≡ ((service ctx req s).0, ((service ctx req s).1, h))
unfolding hooked_call default_hook
hooked_call-default_hook service ctx req s h = refl
