-- ===== src/Rtu/Receive.antt =====
-- src/transport/rtu.rs: the receiving half of `RtuClient::send_recv`, over what its reads yield.
use oms_modbus.Base.{
  ℕ, ◌+◌, ◌≤◌, ◌≡◌, ◌≢◌, sym, ap, ◌∙◌, subst, List, [], ◌∷◌, ◌++◌, Option, none, some, Result, ok,
  err, length, arith, flatten, map, Result-cases, inl, inr,
}
use oms_modbus.Frame.Types.{Request, Response, request_function_code}
use oms_modbus.Frame.Wire.{IsRequest, response_layout, received}
use oms_modbus.Codec.{encode_rtu_frame}
use oms_modbus.Errors.{ModbusError}
use oms_modbus.Server.Process.{response_or_exception}
use oms_modbus.Store.Memory.{SlaveStore}
use oms_modbus.Store.Model.{Tables, respond}
use oms_modbus.Store.Service.{IsStore, view}
use oms_modbus.Store.Answers.{answer, length-answer, answer-IsResponse, view-IsTables}
use oms_modbus.Receive.{ReadOutcome, some_bytes, elapsed, read_at_least}
use oms_modbus.Receive.Whole.{read_at_least-pieces}
use oms_modbus.Rtu.{receive_target, expected_rtu_pdu_len, frame_target, rtu_response}
use oms_modbus.Rtu.Trip.{length-frame}
use oms_modbus.Rtu.Exchange.{expected_rtu_pdu_len-answer, rtu_response-layout}

abbrev pub validated :
    ℕ → Option (Result (List ℕ) ModbusError) → Option (Result Response ModbusError)
validated slave none = none
validated slave (some (ok buf)) = some (rtu_response slave buf)
validated slave (some (err e)) = some (err e)

-- The bytes up to the target, or up to the end of the time, are validated and decoded.
unfoldable pub rtu_receive : ℕ → Request → List ReadOutcome → Option (Result Response ModbusError)
unfolding receive_target read_at_least
rtu_receive slave req reads = validated slave (read_at_least (receive_target req) [] reads)

-- The shortest frame fits the target.
shortest : (req : Request) → IsRequest req → 5 ≤ receive_target req
unfolding receive_target expected_rtu_pdu_len
shortest (Request.read_coils a q) h = omega arith
shortest (Request.read_discrete_inputs a q) h = omega arith
shortest (Request.read_holding_registers a q) h = omega arith
shortest (Request.read_input_registers a q) h = omega arith
shortest (Request.write_single_coil a v) h = omega arith
shortest (Request.write_single_register a v) h = omega arith
shortest (Request.write_multiple_coils a vs) h = omega arith
shortest (Request.write_multiple_registers a vs) h = omega arith
shortest (Request.read_write_multiple_registers r q w vs) h = omega arith
shortest (Request.mask_write_register a m o) h = omega arith
shortest (Request.diagnostic s d) h = omega arith
shortest Request.disconnect h = omega arith

abbrev Fits : Request → Response → Type 0
Fits req rsp = length (response_layout rsp) + 3 ≤ receive_target req

-- The frame of the answer is no longer than the client waits for.
answer-Fits : (req : Request) (t : Tables) → IsRequest req → Fits req (answer req t)
unfolding receive_target
answer-Fits req t h = elim (Result-cases (respond req t)) [
  | inl (rsp, e) ↦
      let target = ap frame_target (expected_rtu_pdu_len-answer req t rsp h e) in
      subst (λ r. Fits req (response_or_exception (request_function_code req) r)) (sym e)
        (omega (arith, target))
  | inr (x, e) ↦
      subst (λ r. Fits req (response_or_exception (request_function_code req) r)) (sym e)
        (omega (arith, shortest req h))
]

-- An RTU client asked a slave for a request within the protocol's limits, and the frame of the answer that
-- the four tables of a `SlaveStore` in shape give, an exception included, is cut into reads in any way.
-- When the time is over behind them, or before it when the answer is as long as the client waits for, the
-- receiving half returns the answer, with the Booleans of a read padded.
pub rtu_receive-answer :
    (slave : ℕ) (req : Request) (s : SlaveStore) (chunks : List (List ℕ)) (later : List ReadOutcome)
    → IsRequest req
    → IsStore s
    → flatten chunks ≡ encode_rtu_frame (slave ∷ response_layout (answer req (view s))) []
    → rtu_receive slave req (map some_bytes chunks ++ (elapsed ∷ later))
      ≡ some (ok (received (answer req (view s))))
unfolding rtu_receive
rtu_receive-answer slave req s chunks later h store e =
    let rsp = answer req (view s) in
    let wire = encode_rtu_frame (slave ∷ response_layout rsp) [] in
    let size = length-frame (slave ∷ response_layout rsp) in
    let long_enough : length wire ≢ 0 = λ z. omega (arith, size, z) in
    ap (validated slave) (
      read_at_least-pieces (receive_target req) [] chunks later wire e
        (omega (arith, size, answer-Fits req (view s) h)) (λ z. long_enough (ap length z)))
    ∙ ap some (
        rtu_response-layout slave rsp (answer-IsResponse req (view s) h (view-IsTables s store))
          (length-answer req (view s) h).0)
