-- ===== src/Rtu/Call.antt =====
-- src/transport/rtu.rs: the whole of `RtuClient::send_recv`, over what the reads of its drain and of its
-- receiving half yield; its spacing of frames is Sniff's, and a write that fails is left out.
use oms_modbus.Base.{
  ℕ, ◌≡◌, ◌≢◌, ◌≤◌, refl, List, [], ◌∷◌, ◌++◌, Option, none, some, Result, ok, err, length, flatten,
  map,
}
use oms_modbus.Frame.Types.{Request, Response, max_pdu_size}
use oms_modbus.Frame.Wire.{IsRequest, request_layout, response_layout, received}
use oms_modbus.Codec.{encode_rtu_frame}
use oms_modbus.Errors.{ModbusError}
use oms_modbus.Server.Laws.{store_service}
use oms_modbus.Store.Memory.{SlaveStore, call}
use oms_modbus.Store.Service.{IsStore, view, call_refines, call-IsStore}
use oms_modbus.Store.Model.{change}
use oms_modbus.Store.Answers.{answer}
use oms_modbus.Receive.{ReadOutcome, some_bytes, elapsed, DrainRead, drain_stale_data}
use oms_modbus.Rtu.{Event, serve_event, rtu_request}
use oms_modbus.Rtu.Exchange.{rtu_request-layout, serve-request}
use oms_modbus.Rtu.Receive.{rtu_receive, rtu_receive-answer}

-- What is returned behind the frames that were sent.
abbrev pub sent_first :
    List (List ℕ)
    → Option (Result Response ModbusError)
    → Option (List (List ℕ) × Result Response ModbusError)
sent_first frames none = none
sent_first frames (some result) = some (frames, result)

-- Sending and receiving, behind a drain.
unfoldable pub send_then_receive :
    ℕ
    → Request
    → List ReadOutcome
    → Result (List ℕ) ModbusError
    → Option (List (List ℕ) × Result Response ModbusError)
unfolding rtu_receive
send_then_receive slave req reads (ok frame) = sent_first (frame ∷ []) (rtu_receive slave req reads)
send_then_receive slave req reads (err e) = some ([], err e)

unfoldable pub drained_first :
    ℕ
    → Request
    → List ReadOutcome
    → Option (Result (Unit {0}) ModbusError)
    → Option (List (List ℕ) × Result Response ModbusError)
unfolding send_then_receive rtu_request
drained_first slave req reads none = none
drained_first slave req reads (some (err e)) = some ([], err e)
drained_first slave req reads (some (ok done)) =
    send_then_receive slave req reads (rtu_request slave req)

-- The frames sent and the result; `none` where the code still waits for a read.
unfoldable pub rtu_send_recv :
    ℕ
    → Request
    → List DrainRead
    → List ReadOutcome
    → Option (List (List ℕ) × Result Response ModbusError)
unfolding drained_first drain_stale_data
rtu_send_recv slave req drains reads = drained_first slave req reads (drain_stale_data drains)

-- `RtuClient::send_recv` for a slave id other than 0 and a request within the protocol's limits, whose PDU
-- takes at most 253 bytes, where the drain finds the line quiet, and a server before a `SlaveStore` in
-- shape, its buffer empty: the client sends one frame; on it the server sends the frame of the answer that
-- the four tables give, empties its buffer and is left with a store in shape that stands for the tables as the
-- request changes them; and however that frame is cut into the client's reads, with its time over behind
-- them, the client returns that answer, with the Booleans of a read padded.
pub rtu_send_recv-serve_event :
    (slave : ℕ) (req : Request) (s : SlaveStore) (drains : List DrainRead) (chunks : List (List ℕ))
    (later : List ReadOutcome)
    → slave ≢ 0
    → IsRequest req
    → length (request_layout req) ≤ max_pdu_size
    → IsStore s
    → drain_stale_data drains ≡ some (ok tt)
    → flatten chunks ≡ encode_rtu_frame (slave ∷ response_layout (answer req (view s))) []
    → (sent : List ℕ) × (after : SlaveStore) × (serve_event store_service
          (Event.received sent)
          (record { buffer = []; service_state = s })
        ≡ some (flatten chunks ∷ [], record { buffer = []; service_state = after }))
      × IsStore after
      × (view after ≡ change req (view s))
      × (rtu_send_recv slave req drains (map some_bytes chunks ++ (elapsed ∷ later))
          ≡ some (sent ∷ [], ok (received (answer req (view s)))))
unfolding rtu_send_recv
rtu_send_recv-serve_event slave req s drains chunks later ne h fits store quiet cut = (
  encode_rtu_frame (slave ∷ request_layout req) [],
  (call req s).1,
  rw cut (serve-request slave req s ne h fits),
  call-IsStore req s h store,
  (call_refines req s store).1,
  rw
      (
        quiet,
        rtu_request-layout slave req h fits,
        rtu_receive-answer slave req s chunks later h store cut,
      )
      refl,
)
