-- ===== src/Client/Loopback.antt =====
-- src/client.rs over src/transport/rtu.rs: the client's methods on a line to a server before a
-- `SlaveStore` that loses and changes nothing.
use oms_modbus.Base.{
  ℕ, suc, ◌+◌, ◌-◌, ◌%◌, ◌^◌, ◌≤◌, ◌<◌, ◌≡◌, ◌≢◌, refl, ap, ap₂, ◌∙◌, arith, true, Option, none,
  some,
}
use oms_modbus.Base.{
  List, [], ◌∷◌, ok, err, Result, length, get_or, All, ◌==◌, leb, ltb, ==-refl, ◌&&◌,
}
use oms_modbus.Frame.Types.{Request, Response, max_pdu_size, max_registers, max_coils}
use oms_modbus.Frame.Wire.{IsU16, IsRequest, IsRange, request_layout, received, padded}
use oms_modbus.Frame.Words.{length-u16_bytes}
use oms_modbus.Errors.{ModbusError}
use oms_modbus.Server.Laws.{store_service}
use oms_modbus.Store.Memory.{SlaveStore, call}
use oms_modbus.Store.Model.{Tables, window, overlay}
use oms_modbus.Store.Service.{IsStore, view, call_changes, call-IsStore}
use oms_modbus.Store.Answers.{answer}
use oms_modbus.Rtu.{RtuServer, serve_event, rtu_request, rtu_response}
use oms_modbus.Rtu.Exchange.{rtu_exchange}
use oms_modbus.Client.{
  Call, read_coils, read_holding_registers, write_multiple_registers, holding_registers_of,
  registers_written, coils_of,
}

-- The client's side after the server's round: the one frame that came back, or the silence.
abbrev received_frames :
    ℕ
    → SlaveStore
    → Option (List (List ℕ) × RtuServer SlaveStore)
    → Result Response ModbusError × SlaveStore
received_frames slave s none = (err ModbusError.timeout, s)
received_frames slave s (some ([], server)) = (err ModbusError.timeout, server.service_state)
received_frames slave s (some (back ∷ more, server)) =
    (rtu_response slave back, server.service_state)

abbrev carried :
    ℕ → SlaveStore → Result (List ℕ) ModbusError → Result Response ModbusError × SlaveStore
carried slave s (err e) = (err e, s)
carried slave s (ok sent) = received_frames slave s (
    serve_event store_service (oms_modbus.Rtu.received sent)
      (record { buffer = []; service_state = s }))

-- A call over the line.
unfoldable pub loopback : Call SlaveStore
loopback slave req s = carried slave s (rtu_request slave req)

-- A call for a request within the protocol's limits whose PDU takes at most 253 bytes.
module _ (slave : ℕ) (ne : slave ≢ 0) where
  pub loopback_answers :
      (req : Request) (s : SlaveStore)
      → IsRequest req
      → length (request_layout req) ≤ max_pdu_size
      → IsStore s
      → loopback slave req s ≡ (ok (received (answer req (view s))), (call req s).1)
  unfolding loopback
  loopback_answers req s h fits store =
      let (sent, back, out, served, response, changed) = rtu_exchange slave req s ne h fits store in
      ap (carried slave s) out
      ∙ ap (received_frames slave s) served
      ∙ ap (λ r. (r, (call req s).1)) response

  -- Reading holding registers over the line gives the values at the addresses asked for, and changes
  -- nothing.
  pub read_holding_registers-window :
      (a n : ℕ) (s : SlaveStore)
      → IsRange max_registers a n
      → IsStore s
      → read_holding_registers loopback slave a n s ≡ (ok (window (view s).holding a n), s)
  unfolding read_holding_registers
  read_holding_registers-window a n s h store =
      rw (loopback_answers (Request.read_holding_registers a n) s h (omega arith) store)
        (unfold holding_registers_of in unfold call in refl)

  -- Reading coils over the line, for a slave id other than 0, a quantity that the protocol allows and a
  -- store in shape, gives the bits at the addresses asked for, followed by false up to a multiple of eight, and
  -- changes nothing.
  pub read_coils-window :
      (a n : ℕ) (s : SlaveStore)
      → IsRange max_coils a n
      → IsStore s
      → read_coils loopback slave a n s ≡ (ok (padded (window (view s).coil a n)), s)
  unfolding read_coils
  read_coils-window a n s h store =
      rw (loopback_answers (Request.read_coils a n) s h (omega arith) store)
        (unfold coils_of in unfold call in refl)

  -- Writing registers over the line, at most 123 of them, succeeds and changes the store as the
  -- request demands.
  pub write_multiple_registers-writes :
      (a : ℕ) (vs : List ℕ) (s : SlaveStore)
      → IsRange 123 a (length vs)
      → All IsU16 vs
      → IsStore s
      → write_multiple_registers loopback slave a vs s
        ≡ (ok tt, (call (Request.write_multiple_registers a vs) s).1)
  unfolding write_multiple_registers registers_written
  write_multiple_registers-writes a vs s h words store =
      let count : (length vs % 2 ^ 16 == length vs) ≡ true = ground arith in
      rw
        (
          loopback_answers (Request.write_multiple_registers a vs) s
              ((omega arith, omega arith, omega arith), words) (omega (arith, length-u16_bytes vs))
              store,
          ==-refl a,
          count,
        )
        refl

-- A window over values that are those of a list.
window-list :
    (vs : List ℕ) (g : ℕ → ℕ) (a : ℕ)
    → ((i : ℕ) → i < length vs → g (a + i) ≡ get_or vs i 0)
    → window g a (length vs) ≡ vs
window-list [] g a h = refl
window-list (v ∷ vs) g a h =
    ap₂ ◌∷◌ (ap g (omega arith) ∙ h 0 (omega arith))
      (window-list vs g (a + 1) (λ i lt. ap g (omega arith) ∙ h (suc i) (omega arith)))

overlay-inside :
    (f : ℕ → ℕ) (a : ℕ) (vs : List ℕ) (i : ℕ)
    → i < length vs
    → overlay 0 f a vs (a + i) ≡ get_or vs i 0
overlay-inside f a vs i h =
    let inside : (leb a (a + i) && ltb (a + i) (a + length vs)) ≡ true = ground arith in
    let at : a + i - a ≡ i = omega arith in rw (inside, at) refl

-- For a slave id other than 0 and a store in shape: what was written into holding registers over
-- the line, from 1 to 123 words at addresses that exist, is read back from there.
pub write-read_holding_registers :
    (slave a : ℕ) (vs : List ℕ) (s : SlaveStore)
    → slave ≢ 0
    → IsRange 123 a (length vs)
    → All IsU16 vs
    → IsStore s
    → (after : SlaveStore) × (write_multiple_registers loopback slave a vs s ≡ (ok tt, after))
      × (read_holding_registers loopback slave a (length vs) after ≡ (ok vs, after))
write-read_holding_registers slave a vs s ne h words store =
    let req = Request.write_multiple_registers a vs in
    let after = (call req s).1 in
    let range : IsRequest req = ((omega arith, omega arith, omega arith), words) in
    let stored : (view after).holding ≡ overlay 0 (view s).holding a vs =
      ap (λ (t : Tables). t.holding) (call_changes req s store) in
    (
      after,
      write_multiple_registers-writes slave ne a vs s h words store,
      read_holding_registers-window slave ne a (length vs) after
            (omega arith, omega arith, omega arith) (call-IsStore req s range store)
          ∙ ap (λ l. (ok l, after))
              (ap (λ g. window g a (length vs)) stored
                ∙ window-list vs (overlay 0 (view s).holding a vs) a
                    (overlay-inside (view s).holding a vs)),
    )
