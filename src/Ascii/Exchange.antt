-- ===== src/Ascii/Exchange.antt =====
-- src/transport/ascii.rs: a call of the ASCII client against the ASCII server before a `SlaveStore`, both
-- reading in pieces.
use oms_modbus.Base.{
  ℕ, suc, ◌+◌, ◌-◌, ◌≤◌, ◌<◌, ◌≡◌, ◌≢◌, refl, sym, ap, ◌∙◌, subst, true, false, List, [], ◌∷◌, ◌++◌,
  some, length, drop, All, inl, inr, arith, ok, flatten, map, append-nil, append_assoc, ltb,
}
use oms_modbus.Frame.Types.{Request, max_pdu_size, request_function_code, code_of_exception}
use oms_modbus.Frame.Wire.{IsByte, IsRequest, request_layout, response_layout, received}
use oms_modbus.Frame.Bits.{pack_bits-IsByte}
use oms_modbus.Frame.Words.{u16_bytes-IsByte}
use oms_modbus.Frame.RequestTrip.{encode_request_into_lem, request_layout-IsByte}
use oms_modbus.Codec.{encode_ascii_frame}
use oms_modbus.Server.Process.{frame_request}
use oms_modbus.Server.Laws.{store_service}
use oms_modbus.Store.Memory.{SlaveStore, call}
use oms_modbus.Store.Model.{Tables, change}
use oms_modbus.Store.Service.{IsStore, view, call_refines}
use oms_modbus.Store.Answers.{
  answer, IsTables, length-answer, answer-IsResponse, view-IsTables, request_layout-known,
  length-window, diagnose-cases, window-IsU16,
}
use oms_modbus.Rtu.Exchange.{processed}
use oms_modbus.Ascii.{ascii_request, try_parse_ascii, found}
use oms_modbus.Ascii.Trip.{nonempty, try_parse_ascii_round_trip, joined}
use oms_modbus.Ascii.Server.{
  ascii_frames, AsciiServer, line_loop, bytes_read, ascii_event, ascii_events, ascii_receive,
}
use oms_modbus.Ascii.Serve.{line_loop-none, line_loop-found, nothing_found, after_line}
use oms_modbus.Ascii.Pieces.{
  try_parse_ascii-part, nil-cases, frame-ne-nil, pieces, ascii_receive-pieces,
}

-- The answer to a request within the limits consists of bytes.
answer-IsByte :
    (req : Request) (t : Tables)
    → IsRequest req
    → IsTables t
    → All IsByte (response_layout (answer req t))
unfolding code_of_exception request_function_code
answer-IsByte (Request.read_coils a n) t h k =
    (omega arith, (omega (arith, length-window t.coil a n), pack_bits-IsByte _))
answer-IsByte (Request.read_discrete_inputs a n) t h k =
    (omega arith, (omega (arith, length-window t.discrete_input a n), pack_bits-IsByte _))
answer-IsByte (Request.read_holding_registers a n) t h k = (
  omega arith,
  (
    omega (arith, length-window t.holding a n),
    u16_bytes-IsByte _ (window-IsU16 t.holding a n k.holding_words),
  ),
)
answer-IsByte (Request.read_input_registers a n) t h k = (
  omega arith,
  (
    omega (arith, length-window t.input a n),
    u16_bytes-IsByte _ (window-IsU16 t.input a n k.input_words),
  ),
)
answer-IsByte (Request.write_single_coil a true) t h k = omega arith
answer-IsByte (Request.write_single_coil a false) t h k = omega arith
answer-IsByte (Request.write_single_register a v) t h k = omega arith
answer-IsByte (Request.write_multiple_coils a vs) t h k = omega arith
answer-IsByte (Request.write_multiple_registers a vs) t h k = omega arith
answer-IsByte (Request.mask_write_register a m o) t h k = omega arith
answer-IsByte (Request.read_write_multiple_registers r q w vs) t h k = (
  omega arith,
  (
    omega (arith, length-window t.holding r q),
    u16_bytes-IsByte _ (window-IsU16 t.holding r q k.holding_words),
  ),
)
answer-IsByte (Request.diagnostic sf d) t h k = elim (diagnose-cases sf d) [
  | inl (x, (e, le)) ↦ rw e (omega arith)
  | inr e ↦ rw e (omega arith)
]
answer-IsByte Request.disconnect t h k = absurd h

ascii_request-layout :
    (slave : ℕ) (req : Request)
    → IsRequest req
    → length (request_layout req) ≤ max_pdu_size
    → ascii_request slave req ≡ ok (encode_ascii_frame (slave ∷ request_layout req))
unfolding ascii_request frame_request encode_ascii_frame
ascii_request-layout slave req h fits =
    let small : ltb max_pdu_size (length (request_layout req)) ≡ false = ground arith in
    rw (encode_request_into_lem req (slave ∷ []) h, small) refl

drop-length : (xs : List ℕ) → drop (length xs) xs ≡ []
drop-length [] = refl
drop-length (x ∷ xs) = drop-length xs

-- The frame of a request is found whole.
frame-found :
    (slave : ℕ) (req : Request)
    → slave < 256
    → IsRequest req
    → let wire = encode_ascii_frame (slave ∷ request_layout req) in
      try_parse_ascii wire ≡ found slave (request_layout req) (length wire)
unfolding joined
frame-found slave req lt h =
    let pdu = request_layout req in
    let wire = encode_ascii_frame (slave ∷ pdu) in
    let (b, rest, e) = nonempty pdu (omega (arith, (request_layout-known req h).0)) in
    let whole =
      subst
        (λ l.
          try_parse_ascii (encode_ascii_frame (slave ∷ l) ++ [])
          ≡ found slave l (0 + length (encode_ascii_frame (slave ∷ l))))
        (sym e)
        (try_parse_ascii_round_trip slave b rest [] []
          (lt, subst (All IsByte) e (request_layout-IsByte req h)) tt) in
    ap try_parse_ascii (sym (append-nil wire)) ∙ whole ∙ ap (found slave pdu) (omega arith)

length-pos : (xs : List ℕ) → xs ≢ [] → 1 ≤ length xs
length-pos [] ne = absurd (ne refl)
length-pos (x ∷ xs) ne = omega arith

module _ (slave : ℕ) (req : Request) (s : SlaveStore) (ne : slave ≢ 0) (lt : slave < 256)
    (h : IsRequest req) (fits : length (request_layout req) ≤ max_pdu_size) where
  abbrev wire : List ℕ
  wire = encode_ascii_frame (slave ∷ request_layout req)

  abbrev back : List ℕ
  back = encode_ascii_frame (slave ∷ response_layout (answer req (view s)))

  abbrev finished : AsciiServer SlaveStore
  finished = record { buffer = []; service_state = (call req s).1 }

  abbrev after_state : List ℕ → SlaveStore → AsciiServer SlaveStore
  after_state buffer state = record { buffer = buffer; service_state = state }

  loop-whole :
      (fuel : ℕ)
      → line_loop (suc (suc fuel)) store_service (record { buffer = wire; service_state = s })
        ≡ some (back ∷ [], finished)
  unfolding encode_ascii_frame
  loop-whole fuel =
      let server : AsciiServer SlaveStore = record { buffer = wire; service_state = s } in
      let done = processed slave req s ne h fits in
      let after = after_line slave (request_layout req) (length wire) server in
      line_loop-found (suc fuel) slave (length wire) (request_layout req) server after []
        (frame-found slave req lt h)
        (line_loop-none fuel after (ap try_parse_ascii (drop-length wire) ∙ nothing_found))
      ∙ ap (λ p. some (ascii_frames p.0 ++ [], after_state (drop (length wire) wire) p.1)) done
      ∙ ap (λ b. some (back ∷ [], after_state b (call req s).1)) (drop-length wire)

  -- Reads of nothing behind the frame change nothing.
  idle :
      (chunks : List (List ℕ))
      → flatten chunks ≡ []
      → ascii_events store_service (map bytes_read chunks) finished ≡ some ([], finished)
  unfolding ascii_events ascii_event
  idle [] e = refl
  idle ([] ∷ chunks) e =
      let event : ascii_event store_service (bytes_read []) finished ≡ some ([], finished) =
        line_loop-none 0 finished nothing_found in
      rw (ascii_events, event, idle chunks e) refl
  idle ((b ∷ chunk) ∷ chunks) e = absurd (cc)

  -- The pieces that are still to come complete the frame.
  serve-pieces :
      (part : List ℕ) (chunks : List (List ℕ))
      → part ++ flatten chunks ≡ wire
      → flatten chunks ≢ []
      → ascii_events store_service (map bytes_read chunks) (after_state part s)
        ≡ some (back ∷ [], finished)
  unfolding ascii_events ascii_event
  serve-pieces part [] e more = absurd (more refl)
  serve-pieces part (chunk ∷ chunks) e more =
      let arrived : (part ++ chunk) ++ flatten chunks ≡ wire =
        append_assoc part chunk (flatten chunks) ∙ e in
      elim (nil-cases (flatten chunks)) [
        | inl last ↦
            let whole : part ++ chunk ≡ wire =
              sym (append-nil (part ++ chunk))
              ∙ ap (λ l. (part ++ chunk) ++ l) (sym last)
              ∙ arrived in
            let size : suc (length wire) ≡ suc (suc (length wire - 1)) =
              omega (arith, length-pos wire (frame-ne-nil (slave ∷ request_layout req))) in
            let event : ascii_event store_service (bytes_read chunk) (after_state part s)
                ≡ some (back ∷ [], finished) =
              ap (λ l. line_loop (suc (length l)) store_service (after_state l s)) whole
              ∙ ap (λ n. line_loop n store_service (after_state wire s)) size
              ∙ loop-whole (length wire - 1) in
            rw (ascii_events, event, idle chunks last) refl
        | inr later ↦
            let event : ascii_event store_service (bytes_read chunk) (after_state part s)
                ≡ some ([], after_state (part ++ chunk) s) =
              line_loop-none (length (part ++ chunk)) (after_state (part ++ chunk) s) (
                try_parse_ascii-part (slave ∷ request_layout req) (part ++ chunk) (flatten chunks)
                  (lt, request_layout-IsByte req h) arrived later) in
            rw (ascii_events, event, serve-pieces (part ++ chunk) chunks arrived later) refl
      ]

-- A call of the ASCII client for a slave id from 1 to 255 and a request within the protocol's limits,
-- whose PDU takes at most 253 bytes, against a server before a `SlaveStore` in shape, its buffer empty:
-- the request goes out as one frame; however that frame is cut into reads, the server answers it with one
-- frame and changes the store as `call` does, which is the change that the request makes to the four
-- tables; and however the answer is cut into reads, the client's receive loop returns the answer that the
-- four tables give, with the Booleans of a read padded.
pub ascii_exchange :
    (slave : ℕ) (req : Request) (s : SlaveStore)
    → slave ≢ 0
    → slave < 256
    → IsRequest req
    → length (request_layout req) ≤ max_pdu_size
    → IsStore s
    → (sent : List ℕ) × (back : List ℕ) × (ascii_request slave req ≡ ok sent)
      × ((chunks : List (List ℕ))
          → flatten chunks ≡ sent
          → ascii_events store_service
              (map bytes_read chunks)
              (record { buffer = []; service_state = s })
            ≡ some (back ∷ [], record { buffer = []; service_state = (call req s).1 }))
      × ((chunks : List (List ℕ))
          → flatten chunks ≡ back
          → ascii_receive slave [] (pieces chunks) ≡ some (ok (received (answer req (view s)))))
      × (view (call req s).1 ≡ change req (view s))
ascii_exchange slave req s ne lt h fits store = (
  wire slave req s ne lt h fits,
  back slave req s ne lt h fits,
  ascii_request-layout slave req h fits,
  λ chunks e.
      serve-pieces slave req s ne lt h fits [] chunks e
        (λ none_given. frame-ne-nil (slave ∷ request_layout req) (sym e ∙ none_given)),
  λ chunks e.
      ap (ascii_receive slave []) (sym (append-nil (pieces chunks)))
      ∙ ascii_receive-pieces slave (answer req (view s)) chunks [] lt
          (answer-IsResponse req (view s) h (view-IsTables s store))
          (answer-IsByte req (view s) h (view-IsTables s store))
          (omega (arith, (length-answer req (view s) h).0)) e,
  (call_refines req s store).1,
)
