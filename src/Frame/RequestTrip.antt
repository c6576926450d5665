-- ===== src/Frame/RequestTrip.antt =====
-- src/frame.rs: what `encode_request_into` writes for a request within the protocol's limits, and
-- that the decoder reads it back.
use oms_modbus.Base.{ℕ, ◌+◌, ◌-◌, ◌*◌, ◌/◌, ◌%◌, ◌≤◌, ◌≡◌, refl, ap, Bool, true, false}
use oms_modbus.Base.{List, [], ◌∷◌, ◌++◌, ok, err, length, div_ceil, arith, append_assoc}
use oms_modbus.Base.{length-append, take-append_self, take_all, ltb, if◌then◌else◌, All, String}
use oms_modbus.Frame.Types.{Request, invalid_data, pdu_size, request_function_code, max_pdu_size}
use oms_modbus.Frame.Types.{max_coils, max_registers}
use oms_modbus.Frame.Buffer.{be_bytes}
use oms_modbus.Frame.Wire.{IsRequest, IsRange, IsByte, request_layout}
use oms_modbus.Frame.Encode.{
  encode_request, encode_request_into, bytes_of_request, pack_bits, u16_bytes, limit_pdu,
}
use oms_modbus.Frame.Decode.{decode_request, request_of_bytes, check_range, decode_read_coils}
use oms_modbus.Frame.Decode.{decode_read_discrete_inputs, decode_read_holding_registers}
use oms_modbus.Frame.Decode.{decode_read_input_registers, decode_write_single_coil}
use oms_modbus.Frame.Decode.{decode_write_single_register, decode_write_multiple_coils}
use oms_modbus.Frame.Decode.{decode_write_multiple_registers, decode_mask_write_register}
use oms_modbus.Frame.Decode.{decode_read_write_multiple_registers, decode_diagnostic}
use oms_modbus.Frame.Bits.{get_coils-pack_bits, length-pack_bits, pack_bits-IsByte}
use oms_modbus.Frame.Words.{get_u16s-u16_bytes, length-u16_bytes, u16_bytes-IsByte}

tail_assoc :
    (buf a b c d e : List ℕ) → buf ++ a ++ b ++ c ++ d ++ e ≡ buf ++ (a ++ (b ++ (c ++ (d ++ e))))
tail_assoc buf a b c d e = simp append_assoc

-- The encoder appends the layout of the request.
pub encode_request-layout :
    (req : Request) (buf : List ℕ)
    → IsRequest req
    → encode_request req buf ≡ (ok tt, buf ++ request_layout req)
unfolding encode_request request_function_code
encode_request-layout (Request.read_coils a q) buf h = simp append_assoc
encode_request-layout (Request.read_discrete_inputs a q) buf h = simp append_assoc
encode_request-layout (Request.read_holding_registers a q) buf h = simp append_assoc
encode_request-layout (Request.read_input_registers a q) buf h = simp append_assoc
encode_request-layout (Request.write_single_coil a v) buf h = simp append_assoc
encode_request-layout (Request.write_single_register a v) buf h = simp append_assoc
encode_request-layout (Request.write_multiple_coils a vs) buf h = ground (
  arith,
  tail_assoc buf (15 ∷ []) (be_bytes a) (be_bytes (length vs)) (div_ceil (length vs) 8 ∷ [])
      (pack_bits vs),
)
encode_request-layout (Request.write_multiple_registers a vs) buf h = ground (
  arith,
  tail_assoc buf (16 ∷ []) (be_bytes a) (be_bytes (length vs)) ((length vs * 2) ∷ [])
      (u16_bytes vs),
)
encode_request-layout (Request.read_write_multiple_registers r q w vs) buf h = ground (
  arith,
  tail_assoc (buf ++ (23 ∷ []) ++ be_bytes r) (be_bytes q) (be_bytes w) (be_bytes (length vs))
      ((length vs * 2) ∷ []) (u16_bytes vs),
  append_assoc (buf ++ (23 ∷ [])) (be_bytes r)
      (be_bytes q ++ (be_bytes w ++ (be_bytes (length vs) ++ ((length vs * 2) ∷ u16_bytes vs)))),
  append_assoc buf (23 ∷ []) (
      be_bytes r
      ++ (be_bytes q
          ++ (be_bytes w ++ (be_bytes (length vs) ++ ((length vs * 2) ∷ u16_bytes vs))))),
)
encode_request-layout (Request.mask_write_register a m o) buf h = simp append_assoc
encode_request-layout (Request.diagnostic s d) buf h = simp append_assoc
encode_request-layout Request.disconnect buf h = absurd h

word_lem : (v : ℕ) → v / 256 * 256 + v % 256 ≡ v
word_lem v = omega arith

check_range_ok :
    (name : String) (most a q : ℕ) (buf : List ℕ)
    → IsRange most a q
    → check_range name most a q buf ≡ (ok tt, buf)
unfolding check_range
check_range_ok name most a q buf h = ground arith

decode_coils :
    (a : ℕ) (vs : List Bool) (rest : List ℕ)
    → IsRange max_coils a (length vs)
    → decode_write_multiple_coils
        (be_bytes a ++ (be_bytes (length vs) ++ (div_ceil (length vs) 8 ∷ (pack_bits vs ++ rest))))
      ≡ (ok (Request.write_multiple_coils a vs), rest)
unfolding decode_write_multiple_coils
decode_coils a vs rest h =
    rw
      (
        word_lem a,
        word_lem (length vs),
        check_range_ok "WriteMultipleCoils" max_coils a (length vs) _ h,
      )
      (ground (
        arith,
        length-append (pack_bits vs) rest,
        length-pack_bits vs,
        get_coils-pack_bits vs [] (length vs) rest (omega arith),
        take_all (length vs) vs,
      ))

decode_registers :
    (a : ℕ) (vs rest : List ℕ)
    → IsRange max_registers a (length vs)
    → decode_write_multiple_registers
        (be_bytes a ++ (be_bytes (length vs) ++ ((length vs * 2) ∷ (u16_bytes vs ++ rest))))
      ≡ (ok (Request.write_multiple_registers a vs), rest)
unfolding decode_write_multiple_registers
decode_registers a vs rest h =
    rw
      (
        word_lem a,
        word_lem (length vs),
        check_range_ok "WriteMultipleRegisters" max_registers a (length vs) _ h,
      )
      (ground (
        arith,
        length-append (u16_bytes vs) rest,
        length-u16_bytes vs,
        get_u16s-u16_bytes vs [] rest,
      ))

decode_read_write :
    (r q w : ℕ) (vs rest : List ℕ)
    → IsRange max_registers r q
    → IsRange max_registers w (length vs)
    → decode_read_write_multiple_registers (
        be_bytes r
        ++ (be_bytes q
            ++ (be_bytes w
                ++ (be_bytes (length vs) ++ ((length vs * 2) ∷ (u16_bytes vs ++ rest))))))
      ≡ (ok (Request.read_write_multiple_registers r q w vs), rest)
unfolding decode_read_write_multiple_registers
decode_read_write r q w vs rest h k =
    rw
      (
        word_lem r,
        word_lem q,
        check_range_ok _ max_registers r q _ h,
        word_lem w,
        word_lem (length vs),
        check_range_ok _ max_registers w (length vs) _ k,
      )
      (ground (
        arith,
        length-append (u16_bytes vs) rest,
        length-u16_bytes vs,
        get_u16s-u16_bytes vs [] rest,
      ))

-- The decoder reads the layout, and leaves whatever follows it.
decode-layout :
    (req : Request) (rest : List ℕ)
    → IsRequest req
    → request_of_bytes (request_layout req ++ rest) ≡ ok req
unfolding request_of_bytes decode_request check_range
decode-layout (Request.read_coils a q) rest h = unfold decode_read_coils in ground arith
decode-layout (Request.read_discrete_inputs a q) rest h =
    unfold decode_read_discrete_inputs in ground arith
decode-layout (Request.read_holding_registers a q) rest h =
    unfold decode_read_holding_registers in ground arith
decode-layout (Request.read_input_registers a q) rest h =
    unfold decode_read_input_registers in ground arith
decode-layout (Request.write_single_coil a v) rest h =
    unfold decode_write_single_coil in ground arith
decode-layout (Request.write_single_register a v) rest h =
    unfold decode_write_single_register in ground arith
decode-layout (Request.write_multiple_coils a vs) rest h = ap (λ t. t.0) (decode_coils a vs rest h)
decode-layout (Request.write_multiple_registers a vs) rest h =
    ap (λ t. t.0) (decode_registers a vs rest h.0)
decode-layout (Request.read_write_multiple_registers r q w vs) rest h =
    ap (λ t. t.0) (decode_read_write r q w vs rest h.0 h.1)
decode-layout (Request.mask_write_register a m o) rest h =
    unfold decode_mask_write_register in ground arith
decode-layout (Request.diagnostic s d) rest h = unfold decode_diagnostic in ground arith
decode-layout Request.disconnect rest h = absurd h

-- The layout of a request within the limits consists of bytes.
pub request_layout-IsByte : (req : Request) → IsRequest req → All IsByte (request_layout req)
request_layout-IsByte (Request.read_coils a q) h = omega arith
request_layout-IsByte (Request.read_discrete_inputs a q) h = omega arith
request_layout-IsByte (Request.read_holding_registers a q) h = omega arith
request_layout-IsByte (Request.read_input_registers a q) h = omega arith
request_layout-IsByte (Request.write_single_coil a true) h = omega arith
request_layout-IsByte (Request.write_single_coil a false) h = omega arith
request_layout-IsByte (Request.write_single_register a v) h = omega arith
request_layout-IsByte (Request.write_multiple_coils a vs) h = (
  omega arith,
  (omega arith, (omega arith, (omega arith, (omega arith, (omega arith, pack_bits-IsByte vs))))),
)
request_layout-IsByte (Request.write_multiple_registers a vs) h = (
  omega arith,
  (
    omega arith,
    (omega arith, (omega arith, (omega arith, (omega arith, u16_bytes-IsByte vs h.1)))),
  ),
)
request_layout-IsByte (Request.read_write_multiple_registers r q w vs) h = (
  omega arith,
  (
    omega arith,
    (
      omega arith,
      (
        omega arith,
        (
          omega arith,
          (
            omega arith,
            (omega arith, (omega arith, (omega arith, (omega arith, u16_bytes-IsByte vs h.2)))),
          ),
        ),
      ),
    ),
  ),
)
request_layout-IsByte (Request.mask_write_register a m o) h = omega arith
request_layout-IsByte (Request.diagnostic s d) h = omega arith
request_layout-IsByte Request.disconnect h = absurd h

limit_pdu-append :
    (buf bytes : List ℕ)
    → limit_pdu (length buf) (ok tt, buf ++ bytes) ≡ (
        if ltb max_pdu_size (length bytes)
        then (err (invalid_data (pdu_size (length bytes))), buf)
        else (ok tt, buf ++ bytes))
limit_pdu-append buf bytes =
    let size : length (buf ++ bytes) - length buf ≡ length bytes =
      omega (arith, length-append buf bytes) in
    rw (size, take-append_self) refl

-- For a request within the protocol's limits `encode_request_into` appends the layout to the buffer,
-- or leaves the buffer as it was and fails, which it does exactly for a PDU of more than 253 bytes.
pub encode_request_into_lem :
    (req : Request) (buf : List ℕ)
    → IsRequest req
    → encode_request_into req buf ≡ (
        if ltb max_pdu_size (length (request_layout req))
        then (err (invalid_data (pdu_size (length (request_layout req)))), buf)
        else (ok tt, buf ++ request_layout req))
unfolding encode_request_into
encode_request_into_lem req buf h =
    rw (encode_request-layout req buf h) (limit_pdu-append buf (request_layout req))

-- A request within the protocol's limits whose PDU takes at most 253 bytes is encoded as its layout,
-- and the server's decoder gives the same request back, whatever follows it in the buffer.
pub request_round_trip :
    (req : Request) (rest : List ℕ)
    → IsRequest req
    → length (request_layout req) ≤ max_pdu_size
    → (bytes_of_request req ≡ ok (request_layout req))
      × (request_of_bytes (request_layout req ++ rest) ≡ ok req)
unfolding bytes_of_request
request_round_trip req rest h fits =
    (ground (arith, encode_request_into_lem req [] h), decode-layout req rest h)
