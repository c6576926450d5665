-- ===== src/Frame/ResponseTrip.antt =====
-- src/frame.rs: what `encode_response_into` writes, when it refuses, and what the client's decoder
-- makes of it.
use oms_modbus.Base.{
  ℕ, ◌+◌, ◌-◌, ◌*◌, ◌/◌, ◌%◌, ◌≤◌, ◌<◌, ◌≡◌, refl, ap, sym, ◌∙◌, Bool, true, false, String,
}
use oms_modbus.Base.{
  List, [], ◌∷◌, ◌++◌, ok, err, length, div_ceil, arith, append_assoc, append-nil,
}
use oms_modbus.Base.{length-append, take-append_self, ltb, ◌==◌}
use oms_modbus.Base.{Bool-cases, inl, inr}
use oms_modbus.Frame.Types.{
  max_coils, Response, IoError, invalid_data, pdu_size, max_pdu_size, exceeds_u8,
}
use oms_modbus.Frame.Buffer.{OnBuffer, ◌>>=◌, ◌>>◌, pure, put_u8, put_slice, safe_u8}
use oms_modbus.Frame.Wire.{IsResponse, response_layout, received, padded}
use oms_modbus.Frame.Encode.{
  coil_word, encode_response, encode_response_into, validate_response_size, bytes_of_response,
  pack_bits, u16_bytes, limit_pdu,
}
use oms_modbus.Frame.Decode.{
  decode_response, response_of_bytes, decode_bits, decode_registers, decode_word_pair,
  decode_mask_write_response,
}
use oms_modbus.Frame.Bits.{get_bits-pack_bits, length-pack_bits}
use oms_modbus.Frame.Words.{get_u16s-u16_bytes, length-u16_bytes}
use oms_modbus.Frame.Codes.{exception_bit}

limit_pdu_fits :
    (buf bytes : List ℕ)
    → length bytes ≤ max_pdu_size
    → limit_pdu (length buf) (ok tt, buf ++ bytes) ≡ (ok tt, buf ++ bytes)
limit_pdu_fits buf bytes h = ground (arith, length-append buf bytes)

limit_pdu_refused :
    (buf bytes : List ℕ)
    → max_pdu_size < length bytes
    → (e : IoError) × (limit_pdu (length buf) (ok tt, buf ++ bytes) ≡ (err e, buf))
limit_pdu_refused buf bytes h =
    let size : length (buf ++ bytes) - length buf ≡ length bytes =
      omega (arith, length-append buf bytes) in
    (invalid_data (pdu_size (length bytes)), rw (size, take-append_self) (ground arith))

bits_response :
    (fc : ℕ) (bits : List Bool) (buf : List ℕ)
    → buf ++ (fc ∷ []) ++ (div_ceil (length bits) 8 ∷ []) ++ pack_bits bits
      ≡ buf ++ (fc ∷ div_ceil (length bits) 8 ∷ pack_bits bits)
bits_response fc bits buf = simp append_assoc

regs_response :
    (fc : ℕ) (regs buf : List ℕ)
    → buf ++ (fc ∷ []) ++ ((length regs * 2) ∷ []) ++ u16_bytes regs
      ≡ buf ++ (fc ∷ (length regs * 2) ∷ u16_bytes regs)
regs_response fc regs buf = simp append_assoc

encode_response-layout :
    (rsp : Response) (buf : List ℕ)
    → length (response_layout rsp) ≤ max_pdu_size
    → encode_response rsp buf ≡ (ok tt, buf ++ response_layout rsp)
unfolding encode_response
encode_response-layout (Response.read_coils bits) buf h =
    ground (arith, length-pack_bits bits, bits_response 1 bits buf)
encode_response-layout (Response.read_discrete_inputs bits) buf h =
    ground (arith, length-pack_bits bits, bits_response 2 bits buf)
encode_response-layout (Response.read_holding_registers regs) buf h =
    ground (arith, length-u16_bytes regs, regs_response 3 regs buf)
encode_response-layout (Response.read_input_registers regs) buf h =
    ground (arith, length-u16_bytes regs, regs_response 4 regs buf)
encode_response-layout (Response.read_write_multiple_registers regs) buf h =
    ground (arith, length-u16_bytes regs, regs_response 23 regs buf)
encode_response-layout (Response.write_single_coil a v) buf h = simp append_assoc
encode_response-layout (Response.write_single_register a v) buf h = simp append_assoc
encode_response-layout (Response.write_multiple_coils a q) buf h = simp append_assoc
encode_response-layout (Response.write_multiple_registers a q) buf h = simp append_assoc
encode_response-layout (Response.mask_write_register a m o) buf h = simp append_assoc
encode_response-layout (Response.diagnostic s d) buf h = simp append_assoc
encode_response-layout (Response.exception fc e) buf h = simp append_assoc

validate_fits :
    (rsp : Response) (buf : List ℕ)
    → length (response_layout rsp) ≤ max_pdu_size
    → validate_response_size rsp buf ≡ (ok tt, buf)
unfolding validate_response_size
validate_fits (Response.read_coils bits) buf h = ground (arith, length-pack_bits bits)
validate_fits (Response.read_discrete_inputs bits) buf h = ground (arith, length-pack_bits bits)
validate_fits (Response.read_holding_registers regs) buf h = ground (arith, length-u16_bytes regs)
validate_fits (Response.read_input_registers regs) buf h = ground (arith, length-u16_bytes regs)
validate_fits (Response.read_write_multiple_registers regs) buf h =
    ground (arith, length-u16_bytes regs)
validate_fits _ buf h = refl

-- A response whose PDU takes at most 253 bytes is appended to the buffer as its layout.
pub encode_response_fits :
    (rsp : Response) (buf : List ℕ)
    → length (response_layout rsp) ≤ max_pdu_size
    → encode_response_into rsp buf ≡ (ok tt, buf ++ response_layout rsp)
unfolding encode_response_into
encode_response_fits rsp buf h =
    rw (validate_fits rsp buf h, encode_response-layout rsp buf h)
      (limit_pdu_fits buf (response_layout rsp) h)

-- The encoding of a list of Booleans and of a list of registers, as `encode_response_into` computes.
abbrev encode_bits : ℕ → List Bool → OnBuffer (Unit {0})
encode_bits fc bits =
    (do _ ← safe_u8 (div_ceil (length bits) 8) "response byte count"; pure tt) >> λ buf.
    limit_pdu (length buf) (
      (do
        n ← safe_u8 (div_ceil (length bits) 8) "coil byte count"
        put_u8 fc
        put_u8 n
        put_slice (pack_bits bits))
        buf)

abbrev encode_registers : ℕ → List ℕ → OnBuffer (Unit {0})
encode_registers fc regs =
    (do _ ← safe_u8 (length regs * 2) "response byte count"; pure tt) >> λ buf.
    limit_pdu (length buf) (
      (do
        put_u8 fc
        n ← safe_u8 (length regs * 2) "register byte count"
        put_u8 n
        put_slice (u16_bytes regs))
        buf)

refused_bits :
    (fc : ℕ) (bits : List Bool) (buf : List ℕ)
    → max_pdu_size < length (fc ∷ div_ceil (length bits) 8 ∷ pack_bits bits)
    → (e : IoError) × (encode_bits fc bits buf ≡ (err e, buf))
refused_bits fc bits buf h = elim (Bool-cases (ltb (div_ceil (length bits) 8) 256)) [
  | inr big ↦ (invalid_data (exceeds_u8 "response byte count" (div_ceil (length bits) 8)), rw big)
  | inl small ↦
      rw (small, bits_response fc bits buf)
        (limit_pdu_refused buf (fc ∷ div_ceil (length bits) 8 ∷ pack_bits bits) h)
]

refused_registers :
    (fc : ℕ) (regs buf : List ℕ)
    → max_pdu_size < length (fc ∷ (length regs * 2) ∷ u16_bytes regs)
    → (e : IoError) × (encode_registers fc regs buf ≡ (err e, buf))
refused_registers fc regs buf h = elim (Bool-cases (ltb (length regs * 2) 256)) [
  | inr big ↦ (invalid_data (exceeds_u8 "response byte count" (length regs * 2)), rw big)
  | inl small ↦
      rw (small, regs_response fc regs buf)
        (limit_pdu_refused buf (fc ∷ (length regs * 2) ∷ u16_bytes regs) h)
]

-- A response whose PDU would take more than 253 bytes is refused, and the buffer is left as it was.
pub encode_response_refused :
    (rsp : Response) (buf : List ℕ)
    → max_pdu_size < length (response_layout rsp)
    → (e : IoError) × (encode_response_into rsp buf ≡ (err e, buf))
unfolding encode_response_into validate_response_size encode_response
encode_response_refused (Response.read_coils bits) buf h = refused_bits 1 bits buf h
encode_response_refused (Response.read_discrete_inputs bits) buf h = refused_bits 2 bits buf h
encode_response_refused (Response.read_holding_registers regs) buf h =
    refused_registers 3 regs buf h
encode_response_refused (Response.read_input_registers regs) buf h = refused_registers 4 regs buf h
encode_response_refused (Response.read_write_multiple_registers regs) buf h =
    refused_registers 23 regs buf h
encode_response_refused (Response.write_single_coil a v) buf h = absurd (omega arith)
encode_response_refused (Response.write_single_register a v) buf h = absurd (omega arith)
encode_response_refused (Response.write_multiple_coils a q) buf h = absurd (omega arith)
encode_response_refused (Response.write_multiple_registers a q) buf h = absurd (omega arith)
encode_response_refused (Response.mask_write_register a m o) buf h = absurd (omega arith)
encode_response_refused (Response.diagnostic s d) buf h = absurd (omega arith)
encode_response_refused (Response.exception fc e) buf h = absurd (omega arith)

word_lem : (v : ℕ) → v / 256 * 256 + v % 256 ≡ v
word_lem v = omega arith

decode_bits-layout :
    (answer : List Bool → Response) (bits : List Bool) (rest : List ℕ)
    → decode_bits answer (div_ceil (length bits) 8 ∷ (pack_bits bits ++ rest))
      ≡ (ok (answer (padded bits)), rest)
unfolding decode_bits
decode_bits-layout answer bits rest =
    let there : ltb (length (pack_bits bits ++ rest)) (div_ceil (length bits) 8) ≡ false =
      ground (arith, length-append (pack_bits bits) rest, length-pack_bits bits) in
    rw (there, get_bits-pack_bits bits [] rest) refl

decode_registers-layout :
    (name short : String) (answer : List ℕ → Response) (regs rest : List ℕ)
    → decode_registers name short answer ((length regs * 2) ∷ (u16_bytes regs ++ rest))
      ≡ (ok (answer regs), rest)
unfolding decode_registers
decode_registers-layout name short answer regs rest =
    let even : (length regs * 2 % 2 == 0) ≡ true = ground arith in
    let half : length regs * 2 / 2 ≡ length regs = omega arith in
    let there : ltb (length (u16_bytes regs ++ rest)) (length regs * 2) ≡ false =
      ground (arith, length-append (u16_bytes regs) rest, length-u16_bytes regs) in
    rw (even, there, half, get_u16s-u16_bytes regs [] rest) refl

coil_word_lem : (v : Bool) → (coil_word v / 256 * 256 + coil_word v % 256 == 0xff00) ≡ v
coil_word_lem true = refl
coil_word_lem false = refl

-- The client's decoder turns the layout of a response in shape back into that response, whatever
-- follows it, with the Booleans of a read padded by false up to a multiple of eight.
pub response_of_bytes-layout :
    (rsp : Response) (rest : List ℕ)
    → IsResponse rsp
    → response_of_bytes (response_layout rsp ++ rest) ≡ ok (received rsp)
unfolding response_of_bytes decode_response
response_of_bytes-layout (Response.read_coils bits) rest h =
    ap (λ t. t.0) (decode_bits-layout Response.read_coils bits rest)
response_of_bytes-layout (Response.read_discrete_inputs bits) rest h =
    ap (λ t. t.0) (decode_bits-layout Response.read_discrete_inputs bits rest)
response_of_bytes-layout (Response.read_holding_registers regs) rest h =
    ap (λ t. t.0) (decode_registers-layout _ _ Response.read_holding_registers regs rest)
response_of_bytes-layout (Response.read_input_registers regs) rest h =
    ap (λ t. t.0) (decode_registers-layout _ _ Response.read_input_registers regs rest)
response_of_bytes-layout (Response.read_write_multiple_registers regs) rest h =
    ap (λ t. t.0) (decode_registers-layout _ _ Response.read_write_multiple_registers regs rest)
response_of_bytes-layout (Response.write_single_coil a v) rest h =
    unfold decode_word_pair in rw (word_lem a, coil_word_lem v)
response_of_bytes-layout (Response.write_single_register a v) rest h =
    unfold decode_word_pair in rw (word_lem a, word_lem v)
response_of_bytes-layout (Response.write_multiple_coils a q) rest h =
    unfold decode_word_pair in rw (word_lem a, word_lem q)
response_of_bytes-layout (Response.write_multiple_registers a q) rest h =
    unfold decode_word_pair in rw (word_lem a, word_lem q)
response_of_bytes-layout (Response.mask_write_register a m o) rest h =
    unfold decode_mask_write_response in rw (word_lem a, word_lem m, word_lem o)
response_of_bytes-layout (Response.diagnostic s d) rest h =
    unfold decode_word_pair in rw (word_lem s, word_lem d)
response_of_bytes-layout (Response.exception fc e) rest h =
    rw ((exception_bit fc h.0).1, (exception_bit fc h.0).0, h.1)

-- What the server sends for a response that fits, the client decodes to that response, with the
-- Booleans of a read padded by false up to a multiple of eight.
pub response_round_trip :
    (rsp : Response)
    → IsResponse rsp
    → length (response_layout rsp) ≤ max_pdu_size
    → response_of_bytes (bytes_of_response rsp) ≡ ok (received rsp)
unfolding bytes_of_response
response_round_trip rsp h fits =
    ap (λ t. response_of_bytes t.1) (encode_response_fits rsp [] fits)
    ∙ ap response_of_bytes (sym (append-nil (response_layout rsp)))
    ∙ response_of_bytes-layout rsp [] h

-- A read of more than 2000 coils or inputs is against the protocol, yet up to 2008 are encoded: the
-- conversion to bytes returns no empty buffer for them.
pub oversized_read_is_encoded :
    (bits : List Bool)
    → max_coils < length bits
    → length bits ≤ 2008
    → (bytes_of_response (Response.read_coils bits) ≡ response_layout (Response.read_coils bits))
      × (bytes_of_response (Response.read_discrete_inputs bits)
          ≡ response_layout (Response.read_discrete_inputs bits))
unfolding bytes_of_response
oversized_read_is_encoded bits h k = (
  ap (λ t. t.1)
      (encode_response_fits (Response.read_coils bits) [] (omega (arith, length-pack_bits bits))),
  ap (λ t. t.1)
      (encode_response_fits (Response.read_discrete_inputs bits) []
        (omega (arith, length-pack_bits bits))),
)
