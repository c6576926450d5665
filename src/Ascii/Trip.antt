-- ===== src/Ascii/Trip.antt =====
-- src/transport/ascii.rs with src/codec.rs: a frame that the encoder wrote is found again, behind
-- lines that are no frames.
use oms_modbus.Base.{
  ℕ, zero, suc, ◌+◌, ◌-◌, ◌%◌, ◌≤◌, ◌<◌, ◌≡◌, refl, sym, ap, ap₂, subst, ◌∙◌, List, [], ◌∷◌, ◌++◌,
  none, some, length, take, drop, All, get_or,
}
use oms_modbus.Base.{
  true, leb, ◌==◌, arith, take-append_self, drop-append_self, append_assoc, append-nil,
  length-append, All-append, ==-refl,
}
use oms_modbus.Base.{ok, map_err}
use oms_modbus.Frame.Types.{Response}
use oms_modbus.Frame.Wire.{IsByte, IsResponse, response_layout, received}
use oms_modbus.Frame.ResponseTrip.{response_of_bytes-layout}
use oms_modbus.Errors.{ModbusError}
use oms_modbus.Server.Process.{decoded}
use oms_modbus.Codec.{
  ascii_start, cr, lf, calculate_lrc, hex_encode, hex_encode_byte, encode_ascii_frame,
  encode_ascii_frame_into,
}
use oms_modbus.Codec.Lrc.{calculate_lrc-lt}
use oms_modbus.Codec.Hex.{
  cons_byte, decode_pairs, decode_pairs-hex_encode_byte, decode_pairs-hex_encode, hex_encode-IsText,
  hex_encode_byte-IsText, length-hex_encode, length-hex_encode_byte,
}
use oms_modbus.Ascii.{
  find_crlf, decode_line, check_bytes, split_slave, found, scan, try_parse_ascii, response_found,
  try_parse_ascii_response,
}
use oms_modbus.Ascii.Scan.{find_crlf-line, find_crlf-text, scan-junk, scan-found}

-- The text of a frame, from the colon up to the carriage return.
abbrev pub frame_line : List ℕ → List ℕ
frame_line data_ = ascii_start ∷ (hex_encode data_ ++ hex_encode_byte (calculate_lrc data_))

pub frame_layout : (data_ : List ℕ) → encode_ascii_frame data_ ≡ frame_line data_ ++ (cr ∷ lf ∷ [])
unfolding encode_ascii_frame encode_ascii_frame_into
frame_layout data_ =
    ap (λ t. ascii_start ∷ t)
      (sym (append_assoc (hex_encode data_) (hex_encode_byte (calculate_lrc data_)) (cr ∷ lf ∷ [])))

pub frame_line-IsText : (data_ : List ℕ) → All IsByte data_ → All (λ c. cr < c) (frame_line data_)
frame_line-IsText data_ h = (
  omega arith,
  All-append (λ c. cr < c) (hex_encode data_) (hex_encode_byte (calculate_lrc data_))
      (hex_encode-IsText data_ h)
      (hex_encode_byte-IsText (calculate_lrc data_) (calculate_lrc-lt data_)),
)

no_pairs : decode_pairs [] ≡ some []
unfolding decode_pairs
no_pairs = refl

line_bytes :
    (data_ : List ℕ)
    → All IsByte data_
    → decode_pairs (hex_encode data_ ++ hex_encode_byte (calculate_lrc data_))
      ≡ some (data_ ++ (calculate_lrc data_ ∷ []))
line_bytes data_ h =
    let lrc = calculate_lrc data_ in
    decode_pairs-hex_encode data_ (hex_encode_byte lrc) (lrc ∷ []) h (
      subst (λ t. decode_pairs t ≡ some (lrc ∷ [])) (append-nil (hex_encode_byte lrc))
        (decode_pairs-hex_encode_byte lrc [] (calculate_lrc-lt data_)
          ∙ ap (cons_byte (some lrc)) no_pairs))

get_or_last : (xs : List ℕ) (x : ℕ) → get_or (xs ++ (x ∷ [])) (length xs) 0 ≡ x
get_or_last [] x = refl
get_or_last (y ∷ xs) x = get_or_last xs x

check_bytes-line :
    (xs : List ℕ)
    → 2 ≤ length xs
    → check_bytes (some (xs ++ (calculate_lrc xs ∷ []))) ≡ split_slave xs
check_bytes-line xs h =
    let lrc = calculate_lrc xs in
    let size : length (xs ++ (lrc ∷ [])) - 1 ≡ length xs =
      omega (arith, length-append xs (lrc ∷ [])) in
    let long : leb 2 (length (xs ++ (lrc ∷ []))) ≡ true =
      ground (arith, length-append xs (lrc ∷ [])) in
    let enough : leb 2 (length xs) ≡ true = ground arith in
    rw (long, size, get_or_last xs lrc, take-append_self xs (lrc ∷ []), ==-refl lrc, enough) refl

decode_line-frame :
    (slave b : ℕ) (pdu : List ℕ)
    → All IsByte (slave ∷ b ∷ pdu)
    → decode_line (frame_line (slave ∷ b ∷ pdu)) ≡ some (slave, b ∷ pdu)
unfolding decode_line
decode_line-frame slave b pdu h =
    let data_ = slave ∷ b ∷ pdu in
    let even : (length (hex_encode data_ ++ hex_encode_byte (calculate_lrc data_)) % 2 == 0)
        ≡ true =
      ground (
        arith,
        length-append (hex_encode data_) (hex_encode_byte (calculate_lrc data_)),
        length-hex_encode data_,
        length-hex_encode_byte (calculate_lrc data_),
      ) in
    rw (even, line_bytes data_ h) (check_bytes-line data_ (omega arith))

-- Lines, each with its end.
unfoldable pub joined : List (List ℕ) → List ℕ
joined [] = []
joined (line ∷ lines) = line ++ (cr ∷ lf ∷ joined lines)

-- A line that the parser passes over: any values without a CR LF in them that decode to no frame.
abbrev pub IsJunk : List ℕ → Type 0
IsJunk line = (find_crlf line ≡ none) × (decode_line line ≡ none)

module _ (before line tail : List ℕ) (h : find_crlf line ≡ none) where
  next_line :
      find_crlf (drop (length before) (before ++ (line ++ (cr ∷ lf ∷ tail)))) ≡ some (length line)
  next_line = rw (drop-append_self before (line ++ (cr ∷ lf ∷ tail))) (find_crlf-line line tail h)

  next_text :
      take (length line) (drop (length before) (before ++ (line ++ (cr ∷ lf ∷ tail)))) ≡ line
  next_text =
      rw (drop-append_self before (line ++ (cr ∷ lf ∷ tail)))
        (take-append_self line (cr ∷ lf ∷ tail))

regroup :
    (before line j t : List ℕ)
    → before ++ (line ++ (cr ∷ lf ∷ (j ++ t))) ≡ (before ++ (line ++ (cr ∷ lf ∷ []))) ++ (j ++ t)
regroup before line j t =
    rw
      (
        append_assoc before (line ++ (cr ∷ lf ∷ [])) (j ++ t),
        append_assoc line (cr ∷ lf ∷ []) (j ++ t),
      )
      refl

module _ (slave b : ℕ) (pdu rest : List ℕ) (h : All IsByte (slave ∷ b ∷ pdu)) where
  abbrev frame_text : List ℕ
  frame_text = frame_line (slave ∷ b ∷ pdu)

  whole_line : find_crlf frame_text ≡ none
  whole_line = find_crlf-text frame_text (frame_line-IsText (slave ∷ b ∷ pdu) h)

  scan-lines :
      (fuel : ℕ) (lines : List (List ℕ)) (before : List ℕ)
      → All IsJunk lines
      → length lines ≤ fuel
      → scan
          (suc fuel)
          (length before)
          (before ++ (joined lines ++ (frame_text ++ (cr ∷ lf ∷ rest))))
        ≡ found slave (b ∷ pdu) (length before + length (joined lines) + (length frame_text + 2))
  unfolding joined
  scan-lines fuel [] before j lt =
      scan-found fuel (length before) (length frame_text) slave (b ∷ pdu)
        (before ++ (frame_text ++ (cr ∷ lf ∷ rest))) (next_line before frame_text rest whole_line)
        (ap decode_line (next_text before frame_text rest whole_line)
          ∙ decode_line-frame slave b pdu h)
      ∙ ap (found slave (b ∷ pdu)) (omega arith)
  scan-lines zero (line ∷ lines) before j lt = absurd (omega arith)
  scan-lines (suc fuel) (line ∷ lines) before j lt =
      let end = cr ∷ lf ∷ [] in
      let t = frame_text ++ (cr ∷ lf ∷ rest) in
      let tail = joined lines ++ t in
      let size : length (before ++ (line ++ end)) ≡ length before + length line + 2 =
        omega (arith, length-append before (line ++ end), length-append line end) in
      let longer = length-append line (cr ∷ lf ∷ joined lines) in
      rw (append_assoc line (cr ∷ lf ∷ joined lines) t) (
        scan-junk (suc fuel) (length before) (length line) (before ++ (line ++ (cr ∷ lf ∷ tail)))
          (next_line before line tail j.0.0)
          (ap decode_line (next_text before line tail j.0.0) ∙ j.0.1)
        ∙ ap₂ (scan (suc fuel)) (sym size) (regroup before line (joined lines) t)
        ∙ scan-lines fuel lines (before ++ (line ++ end)) j.1 (omega arith)
        ∙ ap (found slave (b ∷ pdu)) (omega (arith, size, longer)))

frame_wire :
    (data_ rest : List ℕ) → encode_ascii_frame data_ ++ rest ≡ frame_line data_ ++ (cr ∷ lf ∷ rest)
frame_wire data_ rest =
    rw (frame_layout data_) (append_assoc (frame_line data_) (cr ∷ lf ∷ []) rest)

length-frame : (data_ : List ℕ) → length (encode_ascii_frame data_) ≡ length (frame_line data_) + 2
length-frame data_ = rw (frame_layout data_) (length-append (frame_line data_) (cr ∷ lf ∷ []))

length-lines : (lines : List (List ℕ)) → length lines ≤ length (joined lines)
unfolding joined
length-lines [] = omega arith
length-lines (line ∷ lines) =
    omega (arith, length-append line (cr ∷ lf ∷ joined lines), length-lines lines)

-- A frame that the encoder wrote, of a slave id and a PDU of at least one byte, is found behind any
-- number of lines, each ended by CR LF and without one in it, that are no frames, and before whatever
-- follows; what is consumed is those lines and the frame.
pub try_parse_ascii_round_trip :
    (slave b : ℕ) (pdu rest : List ℕ) (lines : List (List ℕ))
    → All IsByte (slave ∷ b ∷ pdu)
    → All IsJunk lines
    → try_parse_ascii (joined lines ++ (encode_ascii_frame (slave ∷ b ∷ pdu) ++ rest))
      ≡ found slave
          (b ∷ pdu)
          (length (joined lines) + length (encode_ascii_frame (slave ∷ b ∷ pdu)))
unfolding try_parse_ascii
try_parse_ascii_round_trip slave b pdu rest lines h j =
    let data_ = slave ∷ b ∷ pdu in
    let text = joined lines ++ (frame_line data_ ++ (cr ∷ lf ∷ rest)) in
    let size = length-append (joined lines) (frame_line data_ ++ (cr ∷ lf ∷ rest)) in
    rw (frame_wire data_ rest, length-frame data_)
      (scan-lines slave b pdu rest h (length text) lines [] j
          (omega (arith, size, length-lines lines))
        ∙ ap (found slave (b ∷ pdu)) (omega arith))

pub nonempty : (xs : List ℕ) → 1 ≤ length xs → (b : ℕ) × (rest : List ℕ) × (xs ≡ b ∷ rest)
nonempty [] h = absurd (omega arith)
nonempty (x ∷ xs) h = (x, xs, refl)

abbrev IsParsed : ℕ → List ℕ → List (List ℕ) → List ℕ → Type 0
IsParsed slave rest lines pdu =
    try_parse_ascii (joined lines ++ (encode_ascii_frame (slave ∷ pdu) ++ rest))
    ≡ found slave pdu (length (joined lines) + length (encode_ascii_frame (slave ∷ pdu)))

accepted :
    (slave : ℕ) (rsp : Response) (n : ℕ)
    → IsResponse rsp
    → response_found slave (found slave (response_layout rsp) n) ≡ some (ok (received rsp))
accepted slave rsp n h = rw (==-refl slave) (
    ap (λ pdu. some (decoded pdu)) (sym (append-nil (response_layout rsp)))
    ∙ ap (λ r. some (map_err (λ e. ModbusError.protocol) r)) (response_of_bytes-layout rsp [] h))

-- The client that asked the slave takes a response in shape, in bytes, out of the slave's frame,
-- behind any number of lines, each ended by CR LF and without one in it, that are no frames, and before
-- whatever follows; the Booleans of a read are padded.
pub try_parse_ascii_response_round_trip :
    (slave : ℕ) (rsp : Response) (rest : List ℕ) (lines : List (List ℕ))
    → slave < 256
    → IsResponse rsp
    → All IsByte (response_layout rsp)
    → 1 ≤ length (response_layout rsp)
    → All IsJunk lines
    → try_parse_ascii_response
        (joined lines ++ (encode_ascii_frame (slave ∷ response_layout rsp) ++ rest))
        slave
      ≡ some (ok (received rsp))
unfolding try_parse_ascii_response
try_parse_ascii_response_round_trip slave rsp rest lines one_byte h bytes some_ j =
    let (b, pdu, e) = nonempty (response_layout rsp) some_ in
    let parsed = subst (IsParsed slave rest lines) (sym e) (
      try_parse_ascii_round_trip slave b pdu rest lines (one_byte, subst (All IsByte) e bytes) j) in
    ap (response_found slave) parsed
    ∙ accepted slave rsp
        (length (joined lines) + length (encode_ascii_frame (slave ∷ response_layout rsp))) h
