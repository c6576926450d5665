-- ===== src/Ascii/Pieces.antt =====
-- src/transport/ascii.rs: a frame that arrives in pieces, at the client and at the server.
use oms_modbus.Base.{
  ℕ, ◌≤◌, ◌<◌, ◌≡◌, ◌≢◌, refl, sym, ap, ◌∙◌, subst, false, ◌&&◌, List, [], ◌∷◌, ◌++◌, none, some,
  length, All, ◌⊎◌, inl, inr, arith, ◌==◌, ok, flatten, map, append-nil, append_assoc,
}
use oms_modbus.Frame.Types.{Response}
use oms_modbus.Frame.Wire.{IsByte, IsResponse, response_layout, received}
use oms_modbus.Codec.{cr, lf, encode_ascii_frame}
use oms_modbus.Ascii.{
  find_crlf, incomplete, try_parse_ascii, response_found, try_parse_ascii_response,
}
use oms_modbus.Ascii.Scan.{scan-none}
use oms_modbus.Ascii.Trip.{
  frame_line, frame_layout, frame_line-IsText, joined, try_parse_ascii_response_round_trip,
}
use oms_modbus.Ascii.Server.{or_else, ascii_receive}
use oms_modbus.Receive.{ReadOutcome, some_bytes}

above : (x : ℕ) (rest : ℕ) → cr < x → (x == cr && rest == lf) ≡ false
above x rest h = ground arith

nothing_left : (xs ys : List ℕ) → xs ++ ys ≡ [] → ys ≡ []
nothing_left [] ys e = e
nothing_left (x ∷ xs) ys e = absurd (cc)

-- In a proper part from the front of a line with its end, no end is found.
find_crlf-part :
    (line part rest : List ℕ)
    → All (λ c. cr < c) line
    → part ++ rest ≡ line ++ (cr ∷ lf ∷ [])
    → rest ≢ []
    → find_crlf part ≡ none
unfolding find_crlf
find_crlf-part line [] rest h e ne = refl
find_crlf-part line (x ∷ []) rest h e ne = refl
find_crlf-part [] (x ∷ y ∷ part) rest h e ne =
    let tails : part ++ rest ≡ [] = cc in absurd (ne (nothing_left part rest tails))
find_crlf-part (l ∷ line) (x ∷ y ∷ part) rest h e ne =
    let same : l ≡ x = cc in
    let tails : (y ∷ part) ++ rest ≡ line ++ (cr ∷ lf ∷ []) = cc in
    rw (above x y (subst (λ t. cr < t) same h.0), find_crlf-part line (y ∷ part) rest h.1 tails ne)
      refl

-- A proper part from the front of a frame is incomplete.
pub try_parse_ascii-part :
    (data_ part rest : List ℕ)
    → All IsByte data_
    → part ++ rest ≡ encode_ascii_frame data_
    → rest ≢ []
    → try_parse_ascii part ≡ incomplete
unfolding try_parse_ascii
try_parse_ascii-part data_ part rest h e ne = scan-none (length part) 0 part (
    find_crlf-part (frame_line data_) part rest (frame_line-IsText data_ h) (e ∙ frame_layout data_)
      ne)

pub nil-cases : (xs : List ℕ) → (xs ≡ []) ⊎ (xs ≢ [])
nil-cases [] = inl refl
nil-cases (x ∷ xs) = inr (λ e. cc)

pub frame-ne-nil : (data_ : List ℕ) → encode_ascii_frame data_ ≢ []
frame-ne-nil data_ e = let layout = sym (frame_layout data_) ∙ e in cc

abbrev pub pieces : List (List ℕ) → List ReadOutcome
pieces = map some_bytes

-- The pieces that are still to come complete the frame.
receive-pieces :
    (slave : ℕ) (rsp : Response) (buf : List ℕ) (chunks : List (List ℕ)) (later : List ReadOutcome)
    → slave < 256
    → IsResponse rsp
    → All IsByte (response_layout rsp)
    → 1 ≤ length (response_layout rsp)
    → buf ++ flatten chunks ≡ encode_ascii_frame (slave ∷ response_layout rsp)
    → flatten chunks ≢ []
    → ascii_receive slave buf (pieces chunks ++ later) ≡ some (ok (received rsp))
unfolding ascii_receive joined try_parse_ascii_response
receive-pieces slave rsp buf [] later lt h bytes two e ne = absurd (ne refl)
receive-pieces slave rsp buf (chunk ∷ chunks) later lt h bytes two e ne =
    let data_ = slave ∷ response_layout rsp in
    let arrived : (buf ++ chunk) ++ flatten chunks ≡ encode_ascii_frame data_ =
      append_assoc buf chunk (flatten chunks) ∙ e in
    elim (nil-cases (flatten chunks)) [
      | inl last ↦
          let whole : buf ++ chunk ≡ encode_ascii_frame data_ ++ [] =
            sym (append-nil (buf ++ chunk))
            ∙ ap (λ l. (buf ++ chunk) ++ l) (sym last)
            ∙ arrived
            ∙ sym (append-nil (encode_ascii_frame data_)) in
          ap
            (λ l.
              or_else (try_parse_ascii_response l slave)
                (ascii_receive slave (buf ++ chunk) (pieces chunks ++ later)))
            whole
          ∙ ap (λ r. or_else r (ascii_receive slave (buf ++ chunk) (pieces chunks ++ later)))
              (try_parse_ascii_response_round_trip slave rsp [] [] lt h bytes two tt)
      | inr more ↦
          ap
            (λ r.
              or_else (response_found slave r)
                (ascii_receive slave (buf ++ chunk) (pieces chunks ++ later)))
            (try_parse_ascii-part data_ (buf ++ chunk) (flatten chunks) (lt, bytes) arrived more)
          ∙ receive-pieces slave rsp (buf ++ chunk) chunks later lt h bytes two arrived more
    ]

-- However the frame of a response in shape, in bytes, of the slave that was asked is cut into reads, and
-- whatever comes after it: the client's receive loop returns the response, with the Booleans of a read
-- padded.
pub ascii_receive-pieces :
    (slave : ℕ) (rsp : Response) (chunks : List (List ℕ)) (later : List ReadOutcome)
    → slave < 256
    → IsResponse rsp
    → All IsByte (response_layout rsp)
    → 1 ≤ length (response_layout rsp)
    → flatten chunks ≡ encode_ascii_frame (slave ∷ response_layout rsp)
    → ascii_receive slave [] (pieces chunks ++ later) ≡ some (ok (received rsp))
ascii_receive-pieces slave rsp chunks later lt h bytes two e =
    receive-pieces slave rsp [] chunks later lt h bytes two e
      (λ none_given. frame-ne-nil (slave ∷ response_layout rsp) (sym e ∙ none_given))
