-- ===== src/Rtu/Sound.antt =====
-- src/transport/rtu.rs: what the server accepts is what the encoder writes.
use oms_modbus.Base.{
  ℕ, suc, ◌+◌, ◌-◌, ◌*◌, ◌/◌, ◌%◌, ◌≤◌, ◌≡◌, ◌≢◌, refl, sym, ap, ap₂, subst, ◌∙◌, List, [], ◌∷◌,
  ◌++◌, none, some, length, take, drop, get_or, All, All-get_or, arith, inl, inr, length-take,
}
use oms_modbus.Frame.Wire.{IsByte}
use oms_modbus.Codec.{calculate_crc, encode_rtu_frame}
use oms_modbus.Rtu.{crc_received, without_crc, try_parse_server_rtu}
use oms_modbus.Rtu.Serve.{IsFrame, parts, parse-cases}

last_two :
    (buf : List ℕ)
    → 2 ≤ length buf
    → take (length buf - 2) buf
        ++ (get_or buf (length buf - 2) 0 ∷ get_or buf (length buf - 1) 0 ∷ [])
      ≡ buf
last_two [] h = absurd (omega arith)
last_two (x ∷ []) h = absurd (omega arith)
last_two (x ∷ y ∷ []) h = refl
last_two (x ∷ y ∷ z ∷ rest) h =
    let low : length (x ∷ y ∷ z ∷ rest) - 2 ≡ suc (length (y ∷ z ∷ rest) - 2) = omega arith in
    let high : length (x ∷ y ∷ z ∷ rest) - 1 ≡ suc (length (y ∷ z ∷ rest) - 1) = omega arith in
    rw (low, high) (ap (λ l. x ∷ l) (last_two (y ∷ z ∷ rest) (omega arith)))

head_and_tail : (xs : List ℕ) → 1 ≤ length xs → get_or xs 0 0 ∷ drop 1 xs ≡ xs
head_and_tail [] h = absurd (omega arith)
head_and_tail (x ∷ xs) h = refl

frame_of_parts :
    (buf : List ℕ)
    → All IsByte buf
    → IsFrame buf
    → encode_rtu_frame (get_or (without_crc buf) 0 0 ∷ drop 1 (without_crc buf)) [] ≡ buf
unfolding without_crc encode_rtu_frame crc_received
frame_of_parts buf b good =
    let n = length buf in
    let data_ = take (n - 2) buf in
    let low = All-get_or IsByte buf (n - 2) 0 b (omega arith) in
    let high = All-get_or IsByte buf (n - 1) 0 b (omega arith) in
    let matches : get_or buf (n - 2) 0 + get_or buf (n - 1) 0 * 256 ≡ calculate_crc data_ =
      unfold crc_received in unfold without_crc in good.crc_matches in
    let first : calculate_crc data_ % 256 ≡ get_or buf (n - 2) 0 =
      omega (arith, low, high, matches) in
    let second : calculate_crc data_ / 256 ≡ get_or buf (n - 1) 0 =
      omega (arith, low, high, matches) in
    ap (λ d. encode_rtu_frame d [])
      (head_and_tail data_ (omega (arith, good.long, length-take (n - 2) buf)))
    ∙ ap₂ (λ x y. data_ ++ (x ∷ y ∷ [])) first second
    ∙ last_two buf (omega (arith, good.long))

some_injective : (a b : ℕ × (List ℕ × ℕ)) → some a ≡ some b → a ≡ b
some_injective a b e = cc

none-ne-some : {r : ℕ × (List ℕ × ℕ)} → none ≢ some r
none-ne-some e = cc

-- Bytes that the server accepts as a frame are, as a whole, what the encoder writes for the slave
-- id and the PDU that it took from them.
pub try_parse_server_rtu_sound :
    (buf pdu : List ℕ) (slave n : ℕ)
    → All IsByte buf
    → try_parse_server_rtu buf ≡ some (slave, (pdu, n))
    → (encode_rtu_frame (slave ∷ pdu) [] ≡ buf) × (n ≡ length buf)
try_parse_server_rtu_sound buf pdu slave n b e = elim (parse-cases buf) [
  | inl refused ↦ absurd (none-ne-some (sym refused ∙ e))
  | inr (good, accepted) ↦
      subst (λ r. (encode_rtu_frame (r.0 ∷ r.1.0) [] ≡ buf) × (r.1.1 ≡ length buf))
        (some_injective (parts buf) (slave, (pdu, n)) (sym accepted ∙ e))
        (frame_of_parts buf b good, refl)
]
