-- ===== src/Codec/Hex.antt =====
-- src/codec.rs and src/transport/ascii.rs: the two hexadecimal digits of a byte, written and read.
use oms_modbus.Base.{
  ℕ, ◌+◌, ◌-◌, ◌*◌, ◌%◌, ◌^◌, ◌<◌, ◌≡◌, refl, Bool, true, ◌&&◌, not, Option, none, some, arith,
}
use oms_modbus.Base.{
  List, [], ◌∷◌, ◌++◌, if◌then◌else◌, leb, ltb, ◌==◌, bit_or, get_or, length, append_assoc, All,
  All-append,
}
use oms_modbus.Base.Ranges.{all_below, all_below_sound, and_left, and_right}
use oms_modbus.Frame.Wire.{IsByte}
use oms_modbus.Codec.{hex_encode_byte, hex_encode, cr}

-- `nibble`: `none` is the source's error.
unfoldable pub nibble : ℕ → Option ℕ
nibble c =
    if leb b'0' c && leb c b'9'
    then some (c - b'0')
    else if leb b'A' c && leb c b'F'
    then some (c - b'A' + 10)
    else if leb b'a' c && leb c b'f'
    then some (c - b'a' + 10)
    else none

abbrev pub join_nibbles : Option ℕ → Option ℕ → Option ℕ
join_nibbles none lo = none
join_nibbles (some h) none = none
join_nibbles (some h) (some l) = some (bit_or (h * 2 ^ 4 % 2 ^ 8) l)

-- `hex_decode_byte`
unfoldable pub hex_decode_byte : ℕ → ℕ → Option ℕ
hex_decode_byte hi lo = join_nibbles (nibble hi) (nibble lo)

abbrev pub cons_byte : Option ℕ → Option (List ℕ) → Option (List ℕ)
cons_byte none bytes = none
cons_byte (some b) none = none
cons_byte (some b) (some bytes) = some (b ∷ bytes)

abbrev same_option : Option ℕ → ℕ → Bool
same_option none b = not (b == b)
same_option (some a) b = a == b

abbrev first_digit : ℕ → ℕ
first_digit b = get_or (hex_encode_byte b) 0 0

abbrev second_digit : ℕ → ℕ
second_digit b = get_or (hex_encode_byte b) 1 0

digit_table :
    all_below 256 (λ b. same_option (hex_decode_byte (first_digit b) (second_digit b)) b) ≡ true
unfolding all_below hex_decode_byte nibble hex_encode_byte
digit_table = refl

text_table : all_below 256 (λ b. ltb cr (first_digit b) && ltb cr (second_digit b)) ≡ true
unfolding all_below hex_encode_byte
text_table = refl

same_option-eq : (o : Option ℕ) (b : ℕ) → same_option o b ≡ true → o ≡ some b
same_option-eq none b h = absurd (ground arith)
same_option-eq (some a) b h = ground arith

-- The two digits of a byte read back as that byte.
hex_decode-encode : (b : ℕ) → b < 256 → hex_decode_byte (first_digit b) (second_digit b) ≡ some b
hex_decode-encode b h = same_option-eq _ b (
    all_below_sound 256 (λ t. same_option (hex_decode_byte (first_digit t) (second_digit t)) t) b
      digit_table h)

ltb-lt : (a b : ℕ) → ltb a b ≡ true → a < b
ltb-lt a b h = ground arith

-- Neither digit is a carriage return or a line feed.
digits_are_text : (b : ℕ) → b < 256 → (cr < first_digit b) × (cr < second_digit b)
digits_are_text b h =
    let both : (ltb cr (first_digit b) && ltb cr (second_digit b)) ≡ true =
      all_below_sound 256 (λ t. ltb cr (first_digit t) && ltb cr (second_digit t)) b text_table h in
    (ltb-lt _ _ (and_left _ _ both), ltb-lt _ _ (and_right _ _ both))

-- The `chunks(2)` loop over hexadecimal digits: `none` where one is none.
unfoldable pub decode_pairs : List ℕ → Option (List ℕ)
decode_pairs [] = some []
decode_pairs (c ∷ []) = none
decode_pairs (hi ∷ lo ∷ rest) = cons_byte (hex_decode_byte hi lo) (decode_pairs rest)

hex_encode_byte-digits : (b : ℕ) → hex_encode_byte b ≡ first_digit b ∷ second_digit b ∷ []
unfolding hex_encode_byte
hex_encode_byte-digits b = refl

pub decode_pairs-hex_encode_byte :
    (b : ℕ) (rest : List ℕ)
    → b < 256
    → decode_pairs (hex_encode_byte b ++ rest) ≡ cons_byte (some b) (decode_pairs rest)
unfolding decode_pairs hex_encode_byte
decode_pairs-hex_encode_byte b rest h = rw (hex_decode-encode b h)

pub decode_pairs-hex_encode :
    (data_ : List ℕ) (rest tail : List ℕ)
    → All IsByte data_
    → decode_pairs rest ≡ some tail
    → decode_pairs (hex_encode data_ ++ rest) ≡ some (data_ ++ tail)
unfolding hex_encode
decode_pairs-hex_encode [] rest tail h e = e
decode_pairs-hex_encode (b ∷ data_) rest tail h e =
    rw
      (
        append_assoc (hex_encode_byte b) (hex_encode data_) rest,
        decode_pairs-hex_encode_byte b (hex_encode data_ ++ rest) h.0,
        decode_pairs-hex_encode data_ rest tail h.1 e,
      )
      refl

pub hex_encode_byte-IsText : (b : ℕ) → b < 256 → All (λ c. cr < c) (hex_encode_byte b)
unfolding hex_encode_byte
hex_encode_byte-IsText b h =
    let (one, two) = digits_are_text b h in unfold hex_encode_byte in (one, (two, tt))

pub hex_encode-IsText : (data_ : List ℕ) → All IsByte data_ → All (λ c. cr < c) (hex_encode data_)
unfolding hex_encode
hex_encode-IsText [] h = tt
hex_encode-IsText (b ∷ data_) h =
    All-append (λ c. cr < c) (hex_encode_byte b) (hex_encode data_) (hex_encode_byte-IsText b h.0)
      (hex_encode-IsText data_ h.1)

pub length-hex_encode : (data_ : List ℕ) → length (hex_encode data_) ≡ length data_ * 2
unfolding hex_encode hex_encode_byte
length-hex_encode [] = refl
length-hex_encode (b ∷ data_) = omega (arith, length-hex_encode data_)

pub length-hex_encode_byte : (b : ℕ) → length (hex_encode_byte b) ≡ 2
unfolding hex_encode_byte
length-hex_encode_byte b = refl
