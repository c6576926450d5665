-- ===== src/Ascii/Found.antt =====
-- src/transport/ascii.rs: where a frame that was found lies, and that it consists of bytes.
use oms_modbus.Base.{
  ℕ, zero, suc, ◌+◌, ◌-◌, ◌*◌, ◌%◌, ◌^◌, ◌≤◌, ◌<◌, ◌≡◌, refl, sym, ◌∙◌, subst, Bool, true, false,
  List, [], ◌∷◌, Option, none, some, length, take, drop, All, Option-cases, inl, inr, arith,
  length-drop, bit_or, All-take, if◌then◌else◌,
}
use oms_modbus.Base.Binary.{bit_or-lt}
use oms_modbus.Frame.Wire.{IsByte}
use oms_modbus.Codec.Hex.{nibble, join_nibbles, hex_decode_byte, cons_byte, decode_pairs}
use oms_modbus.Ascii.{find_crlf, decode_line, check_bytes, split_slave, found, scan}
use oms_modbus.Ascii.Scan.{find_crlf-bound, scan-none, scan-junk, scan-found}

nibble-lt : (c v : ℕ) → nibble c ≡ some v → v < 16
unfolding nibble
nibble-lt c v h = ground arith

-- Both halves of a byte are digits.
join_nibbles-lt :
    (a b : Option ℕ) (v : ℕ)
    → ((x : ℕ) → a ≡ some x → x < 16)
    → ((x : ℕ) → b ≡ some x → x < 16)
    → join_nibbles a b ≡ some v
    → v < 256
join_nibbles-lt none b v h k e = absurd (cc)
join_nibbles-lt (some x) none v h k e = absurd (cc)
join_nibbles-lt (some x) (some y) v h k e =
    let high = h x refl in
    let low = k y refl in
    let value : bit_or (x * 2 ^ 4 % 2 ^ 8) y ≡ v = cc in
    omega (arith, value, bit_or-lt 8 (x * 2 ^ 4 % 2 ^ 8) y (omega arith) (omega arith))

hex_decode_byte-lt : (hi lo b : ℕ) → hex_decode_byte hi lo ≡ some b → b < 256
unfolding hex_decode_byte
hex_decode_byte-lt hi lo b = join_nibbles-lt (nibble hi) (nibble lo) b (nibble-lt hi) (nibble-lt lo)

cons_byte-IsByte :
    (b : Option ℕ) (rest : Option (List ℕ)) (bytes : List ℕ)
    → ((v : ℕ) → b ≡ some v → v < 256)
    → ((vs : List ℕ) → rest ≡ some vs → All IsByte vs)
    → cons_byte b rest ≡ some bytes
    → All IsByte bytes
cons_byte-IsByte none rest bytes h k e = absurd (cc)
cons_byte-IsByte (some b) none bytes h k e = absurd (cc)
cons_byte-IsByte (some b) (some vs) bytes h k e =
    let same : (b ∷ vs) ≡ bytes = cc in subst (All IsByte) same (h b refl, k vs refl)

decode_pairs-IsByte : (cs bytes : List ℕ) → decode_pairs cs ≡ some bytes → All IsByte bytes
unfolding decode_pairs
decode_pairs-IsByte [] bytes e = let same : [] ≡ bytes = cc in subst (All IsByte) same tt
decode_pairs-IsByte (c ∷ []) bytes e = absurd (cc)
decode_pairs-IsByte (hi ∷ lo ∷ rest) bytes e =
    cons_byte-IsByte (hex_decode_byte hi lo) (decode_pairs rest) bytes (hex_decode_byte-lt hi lo)
      (decode_pairs-IsByte rest) e

split_slave-IsByte :
    (xs pdu : List ℕ) (slave : ℕ)
    → All IsByte xs
    → split_slave xs ≡ some (slave, pdu)
    → All IsByte pdu
split_slave-IsByte [] pdu slave h e = absurd (cc)
split_slave-IsByte (x ∷ xs) pdu slave h e = let same : xs ≡ pdu = cc in subst (All IsByte) same h.1

-- Only the branch that yields something matters.
taken_branch {ℓ} :
    {A : Type ℓ} (b : Bool) (o : Option A) (x : A) → (if b then o else none) ≡ some x → o ≡ some x
taken_branch true o x e = e
taken_branch false o x e = absurd (cc)

check_bytes-IsByte :
    (decoded : Option (List ℕ)) (slave : ℕ) (pdu : List ℕ)
    → ((bytes : List ℕ) → decoded ≡ some bytes → All IsByte bytes)
    → check_bytes decoded ≡ some (slave, pdu)
    → All IsByte pdu
check_bytes-IsByte none slave pdu h e = absurd (cc)
check_bytes-IsByte (some bytes) slave pdu h e =
    let n = length bytes - 1 in
    split_slave-IsByte (take n bytes) pdu slave (All-take IsByte n bytes (h bytes refl))
      (taken_branch _ (split_slave (take n bytes)) (slave, pdu) e)

decode_line-IsByte :
    (line : List ℕ) (slave : ℕ) (pdu : List ℕ)
    → decode_line line ≡ some (slave, pdu)
    → All IsByte pdu
unfolding decode_line
decode_line-IsByte [] slave pdu e = absurd (cc)
decode_line-IsByte (c ∷ hex_chars) slave pdu e =
    check_bytes-IsByte (decode_pairs hex_chars) slave pdu (decode_pairs-IsByte hex_chars)
      (taken_branch _ (check_bytes (decode_pairs hex_chars)) (slave, pdu) e)

-- What was found lies in the buffer behind the offset, and consists of bytes.
pub record IsFound (offset : ℕ) (buf pdu : List ℕ) (consumed : ℕ) : Type 0 where
  pub some_bytes : offset + 2 ≤ consumed
  pub there : consumed ≤ length buf
  pub bytes : All IsByte pdu

IsFound-same :
    (offset slave consumed slave' consumed' : ℕ) (buf pdu pdu' : List ℕ)
    → IsFound offset buf pdu consumed
    → found slave pdu consumed ≡ found slave' pdu' consumed'
    → IsFound offset buf pdu' consumed'
IsFound-same offset slave consumed slave' consumed' buf pdu pdu' h e =
    let at_end : consumed ≡ consumed' = cc in
    let same : pdu ≡ pdu' = cc in
    record {
      some_bytes = omega (arith, at_end, h.some_bytes);
      there = omega (arith, at_end, h.there);
      bytes = subst (All IsByte) same h.bytes;
    }

pub scan-IsFound :
    (fuel offset : ℕ) (buf : List ℕ) (slave consumed : ℕ) (pdu : List ℕ)
    → offset ≤ length buf
    → scan fuel offset buf ≡ found slave pdu consumed
    → IsFound offset buf pdu consumed
unfolding scan
scan-IsFound zero offset buf slave consumed pdu h e = absurd (cc)
scan-IsFound (suc fuel) offset buf slave consumed pdu h e =
    elim (Option-cases (find_crlf (drop offset buf))) [
      | inl none_left ↦ absurd (cc (scan-none fuel offset buf none_left))
      | inr (p, at_p) ↦
          let bound = find_crlf-bound (drop offset buf) p at_p in
          let size = length-drop offset buf in
          elim (Option-cases (decode_line (take p (drop offset buf)))) [
            | inl junk ↦
                let later =
                  scan-IsFound fuel (offset + p + 2) buf slave consumed pdu
                    (omega (arith, bound, size))
                    (sym (scan-junk fuel offset p buf at_p junk) ∙ e) in
                record {
                  some_bytes = omega (arith, later.some_bytes);
                  there = later.there;
                  bytes = later.bytes;
                }
            | inr ((slave', pdu'), good) ↦
                IsFound-same offset slave' (offset + p + 2) slave consumed buf pdu' pdu
                  (record {
                    some_bytes = omega arith;
                    there = omega (arith, bound, size);
                    bytes = decode_line-IsByte (take p (drop offset buf)) slave' pdu' good;
                  })
                  (sym (scan-found fuel offset p slave' pdu' buf at_p good) ∙ e)
          ]
    ]
