-- ===== src/Frame/RequestSound.antt =====
-- src/frame.rs: whatever bytes the decoder of requests accepts, the request lies within the limits
-- of the protocol, and no read goes past the end of the buffer.
use oms_modbus.Base.{ℕ, zero, suc, ◌+◌, ◌-◌, ◌*◌, ◌≤◌, ◌≡◌, ◌≢◌, refl, Bool, true, false}
use oms_modbus.Base.{
  List, [], ◌∷◌, ◌++◌, Result, ok, err, length, take, min, div_ceil, arith, length-append, All,
  All-append,
}
use oms_modbus.Base.{
  length-take, ◌==◌, ltb, ◌||◌, String, Bool-cases, ◌⊎◌, inl, inr, if◌then◌else◌, subst,
}
use oms_modbus.Frame.Types.{
  max_coils, max_registers, Request, IoError, panic, invalid_data, byte_count, quantity_range,
  address_range,
}
use oms_modbus.Frame.Buffer.{
  OnBuffer, ◌>>=◌, ◌>>◌, continue, pure, require, require_remaining, read_u8, read_u16, get_u16s,
}
use oms_modbus.Frame.Wire.{IsRequest, IsRange, IsU16, IsByte}
use oms_modbus.Frame.Bits.{push_bits-eq, push_bits_over, bits_from, length-bits_from}
use oms_modbus.Frame.Decode.{
  test_bit, decode_request, request_of_bytes, decode_read_coils, push_bits, get_coils, check_range,
  truncated, coil_value_of,
}
use oms_modbus.Frame.Decode.{decode_read_discrete_inputs, decode_read_holding_registers}
use oms_modbus.Frame.Decode.{decode_read_input_registers, decode_write_single_coil}
use oms_modbus.Frame.Decode.{decode_write_single_register, decode_write_multiple_coils}
use oms_modbus.Frame.Decode.{decode_write_multiple_registers, decode_mask_write_register}
use oms_modbus.Frame.Decode.{decode_read_write_multiple_registers, decode_diagnostic}

-- What the arms of the decoder establish.
abbrev Sound : Result Request IoError → Type 0
Sound (ok req) = IsRequest req
Sound (err e) = e ≢ panic

check_range_cases :
    (name : String) (most a q : ℕ) (buf : List ℕ)
    → ((check_range name most a q buf ≡ (ok tt, buf)) × IsRange most a q)
      ⊎ ((e : IoError) × (check_range name most a q buf ≡ (err e, buf)) × (e ≢ panic))
unfolding check_range
check_range_cases name most a q buf = elim (Bool-cases (q == 0 || ltb most q)) [
  | inl bad ↦ inr (invalid_data (quantity_range name q most), rw bad, λ e. cc)
  | inr good ↦ elim (Bool-cases (ltb 0x10000 (a + q))) [
    | inl bad ↦ inr (invalid_data (address_range name a q), rw (good, bad), λ e. cc)
    | inr fits ↦ inl (rw (good, fits), ground arith)
  ]
]

-- An arm that reads an address and a quantity, checks them, and goes on.
range-Sound :
    (name : String) (most : ℕ) (next : ℕ → ℕ → OnBuffer Request)
    → ((a q : ℕ) (d : List ℕ) → All IsByte d → IsRange most a q → Sound (next a q d).0)
    → (d : List ℕ) → All IsByte d
    → Sound
        ((read_u16 truncated >>= λ a.
            read_u16 truncated >>= λ q. check_range name most a q >> next a q)
          d).0
range-Sound name most next keep [] h = λ e. cc
range-Sound name most next keep (a ∷ []) h = λ e. cc
range-Sound name most next keep (a ∷ b ∷ []) h = λ e. cc
range-Sound name most next keep (a ∷ b ∷ c ∷ []) h = λ e. cc
range-Sound name most next keep (a ∷ b ∷ c ∷ e ∷ r) h =
    elim (check_range_cases name most (a * 256 + b) (c * 256 + e) r) [
      | inl (p, range) ↦ rw p (keep _ _ r h.1.1.1.1 range)
      | inr (x, p, ne) ↦ rw p ne
    ]

-- Reading registers behind a check that they are there.
abbrev AreWords : ℕ → Result (List ℕ) IoError → Type 0
AreWords n (ok out) = (length out ≡ n) × All IsU16 out
AreWords n (err e) = ⊥

get_u16s-AreWords :
    (n : ℕ) (values d : List ℕ)
    → All IsByte d
    → All IsU16 values
    → n * 2 ≤ length d
    → AreWords (length values + n) (get_u16s n values d).0
unfolding get_u16s
get_u16s-AreWords zero values d h k fits = (omega arith, k)
get_u16s-AreWords (suc n) values [] h k fits = absurd (omega arith)
get_u16s-AreWords (suc n) values (a ∷ []) h k fits = absurd (omega arith)
get_u16s-AreWords (suc n) values (a ∷ b ∷ d) h k fits =
    let more : length (values ++ ((a * 256 + b) ∷ [])) + n ≡ length values + suc n =
      omega (arith, length-append values ((a * 256 + b) ∷ [])) in
    rw more at (
      get_u16s-AreWords n (values ++ ((a * 256 + b) ∷ [])) d h.1.1
        (All-append IsU16 values _ k (omega arith, tt)) (omega arith))

words-Sound :
    (n : ℕ) (build : List ℕ → Request) (o : Result (List ℕ) IoError × List ℕ)
    → ((values : List ℕ) → length values ≡ n → All IsU16 values → IsRequest (build values))
    → AreWords n o.0
    → Sound (continue o (λ values. pure (build values))).0
words-Sound n build (ok out, d) keep h = keep out h.0 h.1
words-Sound n build (err e, d) keep h = absurd h

-- The arms with registers go on in the same way behind their range checks.
registers-Sound :
    (name short : String) (qty : ℕ) (build : List ℕ → Request) (d : List ℕ)
    → ((values : List ℕ) → length values ≡ qty → All IsU16 values → IsRequest (build values))
    → All IsByte d
    → Sound
        ((do
          count ← read_u8 truncated
          require (count == qty * 2) (invalid_data (byte_count name count (qty * 2)))
          require_remaining (qty * 2) short
          values ← get_u16s qty []
          pure (build values))
          d).0
registers-Sound name short qty build [] keep h = λ e. cc
registers-Sound name short qty build (count ∷ d) keep h = elim (Bool-cases (count == qty * 2)) [
  | inr bad ↦ rw bad (λ e. cc)
  | inl good ↦ elim (Bool-cases (ltb (length d) (qty * 2))) [
    | inl few ↦ rw (good, few) (λ e. cc)
    | inr enough ↦
        rw (good, enough)
          (words-Sound qty build (get_u16s qty [] d) keep (
            let none_yet : 0 + qty ≡ qty = omega arith in
            rw none_yet at (get_u16s-AreWords qty [] d h.1 tt (ground arith))))
  ]
]

-- The loop over the coil bytes yields at least as many Booleans as are wanted.
abbrev Reaches : ℕ → Result (List Bool) IoError → Type 0
Reaches n (ok out) = n ≤ length out
Reaches n (err e) = ⊥

length-push_bits :
    (byte qty : ℕ) (values : List Bool)
    → min qty (length values + 8) ≤ length (push_bits byte qty 0 8 values)
length-push_bits byte qty values = elim (Bool-cases (ltb (length values) qty)) [
  | inl below ↦ ground (
    arith,
    push_bits-eq byte qty 0 8 values,
    length-append values (take (qty - length values) (bits_from byte 0 8)),
    length-take (qty - length values) (bits_from byte 0 8),
    length-bits_from byte 0 8,
  )
  | inr done ↦
      let full : qty ≤ length values = ground arith in
      rw (push_bits_over byte qty values full)
        (omega (arith, length-append values (test_bit byte 0 ∷ [])))
]

get_coils-Reaches :
    (qty n : ℕ) (values : List Bool) (d : List ℕ)
    → n ≤ length d
    → qty ≤ length values + 8 * n
    → Reaches qty (get_coils qty n values d).0
unfolding get_coils
get_coils-Reaches qty zero values d h k = omega arith
get_coils-Reaches qty (suc n) values [] h k = absurd (omega arith)
get_coils-Reaches qty (suc n) values (b ∷ d) h k =
    get_coils-Reaches qty n (push_bits b qty 0 8 values) d (omega arith)
      (omega (arith, length-push_bits b qty values))

coils-Sound :
    (addr qty : ℕ) (o : Result (List Bool) IoError × List ℕ)
    → IsRange max_coils addr qty
    → Reaches qty o.0
    → Sound (continue o (λ values. pure (Request.write_multiple_coils addr (take qty values)))).0
coils-Sound addr qty (ok out, d) range h =
    let size : length (take qty out) ≡ qty = omega (arith, length-take qty out) in rw size range
coils-Sound addr qty (err e, d) range h = absurd h

write_coils-Sound :
    (addr qty : ℕ) (d : List ℕ)
    → IsRange max_coils addr qty
    → Sound
        ((do
          count ← read_u8 truncated
          require
              (count == div_ceil qty 8)
              (invalid_data (byte_count "WriteMultipleCoils" count (div_ceil qty 8)))
          require_remaining count "truncated coil data"
          values ← get_coils qty count []
          pure (Request.write_multiple_coils addr (take qty values)))
          d).0
write_coils-Sound addr qty [] range = λ e. cc
write_coils-Sound addr qty (count ∷ d) range = elim (Bool-cases (count == div_ceil qty 8)) [
  | inr bad ↦ rw bad (λ e. cc)
  | inl good ↦ elim (Bool-cases (ltb (length d) count)) [
    | inl few ↦ rw (good, few) (λ e. cc)
    | inr enough ↦
        rw (good, enough)
          (coils-Sound addr qty (get_coils qty count [] d) range
            (get_coils-Reaches qty count [] d (ground arith) (ground arith)))
  ]
]

word_pair-Sound :
    (build : ℕ → ℕ → OnBuffer Request)
    → ((a v : ℕ) (d : List ℕ) → IsU16 a → IsU16 v → Sound (build a v d).0)
    → (d : List ℕ) → All IsByte d
    → Sound ((read_u16 truncated >>= λ a. read_u16 truncated >>= build a) d).0
word_pair-Sound build keep [] h = λ e. cc
word_pair-Sound build keep (a ∷ []) h = λ e. cc
word_pair-Sound build keep (a ∷ b ∷ []) h = λ e. cc
word_pair-Sound build keep (a ∷ b ∷ c ∷ []) h = λ e. cc
word_pair-Sound build keep (a ∷ b ∷ c ∷ e ∷ r) h =
    keep (a * 256 + b) (c * 256 + e) r (omega arith) (omega arith)

mask_write-Sound : (d : List ℕ) → All IsByte d → Sound (decode_mask_write_register d).0
unfolding decode_mask_write_register
mask_write-Sound [] h = λ e. cc
mask_write-Sound (a ∷ []) h = λ e. cc
mask_write-Sound (a ∷ b ∷ []) h = λ e. cc
mask_write-Sound (a ∷ b ∷ c ∷ []) h = λ e. cc
mask_write-Sound (a ∷ b ∷ c ∷ e ∷ []) h = λ e. cc
mask_write-Sound (a ∷ b ∷ c ∷ e ∷ f ∷ []) h = λ e. cc
mask_write-Sound (a ∷ b ∷ c ∷ e ∷ f ∷ g ∷ r) h = omega arith

single_coil-Sound :
    (a v : ℕ) (d : List ℕ)
    → IsU16 a
    → IsU16 v
    → Sound ((coil_value_of v >>= λ val. pure (Request.write_single_coil a val)) d).0
single_coil-Sound a v d h k = elim (Bool-cases (v == 0xff00)) [
  | inl on ↦ rw on h
  | inr other ↦ elim (Bool-cases (v == 0)) [
    | inl off ↦ rw (other, off) h
    | inr bad ↦ rw (other, bad) (λ e. cc)
  ]
]

if_Sound :
    (c : Bool) (x y : OnBuffer Request) (d : List ℕ)
    → Sound (x d).0
    → Sound (y d).0
    → Sound ((if c then x else y) d).0
if_Sound true x y d h k = h
if_Sound false x y d h k = k

read_write-Sound : (d : List ℕ) → All IsByte d → Sound (decode_read_write_multiple_registers d).0
unfolding decode_read_write_multiple_registers
read_write-Sound = range-Sound _ max_registers _ (λ r q d h range.
    range-Sound _ max_registers _
      (λ w n d' h' range'. registers-Sound _ _ n _ d' (λ values e k. rw e (range, range', k)) h') d
      h)

write_registers-Sound : (d : List ℕ) → All IsByte d → Sound (decode_write_multiple_registers d).0
unfolding decode_write_multiple_registers
write_registers-Sound =
    range-Sound _ max_registers _
      (λ a q d h range. registers-Sound _ _ q _ d (λ values e k. rw e (range, k)) h)

write_register-Sound : (d : List ℕ) → All IsByte d → Sound (decode_write_single_register d).0
unfolding decode_write_single_register
write_register-Sound =
    word_pair-Sound (λ a v. pure (Request.write_single_register a v)) (λ a v r k l. (k, l))

diagnostic-Sound : (d : List ℕ) → All IsByte d → Sound (decode_diagnostic d).0
unfolding decode_diagnostic
diagnostic-Sound = word_pair-Sound (λ a v. pure (Request.diagnostic a v)) (λ a v r k l. (k, l))

read_coils-Sound : (d : List ℕ) → All IsByte d → Sound (decode_read_coils d).0
unfolding decode_read_coils
read_coils-Sound =
    range-Sound _ max_coils (λ a q. pure (Request.read_coils a q)) (λ a q r k range. range)

read_discrete_inputs-Sound : (d : List ℕ) → All IsByte d → Sound (decode_read_discrete_inputs d).0
unfolding decode_read_discrete_inputs
read_discrete_inputs-Sound =
    range-Sound _ max_coils (λ a q. pure (Request.read_discrete_inputs a q))
      (λ a q r k range. range)

read_holding_registers-Sound :
    (d : List ℕ) → All IsByte d → Sound (decode_read_holding_registers d).0
unfolding decode_read_holding_registers
read_holding_registers-Sound =
    range-Sound _ max_registers (λ a q. pure (Request.read_holding_registers a q))
      (λ a q r k range. range)

read_input_registers-Sound : (d : List ℕ) → All IsByte d → Sound (decode_read_input_registers d).0
unfolding decode_read_input_registers
read_input_registers-Sound =
    range-Sound _ max_registers (λ a q. pure (Request.read_input_registers a q))
      (λ a q r k range. range)

write_single_coil-Sound : (d : List ℕ) → All IsByte d → Sound (decode_write_single_coil d).0
unfolding decode_write_single_coil
write_single_coil-Sound = word_pair-Sound _ single_coil-Sound

write_multiple_coils-Sound : (d : List ℕ) → All IsByte d → Sound (decode_write_multiple_coils d).0
unfolding decode_write_multiple_coils
write_multiple_coils-Sound =
    range-Sound _ max_coils _ (λ a q r k range. write_coils-Sound a q r range)

decode_request-Sound : (fc : ℕ) (d : List ℕ) → All IsByte d → Sound (decode_request fc d).0
unfolding decode_request
decode_request-Sound fc d h = if_Sound (fc == 1) _ _ d (read_coils-Sound d h) (
    if_Sound (fc == 2) _ _ d (read_discrete_inputs-Sound d h) (
      if_Sound (fc == 3) _ _ d (read_holding_registers-Sound d h) (
        if_Sound (fc == 4) _ _ d (read_input_registers-Sound d h) (
          if_Sound (fc == 5) _ _ d (write_single_coil-Sound d h) (
            if_Sound (fc == 6) _ _ d (write_register-Sound d h) (
              if_Sound (fc == 15) _ _ d (write_multiple_coils-Sound d h) (
                if_Sound (fc == 16) _ _ d (write_registers-Sound d h) (
                  if_Sound (fc == 22) _ _ d (mask_write-Sound d h) (
                    if_Sound (fc == 23) _ _ d (read_write-Sound d h)
                      (if_Sound (fc == 8) _ _ d (diagnostic-Sound d h) (λ e. cc)))))))))))

request_of_bytes-Sound : (bytes : List ℕ) → All IsByte bytes → Sound (request_of_bytes bytes)
unfolding request_of_bytes
request_of_bytes-Sound [] h = λ e. cc
request_of_bytes-Sound (fc ∷ d) h = decode_request-Sound fc d h.1

-- Whatever bytes the server's decoder accepts, the request that it returns lies within the limits of
-- the protocol: its quantity is at least 1 and at most the maximum, its last address exists, and its
-- values are 16-bit words.
pub request_of_bytes-IsRequest :
    (bytes : List ℕ) (req : Request)
    → All IsByte bytes
    → request_of_bytes bytes ≡ ok req
    → IsRequest req
request_of_bytes-IsRequest bytes req h e = subst Sound e (request_of_bytes-Sound bytes h)

-- On no input, however malformed, does the server's decoder read past the end of its buffer.
pub request_of_bytes-ne-panic :
    (bytes : List ℕ) → All IsByte bytes → request_of_bytes bytes ≢ err panic
request_of_bytes-ne-panic bytes h e = subst Sound e (request_of_bytes-Sound bytes h) refl
