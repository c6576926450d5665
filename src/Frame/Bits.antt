-- ===== src/Frame/Bits.antt =====
-- src/frame.rs: the bit packing of coils, `chunks(8)` and the loops that set and test one bit at a
-- time, against the lists of Booleans that they stand for.
use oms_modbus.Base.{
  ℕ, zero, suc, ◌+◌, ◌-◌, ◌*◌, ◌≤◌, ◌<◌, ◌≡◌, refl, ap, sym, ◌∙◌, Bool, true, false, ◌&&◌,
}
use oms_modbus.Base.{List, [], ◌∷◌, ◌++◌, ok, ltb, length, take, replicate, div_ceil, arith}
use oms_modbus.Base.{
  append_assoc, append-nil, length-append, take-nil, take_pos, take_zero, take_le, take_all, All,
  ◌⊎◌, inl, inr,
}
use oms_modbus.Base.Ranges.{
  all_below, all_below_sound, all_bools, all_bools_sound, bools_eq, bools_eq-eq,
}
use oms_modbus.Frame.Encode.{chunks, set_bits, pack_bits}
use oms_modbus.Frame.Decode.{test_bit, push_bits, get_coils, byte_bits, get_bits}
use oms_modbus.Frame.Wire.{IsByte, padded}

-- Induction over a list as `chunks` cuts it.
pub chunk_ind {ℓ} :
    (P : List Bool → Type ℓ)
    → P []
    → ((c : List Bool) → 1 ≤ length c → length c ≤ 7 → P c)
    → ((c rest : List Bool) → length c ≡ 8 → P rest → P (c ++ rest))
    → (vs : List Bool) → P vs
chunk_ind P e s l [] = e
chunk_ind P e s l (a ∷ b ∷ c ∷ d ∷ x ∷ f ∷ g ∷ h ∷ rest) =
    l (a ∷ b ∷ c ∷ d ∷ x ∷ f ∷ g ∷ h ∷ []) rest refl (chunk_ind P e s l rest)
chunk_ind P e s l short = s short (omega arith) (omega arith)

pub chunks_short : (c : List Bool) → 1 ≤ length c → length c ≤ 7 → chunks c ≡ c ∷ []
unfolding chunks
chunks_short [] h k = absurd (omega arith)
chunks_short (a ∷ b ∷ c ∷ d ∷ x ∷ f ∷ g ∷ i ∷ rest) h k = absurd (omega arith)
chunks_short short h k = refl

pub chunks_long : (c rest : List Bool) → length c ≡ 8 → chunks (c ++ rest) ≡ c ∷ chunks rest
unfolding chunks
chunks_long (a ∷ b ∷ c ∷ d ∷ x ∷ f ∷ g ∷ i ∷ []) rest h = refl
chunks_long (a ∷ b ∷ c ∷ d ∷ x ∷ f ∷ g ∷ i ∷ j ∷ more) rest h = absurd (omega arith)
chunks_long short rest h = absurd (omega arith)

-- The bits of a byte from bit `i` on.
pub bits_from : ℕ → ℕ → ℕ → List Bool
bits_from byte i zero = []
bits_from byte i (suc n) = test_bit byte i ∷ bits_from byte (i + 1) n

pub length-bits_from : (byte i n : ℕ) → length (bits_from byte i n) ≡ n
unfolding bits_from
length-bits_from byte i zero = refl
length-bits_from byte i (suc n) = ap suc (length-bits_from byte (i + 1) n)

byte_bits-eq : (byte : ℕ) → byte_bits byte ≡ bits_from byte 0 8
unfolding byte_bits bits_from
byte_bits-eq byte = refl

abbrev chunk_test : List Bool → Bool
chunk_test c =
    bools_eq (bits_from (set_bits 0 0 c) 0 8) (c ++ replicate (8 - length c) false)
    && ltb (set_bits 0 0 c) 256

chunk_table : all_below 9 (λ k. all_bools k chunk_test) ≡ true
unfolding all_below all_bools bits_from set_bits bools_eq
chunk_table = refl

chunk_tested : (c : List Bool) → length c ≤ 8 → chunk_test c ≡ true
chunk_tested c h =
    all_bools_sound (length c) chunk_test c
      (all_below_sound 9 (λ k. all_bools k chunk_test) (length c) chunk_table (omega arith)) refl

and_parts : (a b : Bool) → (a && b) ≡ true → (a ≡ true) × (b ≡ true)
and_parts a b h = ground arith

-- The byte of a chunk of at most eight Booleans holds them from its lowest bit on, then zeros.
pub bits_from-set_bits :
    (c : List Bool)
    → length c ≤ 8
    → bits_from (set_bits 0 0 c) 0 8 ≡ c ++ replicate (8 - length c) false
bits_from-set_bits c h = bools_eq-eq _ _ (and_parts _ _ (chunk_tested c h)).0

pub set_bits-IsByte : (c : List Bool) → length c ≤ 8 → IsByte (set_bits 0 0 c)
set_bits-IsByte c h =
    let small : ltb (set_bits 0 0 c) 256 ≡ true =
      (and_parts (bools_eq (bits_from (set_bits 0 0 c) 0 8) (c ++ replicate (8 - length c) false))
        (ltb (set_bits 0 0 c) 256) (chunk_tested c h)).1 in
    ground arith

-- The decoder's inner loop pushes the bits that are still wanted.
pub push_bits-eq :
    (byte qty i n : ℕ) (values : List Bool)
    → length values < qty
    → push_bits byte qty i n values ≡ values ++ take (qty - length values) (bits_from byte i n)
unfolding push_bits bits_from
push_bits-eq byte qty i zero values h =
    sym (ap (λ t. values ++ t) (take-nil (qty - length values)) ∙ append-nil values)
push_bits-eq byte qty i (suc n) values h = ground (
  arith,
  take_pos (qty - length values) (test_bit byte i) (bits_from byte (i + 1) n),
  take_zero (qty - length values - 1) (bits_from byte (i + 1) n),
  length-append values (test_bit byte i ∷ []),
  append_assoc values (test_bit byte i ∷ [])
      (take (qty - length values - 1) (bits_from byte (i + 1) n)),
  push_bits-eq byte qty (i + 1) n (values ++ (test_bit byte i ∷ [])),
)

-- Past the wanted number it pushes one more.
pub push_bits_over :
    (byte qty : ℕ) (values : List Bool)
    → qty ≤ length values
    → push_bits byte qty 0 8 values ≡ values ++ (test_bit byte 0 ∷ [])
unfolding push_bits
push_bits_over byte qty values h = ground (arith, length-append values (test_bit byte 0 ∷ []))

-- One round of the decoder on the byte of a chunk.
push_bits-set_bits :
    (c : List Bool) (qty : ℕ) (values : List Bool)
    → length c ≤ 8
    → 1 ≤ length c
    → (length values + length c ≡ qty) ⊎ ((length c ≡ 8) × (length values + 8 ≤ qty))
    → push_bits (set_bits 0 0 c) qty 0 8 values ≡ values ++ c
push_bits-set_bits c qty values h k fits = ground (
  arith,
  push_bits-eq (set_bits 0 0 c) qty 0 8 values (omega arith),
  bits_from-set_bits c h,
  take_le (qty - length values) c (replicate (8 - length c) false),
  take_all (qty - length values) c,
  take_all (qty - length values) (c ++ replicate (8 - length c) false),
  append-nil c,
)

get_coils_step :
    (qty n : ℕ) (values : List Bool) (byte : ℕ) (rest : List ℕ)
    → get_coils qty (suc n) values (byte ∷ rest)
      ≡ get_coils qty n (push_bits byte qty 0 8 values) rest
unfolding get_coils
get_coils_step qty n values byte rest = refl

get_coils_done :
    (qty : ℕ) (values : List Bool) (rest : List ℕ) → get_coils qty 0 values rest ≡ (ok values, rest)
unfolding get_coils
get_coils_done qty values rest = refl

-- The decoder's loop over the coil bytes, asked for as many coils as it holds and `pack_bits`
-- wrote together, reads back what `pack_bits` wrote, behind what it holds, and leaves what
-- follows.
pub get_coils-pack_bits :
    (vs values : List Bool) (qty : ℕ) (rest : List ℕ)
    → length values + length vs ≡ qty
    → get_coils qty (div_ceil (length vs) 8) values (pack_bits vs ++ rest)
      ≡ (ok (values ++ vs), rest)
unfolding pack_bits
get_coils-pack_bits = chunk_ind _ none_left last_chunk full_chunk
  where
    none_left :
        (values : List Bool) (qty : ℕ) (rest : List ℕ)
        → length values + 0 ≡ qty
        → get_coils qty 0 values (pack_bits [] ++ rest) ≡ (ok (values ++ []), rest)
    none_left values qty rest h = rw append-nil (unfold get_coils chunks in refl)

    last_chunk :
        (c : List Bool)
        → 1 ≤ length c
        → length c ≤ 7
        → (values : List Bool) (qty : ℕ) (rest : List ℕ) → length values + length c ≡ qty
        → get_coils qty (div_ceil (length c) 8) values (pack_bits c ++ rest)
          ≡ (ok (values ++ c), rest)
    last_chunk c lo hi values qty rest h =
        let one : div_ceil (length c) 8 ≡ 1 = omega arith in
        rw
          (
            one,
            chunks_short c lo hi,
            get_coils_step,
            push_bits-set_bits c qty values (omega arith) lo (inl h),
          )
          (get_coils_done qty (values ++ c) rest)

    full_chunk :
        (c vs : List Bool)
        → length c ≡ 8
        → ((values : List Bool) (qty : ℕ) (rest : List ℕ)
            → length values + length vs ≡ qty
            → get_coils qty (div_ceil (length vs) 8) values (pack_bits vs ++ rest)
              ≡ (ok (values ++ vs), rest))
        → (values : List Bool) (qty : ℕ) (rest : List ℕ) → length values + length (c ++ vs) ≡ qty
        → get_coils qty (div_ceil (length (c ++ vs)) 8) values (pack_bits (c ++ vs) ++ rest)
          ≡ (ok (values ++ (c ++ vs)), rest)
    full_chunk c vs e ih values qty rest h =
        let more : div_ceil (length (c ++ vs)) 8 ≡ suc (div_ceil (length vs) 8) =
          omega (arith, length-append c vs) in
        rw
          (
            more,
            chunks_long c vs e,
            get_coils_step,
            push_bits-set_bits c qty values (omega arith) (omega arith)
                (inr (e, omega (arith, length-append c vs))),
            ih (values ++ c) qty rest (omega (arith, length-append c vs, length-append values c)),
            append_assoc,
          )
          refl

-- `pack_bits` writes one byte for each eight Booleans, rounded up.
pub length-pack_bits : (vs : List Bool) → length (pack_bits vs) ≡ div_ceil (length vs) 8
unfolding pack_bits
length-pack_bits =
    chunk_ind _ (unfold chunks in refl) (λ c lo hi. rw (chunks_short c lo hi) (omega arith))
      (λ c vs e ih. rw (chunks_long c vs e) (omega (arith, length-append c vs)))

pub pack_bits-IsByte : (vs : List Bool) → All IsByte (pack_bits vs)
unfolding pack_bits
pack_bits-IsByte =
    chunk_ind _ (unfold chunks in tt)
      (λ c lo hi. rw (chunks_short c lo hi) (set_bits-IsByte c (omega arith), tt))
      (λ c vs e ih. rw (chunks_long c vs e) (set_bits-IsByte c (omega arith), ih))

get_bits_step :
    (n : ℕ) (bits : List Bool) (byte : ℕ) (rest : List ℕ)
    → get_bits (suc n) bits (byte ∷ rest) ≡ get_bits n (bits ++ bits_from byte 0 8) rest
unfolding get_bits
get_bits_step n bits byte rest = rw (byte_bits-eq byte)

get_bits_done : (bits : List Bool) (rest : List ℕ) → get_bits 0 bits rest ≡ (ok bits, rest)
unfolding get_bits
get_bits_done bits rest = refl

pub get_bits-pack_bits :
    (vs bits : List Bool) (rest : List ℕ)
    → get_bits (div_ceil (length vs) 8) bits (pack_bits vs ++ rest) ≡ (ok (bits ++ padded vs), rest)
unfolding pack_bits
get_bits-pack_bits = chunk_ind _ none_left last_chunk full_chunk
  where
    none_left :
        (bits : List Bool) (rest : List ℕ)
        → get_bits 0 bits (pack_bits [] ++ rest) ≡ (ok (bits ++ padded []), rest)
    none_left bits rest = rw append-nil (unfold get_bits chunks in refl)

    last_chunk :
        (c : List Bool)
        → 1 ≤ length c
        → length c ≤ 7
        → (bits : List Bool) (rest : List ℕ)
        → get_bits (div_ceil (length c) 8) bits (pack_bits c ++ rest)
          ≡ (ok (bits ++ padded c), rest)
    last_chunk c lo hi bits rest =
        let one : div_ceil (length c) 8 ≡ 1 = omega arith in
        rw (one, chunks_short c lo hi, get_bits_step, bits_from-set_bits c (omega arith))
          (get_bits_done (bits ++ (c ++ replicate (8 - length c) false)) rest)

    full_chunk :
        (c vs : List Bool)
        → length c ≡ 8
        → ((bits : List Bool) (rest : List ℕ)
            → get_bits (div_ceil (length vs) 8) bits (pack_bits vs ++ rest)
              ≡ (ok (bits ++ padded vs), rest))
        → (bits : List Bool) (rest : List ℕ)
        → get_bits (div_ceil (length (c ++ vs)) 8) bits (pack_bits (c ++ vs) ++ rest)
          ≡ (ok (bits ++ padded (c ++ vs)), rest)
    full_chunk c vs e ih bits rest =
        let more : div_ceil (length (c ++ vs)) 8 ≡ suc (div_ceil (length vs) 8) =
          omega (arith, length-append c vs) in
        let pad : suc (div_ceil (length vs) 8) * 8 - length (c ++ vs)
            ≡ div_ceil (length vs) 8 * 8 - length vs =
          omega (arith, length-append c vs) in
        let whole : replicate {A = Bool} (8 - length c) false ≡ [] = rw e in
        rw
          (
            more,
            pad,
            chunks_long c vs e,
            get_bits_step,
            bits_from-set_bits c (omega arith),
            whole,
            append-nil,
            ih (bits ++ c) rest,
            append_assoc bits c (padded vs),
            append_assoc c vs,
          )
          refl
