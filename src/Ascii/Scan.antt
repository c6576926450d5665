-- ===== src/Ascii/Scan.antt =====
-- src/transport/ascii.rs: the loop of `try_parse_ascii` over the lines of a buffer.
use oms_modbus.Base.{
  ℕ, zero, suc, ◌+◌, ◌-◌, inl, inr, Option-cases, ◌⊎◌, ◌≤◌, ◌<◌, ◌≡◌, ◌≢◌, refl, sym, subst, Bool,
  true, false, ◌&&◌, List, [], ◌∷◌, ◌++◌, Option, none, some, length, take, drop, All,
}
use oms_modbus.Base.{if◌then◌else◌, ◌==◌, arith, length-drop}
use oms_modbus.Codec.{cr, lf}
use oms_modbus.Ascii.{
  find_crlf, next_position, decode_line, found, incomplete, stuck, scan, try_parse_ascii,
}

position-cases :
    (here : Bool) (o : Option ℕ) (p : ℕ)
    → (if here then some 0 else next_position o) ≡ some p
    → (p ≡ 0) ⊎ ((q : ℕ) × ((o ≡ some q) × (p ≡ suc q)))
position-cases true o p h = inl (ground arith)
position-cases false none p h = absurd (ground arith)
position-cases false (some q) p h = inr (q, (refl, ground arith))

pub find_crlf-bound : (l : List ℕ) (p : ℕ) → find_crlf l ≡ some p → p + 2 ≤ length l
unfolding find_crlf
find_crlf-bound [] p h = absurd (ground arith)
find_crlf-bound (x ∷ []) p h = absurd (ground arith)
find_crlf-bound (x ∷ y ∷ rest) p h =
    elim (position-cases (x == cr && y == lf) (find_crlf (y ∷ rest)) p h) [
      | inl e ↦ omega (arith, e)
      | inr (q, (found_q, next)) ↦ omega (arith, find_crlf-bound (y ∷ rest) q found_q, next)
    ]

not_first : (x : ℕ) (b : Bool) → cr < x → (x == cr && b) ≡ false
not_first x b h = ground arith

pub find_crlf-text : (line : List ℕ) → All (λ c. cr < c) line → find_crlf line ≡ none
unfolding find_crlf
find_crlf-text [] h = refl
find_crlf-text (x ∷ []) h = refl
find_crlf-text (x ∷ y ∷ line) h = rw (not_first x (y == lf) h.0, find_crlf-text (y ∷ line) h.1) refl

-- Where there is no position, the pair does not stand here and has none later.
no_position :
    (here : Bool) (o : Option ℕ)
    → (if here then some 0 else next_position o) ≡ none
    → (here ≡ false) × (o ≡ none)
no_position true o h = absurd (cc)
no_position false none h = (refl, refl)
no_position false (some q) h = absurd (cc)

-- A line without the pair in it ends at the pair that follows it, also when it ends with a carriage return.
pub find_crlf-line :
    (line after : List ℕ)
    → find_crlf line ≡ none
    → find_crlf (line ++ (cr ∷ lf ∷ after)) ≡ some (length line)
unfolding find_crlf
find_crlf-line [] after h = refl
find_crlf-line (x ∷ []) after h = ground arith
find_crlf-line (x ∷ y ∷ line) after h =
    let (elsewhere, later) = no_position (x == cr && y == lf) (find_crlf (y ∷ line)) h in
    rw (elsewhere, find_crlf-line (y ∷ line) after later) refl

pub scan-none :
    (fuel offset : ℕ) (buf : List ℕ)
    → find_crlf (drop offset buf) ≡ none
    → scan (suc fuel) offset buf ≡ incomplete
unfolding scan
scan-none fuel offset buf e = rw (scan, e) refl

pub scan-junk :
    (fuel offset p : ℕ) (buf : List ℕ)
    → find_crlf (drop offset buf) ≡ some p
    → decode_line (take p (drop offset buf)) ≡ none
    → scan (suc fuel) offset buf ≡ scan fuel (offset + p + 2) buf
unfolding scan
scan-junk fuel offset p buf e d =
    subst
      (λ o.
        elim o [
          | none ↦ incomplete
          | some c ↦ elim (decode_line (take c (drop offset buf))) [
            | none ↦ scan fuel (offset + c + 2) buf
            | some (s, b) ↦ found s b (offset + c + 2)
          ]
        ]
        ≡ scan fuel (offset + p + 2) buf)
      (sym e) (rw d refl)

pub scan-found :
    (fuel offset p slave : ℕ) (pdu buf : List ℕ)
    → find_crlf (drop offset buf) ≡ some p
    → decode_line (take p (drop offset buf)) ≡ some (slave, pdu)
    → scan (suc fuel) offset buf ≡ found slave pdu (offset + p + 2)
unfolding scan
scan-found fuel offset p slave pdu buf e d = rw (scan, e, d) refl

found-ne-stuck : (s : ℕ) (pdu : List ℕ) (n : ℕ) → found s pdu n ≢ stuck
found-ne-stuck s pdu n e = cc

incomplete-ne-stuck : incomplete ≢ stuck
incomplete-ne-stuck e = cc

scan-ne-stuck :
    (fuel offset : ℕ) (buf : List ℕ)
    → offset ≤ length buf
    → length buf - offset < fuel
    → scan fuel offset buf ≢ stuck
scan-ne-stuck zero offset buf h lt = absurd (omega arith)
scan-ne-stuck (suc fuel) offset buf h lt = elim (Option-cases (find_crlf (drop offset buf))) [
  | inl none_left ↦ rw (scan-none fuel offset buf none_left) incomplete-ne-stuck
  | inr (p, at_p) ↦
      let bound = find_crlf-bound (drop offset buf) p at_p in
      let size = length-drop offset buf in
      elim (Option-cases (decode_line (take p (drop offset buf)))) [
        | inl junk ↦ rw (scan-junk fuel offset p buf at_p junk) (
            scan-ne-stuck fuel (offset + p + 2) buf (omega (arith, bound, size))
              (omega (arith, bound, size)))
        | inr ((slave, pdu), good) ↦
            rw (scan-found fuel offset p slave pdu buf at_p good)
              (found-ne-stuck slave pdu (offset + p + 2))
      ]
]

-- The fuel of `try_parse_ascii` is enough for every buffer: its loop ends with a frame or with
-- none.
pub try_parse_ascii-ne-stuck : (buf : List ℕ) → try_parse_ascii buf ≢ stuck
unfolding try_parse_ascii
try_parse_ascii-ne-stuck buf = scan-ne-stuck (suc (length buf)) 0 buf (omega arith) (omega arith)
