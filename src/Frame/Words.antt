-- ===== src/Frame/Words.antt =====
-- src/frame.rs: registers on the wire, two bytes each with the high byte first.
use oms_modbus.Base.{ℕ, suc, ◌+◌, ◌*◌, ◌/◌, ◌%◌, ◌≡◌, refl, ap, ◌∙◌}
use oms_modbus.Base.{List, [], ◌∷◌, ◌++◌, ok, length, arith, append_assoc, append-nil, All, String}
use oms_modbus.Frame.Buffer.{be_bytes, get_u16s, read_u16}
use oms_modbus.Frame.Encode.{u16_bytes}
use oms_modbus.Frame.Wire.{IsByte, IsU16}

pub read_u16-be_bytes :
    (ctx : String) (v : ℕ) (rest : List ℕ) → read_u16 ctx (be_bytes v ++ rest) ≡ (ok v, rest)
read_u16-be_bytes ctx v rest = ground arith

get_u16s_step :
    (n : ℕ) (values : List ℕ) (v : ℕ) (rest : List ℕ)
    → get_u16s (suc n) values (be_bytes v ++ rest) ≡ get_u16s n (values ++ (v ∷ [])) rest
unfolding get_u16s
get_u16s_step n values v rest = let word : v / 256 * 256 + v % 256 ≡ v = omega arith in rw word

-- Reading as many registers as were written gives them back, behind those read before.
pub get_u16s-u16_bytes :
    (vs values : List ℕ) (rest : List ℕ)
    → get_u16s (length vs) values (u16_bytes vs ++ rest) ≡ (ok (values ++ vs), rest)
unfolding u16_bytes
get_u16s-u16_bytes [] values rest = rw append-nil (unfold get_u16s in refl)
get_u16s-u16_bytes (v ∷ vs) values rest =
    get_u16s_step (length vs) values v (u16_bytes vs ++ rest)
    ∙ get_u16s-u16_bytes vs (values ++ (v ∷ [])) rest
    ∙ ap (λ t. (ok t, rest)) (append_assoc values (v ∷ []) vs)

pub length-u16_bytes : (vs : List ℕ) → length (u16_bytes vs) ≡ length vs * 2
unfolding u16_bytes
length-u16_bytes [] = refl
length-u16_bytes (v ∷ vs) = omega (arith, length-u16_bytes vs)

pub u16_bytes-IsByte : (vs : List ℕ) → All IsU16 vs → All IsByte (u16_bytes vs)
unfolding u16_bytes
u16_bytes-IsByte [] h = tt
u16_bytes-IsByte (v ∷ vs) h = (omega arith, (omega arith, u16_bytes-IsByte vs h.1))
