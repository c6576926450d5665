-- ===== src/Frame/Buffer.antt =====
-- A byte buffer of src/frame.rs (`Bytes`, `BytesMut`) is a list of bytes. An operation on it takes
-- the buffer and returns the outcome with the buffer that it leaves, also when it fails.
use oms_modbus.Base.{ℕ, zero, suc, ◌+◌, ◌*◌, ◌/◌, ◌%◌, Bool, List, [], ◌∷◌, ◌++◌, String}
use oms_modbus.Base.{Result, ok, err, if◌then◌else◌, ltb, length}
use oms_modbus.Frame.Types.{IoError, invalid_data, unexpected_eof, panic, text, exceeds_u8}

abbrev pub OnBuffer : Type 0 → Type 0
OnBuffer A = List ℕ → Result A IoError × List ℕ

abbrev pub continue :
    {A B : Type 0} → Result A IoError × List ℕ → (A → OnBuffer B) → Result B IoError × List ℕ
continue (ok a, buf) f = f a buf
continue (err e, buf) f = (err e, buf)

infixl 5 ◌>>=◌ ◌>>◌
abbrev pub ◌>>=◌ : {A B : Type 0} → OnBuffer A → (A → OnBuffer B) → OnBuffer B
◌>>=◌ m f buf = continue (m buf) f

abbrev pub ◌>>◌ : {B : Type 0} → OnBuffer (Unit {0}) → OnBuffer B → OnBuffer B
◌>>◌ m k buf = continue (m buf) (λ _. k)

abbrev pub pure : {A : Type 0} → A → OnBuffer A
pure a buf = (ok a, buf)

abbrev pub fail : {A : Type 0} → IoError → OnBuffer A
fail e buf = (err e, buf)

abbrev pub require : Bool → IoError → OnBuffer (Unit {0})
require c e = if c then pure tt else fail e

-- `put_slice`; `put_u8`, and `push_u16`, which writes the high byte first.
abbrev pub put_slice : List ℕ → OnBuffer (Unit {0})
put_slice bytes buf = (ok tt, buf ++ bytes)

abbrev pub put_u8 : ℕ → OnBuffer (Unit {0})
put_u8 v = put_slice (v ∷ [])

abbrev pub be_bytes : ℕ → List ℕ
be_bytes v = (v / 256) ∷ (v % 256) ∷ []

abbrev pub push_u16 : ℕ → OnBuffer (Unit {0})
push_u16 v = put_slice (be_bytes v)

-- `safe_u8`
abbrev pub safe_u8 : ℕ → String → OnBuffer ℕ
safe_u8 val context = if ltb val 256 then pure val else fail (invalid_data (exceeds_u8 context val))

-- `get_u8` and `get_u16` of the buffer, which panic when too few bytes remain.
abbrev pub get_u8 : OnBuffer ℕ
get_u8 [] = (err panic, [])
get_u8 (b ∷ rest) = (ok b, rest)

abbrev pub get_u16 : OnBuffer ℕ
get_u16 [] = (err panic, [])
get_u16 (b ∷ []) = (err panic, b ∷ [])
get_u16 (hi ∷ lo ∷ rest) = (ok (hi * 256 + lo), rest)

-- `if data.remaining() < n { return Err(…) }`
abbrev pub require_remaining : ℕ → String → OnBuffer (Unit {0})
require_remaining n context buf =
    if ltb (length buf) n then (err (unexpected_eof (text context)), buf) else (ok tt, buf)

-- The macros `read_u8!` and `read_u16!`: the read, or an error where too few bytes remain for it.
abbrev pub read_u8 : String → OnBuffer ℕ
read_u8 context [] = (err (unexpected_eof (text context)), [])
read_u8 context (b ∷ rest) = (ok b, rest)

abbrev pub read_u16 : String → OnBuffer ℕ
read_u16 context [] = (err (unexpected_eof (text context)), [])
read_u16 context (b ∷ []) = (err (unexpected_eof (text context)), b ∷ [])
read_u16 context (hi ∷ lo ∷ rest) = (ok (hi * 256 + lo), rest)

-- `for _ in 0..n { values.push(data.get_u16()) }`
unfoldable pub get_u16s : ℕ → List ℕ → OnBuffer (List ℕ)
get_u16s zero values = pure values
get_u16s (suc n) values = do v ← get_u16; get_u16s n (values ++ (v ∷ []))
