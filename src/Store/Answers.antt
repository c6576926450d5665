-- ===== src/Store/Answers.antt =====
-- The answers of the store of src/slave_store.rs to requests within the protocol's limits: they fit a
-- PDU, lie within what the client decodes, and are as long as the RTU client expects.
use oms_modbus.Base.{ℕ, zero, suc, ◌+◌, ◌≤◌, ◌≡◌, refl, ap, arith, true}
use oms_modbus.Base.{
  Bool-cases, inl, inr, ◌⊎◌, ◌&&◌, leb, ok, err, length, get_or, All, All-get_or, ◌==◌,
}
use oms_modbus.Frame.Types.{
  illegal_data_value, exception_of_code, code_of_exception, Request, Response, max_pdu_size,
  request_function_code, is_known_function_code,
}
use oms_modbus.Frame.Wire.{IsU16, IsRequest, IsResponse, request_layout, response_layout}
use oms_modbus.Frame.Bits.{length-pack_bits}
use oms_modbus.Frame.Words.{length-u16_bytes}
use oms_modbus.Server.Process.{response_or_exception}
use oms_modbus.Store.Memory.{call, diagnose, SlaveStore}
use oms_modbus.Store.Model.{Tables, respond, window}
use oms_modbus.Store.Service.{IsStore, view, call_responds}

pub length-window : {A : Type 0} (f : ℕ → A) (a n : ℕ) → length (window f a n) ≡ n
length-window f a zero = refl
length-window f a (suc n) = ap suc (length-window f (a + 1) n)

pub window-IsU16 : (f : ℕ → ℕ) (a n : ℕ) → ((b : ℕ) → IsU16 (f b)) → All IsU16 (window f a n)
window-IsU16 f a zero h = tt
window-IsU16 f a (suc n) h = (h a, window-IsU16 f (a + 1) n h)

-- The registers of the tables are 16-bit words.
pub record IsTables (t : Tables) : Type 0 where
  pub holding_words : (a : ℕ) → IsU16 (t.holding a)
  pub input_words : (a : ℕ) → IsU16 (t.input a)

pub view-IsTables : (s : SlaveStore) → IsStore s → IsTables (view s)
view-IsTables s h = record {
  holding_words = λ a. All-get_or IsU16 s.holding_registers a 0 h.holding_words (omega arith);
  input_words = λ a. All-get_or IsU16 s.input_registers a 0 h.input_words (omega arith);
}

-- What the server sends back for a request: the answer, or the exception of its function code.
abbrev pub answer : Request → Tables → Response
answer req t = response_or_exception (request_function_code req) (respond req t)

-- A diagnostic is echoed, with its data or with none, or refused.
pub diagnose-cases :
    (sf d : ℕ)
    → ((x : ℕ) × ((diagnose sf d ≡ ok (Response.diagnostic sf x)) × (x ≤ d)))
      ⊎ (diagnose sf d ≡ err illegal_data_value)
diagnose-cases sf d = elim (Bool-cases (sf == 0)) [
  | inl a ↦ inl (d, (rw a refl, omega arith))
  | inr a ↦ elim (Bool-cases (sf == 0x0a)) [
    | inl b ↦ inl (0, (rw (a, b) refl, omega arith))
    | inr b ↦ elim (Bool-cases (leb 0x0b sf && leb sf 0x0e)) [
      | inl c ↦ inl (0, (rw (a, b, c) refl, omega arith))
      | inr c ↦ inr (rw (a, b, c) refl)
    ]
  ]
]

-- The answer to a request within the protocol's limits takes from 2 to 253 bytes.
pub length-answer :
    (req : Request) (t : Tables)
    → IsRequest req
    → (2 ≤ length (response_layout (answer req t)))
      × (length (response_layout (answer req t)) ≤ max_pdu_size)
length-answer (Request.read_coils a n) t h =
    omega (arith, length-window t.coil a n, length-pack_bits (window t.coil a n))
length-answer (Request.read_discrete_inputs a n) t h =
    omega
      (arith, length-window t.discrete_input a n, length-pack_bits (window t.discrete_input a n))
length-answer (Request.read_holding_registers a n) t h =
    omega (arith, length-window t.holding a n, length-u16_bytes (window t.holding a n))
length-answer (Request.read_input_registers a n) t h =
    omega (arith, length-window t.input a n, length-u16_bytes (window t.input a n))
length-answer (Request.write_single_coil a v) t h = omega arith
length-answer (Request.write_single_register a v) t h = omega arith
length-answer (Request.write_multiple_coils a vs) t h = omega arith
length-answer (Request.write_multiple_registers a vs) t h = omega arith
length-answer (Request.mask_write_register a m o) t h = omega arith
length-answer (Request.read_write_multiple_registers r q w vs) t h =
    omega (arith, length-window t.holding r q, length-u16_bytes (window t.holding r q))
length-answer (Request.diagnostic sf d) t h = elim (diagnose-cases sf d) [
  | inl (x, (e, le)) ↦ rw e (omega arith)
  | inr e ↦ rw e (omega arith)
]
length-answer Request.disconnect t h = absurd h

-- The answer to a request within the protocol's limits is a response that the client's decoder gives
-- back.
pub answer-IsResponse :
    (req : Request) (t : Tables) → IsRequest req → IsTables t → IsResponse (answer req t)
unfolding code_of_exception exception_of_code request_function_code
answer-IsResponse (Request.read_coils a n) t h k = tt
answer-IsResponse (Request.read_discrete_inputs a n) t h k = tt
answer-IsResponse (Request.read_holding_registers a n) t h k =
    window-IsU16 t.holding a n k.holding_words
answer-IsResponse (Request.read_input_registers a n) t h k = window-IsU16 t.input a n k.input_words
answer-IsResponse (Request.write_single_coil a v) t h k = h
answer-IsResponse (Request.write_single_register a v) t h k = h
answer-IsResponse (Request.write_multiple_coils a vs) t h k = omega arith
answer-IsResponse (Request.write_multiple_registers a vs) t h k = omega arith
answer-IsResponse (Request.mask_write_register a m o) t h k = h
answer-IsResponse (Request.read_write_multiple_registers r q w vs) t h k =
    window-IsU16 t.holding r q k.holding_words
answer-IsResponse (Request.diagnostic sf d) t h k = elim (diagnose-cases sf d) [
  | inl (x, (e, le)) ↦ rw e (omega arith)
  | inr e ↦ rw e (omega arith, refl)
]
answer-IsResponse Request.disconnect t h k = absurd h

-- A request's PDU has at least two bytes, and the server knows its function code.
pub request_layout-known :
    (req : Request)
    → IsRequest req
    → (2 ≤ length (request_layout req))
      × (is_known_function_code (get_or (request_layout req) 0 0) ≡ true)
unfolding is_known_function_code
request_layout-known (Request.read_coils a n) h = (omega arith, refl)
request_layout-known (Request.read_discrete_inputs a n) h = (omega arith, refl)
request_layout-known (Request.read_holding_registers a n) h = (omega arith, refl)
request_layout-known (Request.read_input_registers a n) h = (omega arith, refl)
request_layout-known (Request.write_single_coil a v) h = (omega arith, refl)
request_layout-known (Request.write_single_register a v) h = (omega arith, refl)
request_layout-known (Request.write_multiple_coils a vs) h = (omega arith, refl)
request_layout-known (Request.write_multiple_registers a vs) h = (omega arith, refl)
request_layout-known (Request.mask_write_register a m o) h = (omega arith, refl)
request_layout-known (Request.read_write_multiple_registers r q w vs) h = (omega arith, refl)
request_layout-known (Request.diagnostic sf d) h = (omega arith, refl)
request_layout-known Request.disconnect h = absurd h

-- What the store answers to a request within the protocol's limits, or the exception for it, takes
-- from 2 to 253 bytes as a PDU.
pub length-call :
    (req : Request) (s : SlaveStore)
    → IsRequest req
    → (2
        ≤ length
            (response_layout (response_or_exception (request_function_code req) (call req s).0)))
      × (length (response_layout (response_or_exception (request_function_code req) (call req s).0))
          ≤ max_pdu_size)
length-call req s h = rw (call_responds req s) (length-answer req (view s) h)
