-- ===== src/Rtu/Trip.antt =====
-- src/transport/rtu.rs with src/codec.rs: a frame that the encoder wrote is read back by the server
-- and by the client.
use oms_modbus.Base.{
  ℕ, suc, ◌+◌, ◌-◌, ◌*◌, ◌/◌, ◌%◌, ◌≤◌, ◌≡◌, refl, ap, true, false, List, [], ◌∷◌, ◌++◌, some,
  length, get_or,
}
use oms_modbus.Base.{arith, ltb, ==-refl, take-append_self, length-append}
use oms_modbus.Frame.Types.{is_known_function_code}
use oms_modbus.Codec.{calculate_crc, encode_rtu_frame}
use oms_modbus.Server.Process.{decoded}
use oms_modbus.Rtu.{crc_received, without_crc, try_parse_server_rtu, rtu_response}

-- What stands behind a list.
get_or-behind : (xs ys : List ℕ) (i : ℕ) → get_or (xs ++ ys) (length xs + i) 0 ≡ get_or ys i 0
get_or-behind [] ys i = ap (λ n. get_or ys n 0) (omega arith)
get_or-behind (x ∷ xs) ys i =
    let step : suc (length xs) + i ≡ suc (length xs + i) = omega arith in
    rw step (get_or-behind xs ys i)

module _ (data_ : List ℕ) where
  abbrev pub wire : List ℕ
  wire = encode_rtu_frame data_ []

  pub length-frame : length wire ≡ length data_ + 2
  unfolding encode_rtu_frame
  length-frame = length-append data_ _

  without_crc-frame : without_crc wire ≡ data_
  unfolding without_crc encode_rtu_frame
  without_crc-frame =
      let before : length (encode_rtu_frame data_ []) - 2 ≡ length data_ =
        omega (arith, length-frame) in
      rw before (take-append_self data_ _)

  crc_received-frame : crc_received wire ≡ calculate_crc data_
  unfolding crc_received encode_rtu_frame
  crc_received-frame =
      let low : length (encode_rtu_frame data_ []) - 2 ≡ length data_ + 0 =
        omega (arith, length-frame) in
      let high : length (encode_rtu_frame data_ []) - 1 ≡ length data_ + 1 =
        omega (arith, length-frame) in
      let word : calculate_crc data_ % 256 + calculate_crc data_ / 256 * 256 ≡ calculate_crc data_ =
        omega arith in
      rw (low, high, get_or-behind data_ _ 0, get_or-behind data_ _ 1) word

-- A frame that the encoder wrote, of a slave id and a PDU of at least two bytes with a known
-- function code, is read by the server with nothing left over.
pub try_parse_server_rtu_round_trip :
    (slave : ℕ) (pdu : List ℕ)
    → 2 ≤ length pdu
    → is_known_function_code (get_or pdu 0 0) ≡ true
    → try_parse_server_rtu (encode_rtu_frame (slave ∷ pdu) []) ≡ some (slave, (pdu, length pdu + 3))
unfolding try_parse_server_rtu
try_parse_server_rtu_round_trip slave pdu two known =
    let data_ = slave ∷ pdu in
    let long : ltb (length data_ + 2) 5 ≡ false = ground arith in
    let enough : ltb (length data_) 2 ≡ false = ground arith in
    rw
      (
        without_crc-frame data_,
        crc_received-frame data_,
        length-frame data_,
        long,
        ==-refl (calculate_crc data_),
        enough,
        known,
      )
      (ap (λ n. some (slave, (pdu, n))) (omega arith))

-- The client that asked the slave takes the PDU of at least two bytes out of a frame that the
-- encoder wrote, and decodes it.
pub rtu_response_round_trip :
    (slave : ℕ) (pdu : List ℕ)
    → 2 ≤ length pdu
    → rtu_response slave (encode_rtu_frame (slave ∷ pdu) []) ≡ decoded pdu
unfolding rtu_response
rtu_response_round_trip slave pdu two =
    let data_ = slave ∷ pdu in
    let long : ltb (length data_ + 2) 5 ≡ false = ground arith in
    let enough : ltb (length data_) 2 ≡ false = ground arith in
    rw
      (
        without_crc-frame data_,
        crc_received-frame data_,
        length-frame data_,
        long,
        ==-refl (calculate_crc data_),
        enough,
        ==-refl slave,
      )
      refl
