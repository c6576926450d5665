-- ===== src/Frame/Codes.antt =====
-- src/frame.rs: function codes with the exception bit, exception codes, and which function codes a
-- server takes for a frame.
use oms_modbus.Base.{ℕ, ◌+◌, ◌<◌, ◌≡◌, refl, true, false, not, ◌&&◌, arith, ◌==◌}
use oms_modbus.Base.{bit_and, bit_or}
use oms_modbus.Base.Ranges.{all_below, all_below_sound}
use oms_modbus.Frame.Types.{exception_of_code, code_of_exception}

-- Every byte survives the way into an exception and back.
pub code-exception : (c : ℕ) → code_of_exception (exception_of_code c) ≡ c
unfolding exception_of_code code_of_exception
code-exception c = ground arith

exception_bit_table :
    all_below 128 (λ fc.
      bit_and (bit_or fc 0x80) 0x7f == fc
      && not (bit_and (bit_or fc 0x80) 0x80 == 0)
      && (bit_or fc 0x80 == fc + 128)
      && (bit_and fc 0x80 == 0))
    ≡ true
unfolding all_below
exception_bit_table = refl

-- Setting the exception bit of a function code below 128 can be told and undone.
pub exception_bit :
    (fc : ℕ)
    → fc < 128
    → (bit_and (bit_or fc 0x80) 0x7f ≡ fc)
      × ((bit_and (bit_or fc 0x80) 0x80 == 0) ≡ false)
      × (bit_or fc 0x80 ≡ fc + 128)
      × (bit_and fc 0x80 ≡ 0)
exception_bit fc h =
    let checked : (bit_and (bit_or fc 0x80) 0x7f == fc
          && not (bit_and (bit_or fc 0x80) 0x80 == 0)
          && (bit_or fc 0x80 == fc + 128)
          && (bit_and fc 0x80 == 0))
        ≡ true =
      all_below_sound 128 _ fc exception_bit_table h in
    (ground arith, ground arith, ground arith, ground arith)
