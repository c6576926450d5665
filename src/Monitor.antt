-- ===== src/Monitor.antt =====
-- src/monitor/ring_buffer.rs: the packet capture, for any type of records. A lock is taken for each
-- operation as a whole.
mod Runs
pub mod Laws
use oms_modbus.Base.{
  ℕ, zero, suc, ◌+◌, ◌-◌, ◌^◌, ◌%◌, max, Bool, true, false, ◌||◌, List, [], ◌∷◌, ◌++◌,
  if◌then◌else◌, ltb, length, drop, ◌==◌,
}

pub record RingBufferCapture (A : Type 0) : Type 0 where
  pub records : List A
  pub capacity : ℕ
  pub is_unbounded : Bool
  pub dropped : ℕ

module _ {A : Type 0} where
  unfoldable pub new : ℕ → RingBufferCapture A
  new capacity = record {
    records = [];
    capacity = max capacity 1;
    is_unbounded = false;
    dropped = 0;
  }

  unfoldable pub unbounded : RingBufferCapture A
  unbounded = record { records = []; capacity = 2 ^ 64 - 1; is_unbounded = true; dropped = 0 }

  abbrev pub len : RingBufferCapture A → ℕ
  len capture = length capture.records

  -- `drain`: the records, and the capture without them.
  unfoldable pub drain : RingBufferCapture A → List A × RingBufferCapture A
  drain capture = (capture.records, record capture { records = [] })

  abbrev pub snapshot : RingBufferCapture A → List A
  snapshot capture = capture.records

  unfoldable pub set_unbounded : RingBufferCapture A → RingBufferCapture A
  set_unbounded capture = record capture { is_unbounded = true }

  unfoldable pub set_bounded : RingBufferCapture A → RingBufferCapture A
  set_bounded capture = record capture { is_unbounded = false }

  -- `record`
  unfoldable pub add_record : RingBufferCapture A → A → RingBufferCapture A
  add_record capture x =
      if capture.is_unbounded || ltb (length capture.records) capture.capacity
      then record capture { records = capture.records ++ (x ∷ []) }
      else record capture {
        records = drop 1 capture.records ++ (x ∷ []);
        dropped = (capture.dropped + 1) % 2 ^ 64;
      }

  -- Records in the order in which they arrive.
  unfoldable pub add_records : RingBufferCapture A → List A → RingBufferCapture A
  add_records capture [] = capture
  add_records capture (x ∷ xs) = add_records (add_record capture x) xs
