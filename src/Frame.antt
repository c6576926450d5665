-- ===== src/Frame.antt =====
-- src/frame.rs: the Modbus PDU types, their encoders and decoders, and what holds of them.
mod Runs
pub mod Types
pub mod Buffer
pub mod Encode
pub mod Decode
pub mod Wire
pub mod Codes
pub mod Bits
pub mod Words
pub mod RequestTrip
pub mod ResponseTrip
pub mod RequestSound
