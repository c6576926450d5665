-- ===== src/Store.antt =====
-- src/slave_store.rs: the in-memory register store and the service that it implements.
pub mod Runs
pub mod Memory
pub mod Bits
pub mod Model
pub mod Registers
pub mod Service
pub mod Answers
