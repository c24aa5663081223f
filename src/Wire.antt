-- ===== src/Wire.antt =====
-- src/wire.rs: the BGP codec.
pub mod Frame
pub mod Faults
pub mod Open
pub mod Update
pub mod Validate
pub mod Routes
pub mod Received
