-- ===== src/Payment/Protocol.antt =====
-- The messages of protocol/boringtun/src/payment/protocol.rs: a type byte, a 16-bit length, and the
-- fields one after the other, numbers in big-endian order. Bytes after the fields are ignored.
pub mod Frame
pub mod Required
pub mod Submit
pub mod Accepted
mod Tests
