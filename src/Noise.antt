-- ===== src/Noise.antt =====
-- The WireGuard core: protocol/boringtun/src/noise.
pub mod Errors
pub mod Aead
pub mod Crypto
pub mod Packet
pub mod Session
pub mod Handshake
pub mod Outcome
pub mod RateLimiter
pub mod Timers
pub mod Tunn
