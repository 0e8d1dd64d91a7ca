-- ===== src/Device.antt =====
-- The device that drives the tunnels and their quotas: protocol/boringtun/src/device.
pub mod Peer
pub mod Sample
pub mod Payments
pub mod Gate
pub mod Registration
pub mod Index
pub mod Api
pub mod Table
