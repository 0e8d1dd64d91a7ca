-- ===== src/Payment.antt =====
-- The payment side: protocol/boringtun/src/payment, and its use in protocol/boringtun/src/device.
pub mod Quota
pub mod Protocol
pub mod Signal
pub mod Config
pub mod Wallet
pub mod Eip3009
pub mod Settlement
pub mod Tx
pub mod Rpc
pub mod Deposit
