-- ===== src/Noise/Errors.antt =====
-- protocol/boringtun/src/noise/errors.rs, and the results of fallible functions.

pub data WireGuardError : Type 0 where
  destination_buffer_too_small incorrect_packet_length unexpected_packet : WireGuardError
  wrong_packet_type wrong_index wrong_key : WireGuardError
  invalid_tai64n_timestamp wrong_tai64n_timestamp invalid_mac invalid_aead_tag : WireGuardError
  invalid_counter duplicate_counter invalid_packet no_current_session : WireGuardError
  lock_failed connection_expired under_load : WireGuardError

-- `Result<A, WireGuardError>` of a function that may also panic.
pub data Result {ℓ} (A : Type ℓ) : Type ℓ where
  ok : A → Result A
  err : WireGuardError → Result A
  panic : Result A

infixl 5 ◌>>=◌
abbrev pub ◌>>=◌ {ℓ κ} : {A : Type ℓ} {B : Type κ} → Result A → (A → Result B) → Result B
ok a >>= f = f a
err e >>= f = err e
panic >>= f = panic
