-- ===== src/Noise/Handshake/Tests.antt =====
-- A handshake between two new ends.
use xelt_vpn.Prelude.{ℕ, ◌^◌, ◌<◌, ◌≡◌, refl, true, List, none, replicate, arith}
use xelt_vpn.Noise.Crypto.Plain.{plain_crypto}
use xelt_vpn.Noise.Handshake.Timestamp.{TimeStamper, stamp, parse, after, zero_stamp}
use xelt_vpn.Noise.Handshake.Agreement.{initiator, responder}
use xelt_vpn.Noise.Handshake.Exchange.{Agreed, sessions_agree}
use xelt_vpn.Noise.Handshake.{Handshake, Env, new_handshake, new_params}

abbrev stamper : TimeStamper
stamper = record { duration_at_start = 1_700_000_000_000_000_000; instant_at_start = 0 }

abbrev secret_i : List ℕ
secret_i = replicate 32 1

abbrev secret_r : List ℕ
secret_r = replicate 32 2

abbrev end : List ℕ → List ℕ → ℕ → Handshake
end own other index =
    new_handshake plain_crypto own (plain_crypto.public_key own) (plain_crypto.public_key other)
      index none stamper

abbrev first : Env
first = record { now = 5; ephemeral = replicate 32 3 }

abbrev second : Env
second = record { now = 6; ephemeral = replicate 32 4 }

params_i : (end secret_i secret_r 256).params ≡ initiator plain_crypto secret_i secret_r none
unfolding new_handshake new_params
params_i = refl

params_r : (end secret_r secret_i 512).params ≡ responder plain_crypto secret_i secret_r none
unfolding new_handshake new_params
params_r = refl

small_i : (end secret_i secret_r 256).next_index < 2 ^ 32
unfolding new_handshake
small_i = omega arith

small_r : (end secret_r secret_i 512).next_index < 2 ^ 32
unfolding new_handshake
small_r = omega arith

newer :
    after
      (parse (stamp (end secret_i secret_r 256).stamper first.now))
      (end secret_r secret_i 512).last_handshake_timestamp
    ≡ true
unfolding new_handshake after parse stamp zero_stamp
newer = refl

sessions_agree_example :
    Agreed plain_crypto
      (end secret_i secret_r 256)
      (end secret_r secret_i 512)
      first
      second
      second
      148
      92
sessions_agree_example =
    sessions_agree plain_crypto secret_i secret_r none (end secret_i secret_r 256)
      (end secret_r secret_i 512) first second second 148 92 params_i params_r (omega arith)
      (omega arith) small_i small_r newer
