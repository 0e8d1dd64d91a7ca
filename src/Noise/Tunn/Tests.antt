-- ===== src/Noise/Tunn/Tests.antt =====
-- A new tunnel, and packets through it.
use xelt_vpn.Prelude.{
  ℕ, ◌≡◌, refl, false, List, [], ◌∷◌, ◌++◌, Option, none, some, replicate, arith,
}
use xelt_vpn.Noise.Crypto.Plain.{plain_crypto}
use xelt_vpn.Noise.Timers.{secs}
use xelt_vpn.Noise.Session.{Session, new}
use xelt_vpn.Noise.Tunn.Inbound.{validate_decapsulated_packet}
use xelt_vpn.Noise.Tunn.Validate.{Faithful, validate-Faithful}
use xelt_vpn.Noise.Tunn.Clock.Expiry.{ExpiresOld, expire_sessions_lem}
use xelt_vpn.Noise.Tunn.Queue.Requeue.{send_queued-Twice}
use xelt_vpn.Noise.Handshake.{is_in_progress, new_handshake, Env}
use xelt_vpn.Noise.Tunn.Inbound.{decapsulate}
use xelt_vpn.Noise.Tunn.Queue.{Bounded}
use xelt_vpn.Noise.Tunn.Queue.Arrivals.{decapsulate-Bounded}
use xelt_vpn.Noise.Tunn.{Tunn, session_at, send_queued_packet, new_tunn}

abbrev tunnel : Tunn
tunnel =
    new_tunn plain_crypto (replicate 32 1) (replicate 32 9) none (some 25) 1 none [] []
      (record { duration_at_start = 0; instant_at_start = 0 }) 0

-- An IPv4 packet of 20 bytes with 2 more behind it.
abbrev ip_packet : List ℕ
ip_packet = 69 ∷ 0 ∷ 0 ∷ 20 ∷ (replicate 16 7 ++ (1 ∷ 2 ∷ []))

validate-Faithful_example : Faithful ip_packet (validate_decapsulated_packet tunnel ip_packet).0
validate-Faithful_example = validate-Faithful tunnel ip_packet

abbrev ring : List (Option Session)
ring = some (new 1 2 [] []) ∷ some (new 2 3 [] []) ∷ []

expire_sessions_lem_example : ExpiresOld (secs 200) (0 ∷ secs 100 ∷ []) ring
expire_sessions_lem_example =
    expire_sessions_lem (secs 200) (0 ∷ secs 100 ∷ []) ring refl (omega arith, (omega arith, tt))

abbrev env : Env
env = record { now = 9; ephemeral = replicate 32 3 }

tunnel-Bounded : Bounded tunnel
unfolding new_tunn
tunnel-Bounded = omega arith

decapsulate-Bounded_example : Bounded (decapsulate plain_crypto tunnel env none ip_packet 200).1
decapsulate-Bounded_example =
    decapsulate-Bounded plain_crypto tunnel env none ip_packet 200 tunnel-Bounded

abbrev waiting : Tunn
waiting = record tunnel { packet_queue = ip_packet ∷ [] }

waiting_gone : session_at waiting waiting.current ≡ none
unfolding new_tunn
waiting_gone = refl

waiting_idle : is_in_progress waiting.handshake ≡ false
unfolding new_tunn new_handshake
waiting_idle = refl

send_queued-Twice_example :
    (send_queued_packet plain_crypto waiting env 100).1.packet_queue
    ≡ ip_packet ∷ ([] ++ (ip_packet ∷ []))
send_queued-Twice_example =
    send_queued-Twice plain_crypto waiting env 100 ip_packet [] refl waiting_gone waiting_idle
      (omega arith) (omega arith)
