-- ===== src/Device/Gate/Tests.antt =====
-- A peer that pays and is served, and a queue that is flushed.
use xelt_vpn.Prelude.{ℕ, refl, true, List, [], ◌∷◌, replicate, arith}
use xelt_vpn.Noise.Crypto.Plain.{plain_crypto}
use xelt_vpn.Noise.Tunn.{Tunn}
use xelt_vpn.Payment.Wallet.Plain.{plain_secp}
use xelt_vpn.Device.Payments.{Moment}
use xelt_vpn.Device.Gate.{flush_all}
use xelt_vpn.Device.Gate.Flush.{Ended, flush_all-Ended}
use xelt_vpn.Device.Gate.Paid.{Event, arrives4, leaves, MovesInAll, run_events}
use xelt_vpn.Device.Gate.Paid.Step.{Since}
use xelt_vpn.Device.Gate.Paid.Run.{run-Since}
use xelt_vpn.Device.Sample.{hex, server, quota, at, peer}

abbrev ip_packet : List ℕ
ip_packet = 69 ∷ replicate 19 7

abbrev events : List (Moment × Event)
events = (at, arrives4 true ip_packet) ∷ (at, leaves ip_packet 200) ∷ []

run-Since_example :
    (n : ℕ) × (MovesInAll plain_crypto plain_secp hex server peer events n
      × Since 500 2 quota n (run_events plain_crypto plain_secp hex server peer events))
run-Since_example =
    run-Since plain_crypto plain_secp hex server refl peer quota events refl (omega arith)
      (omega arith)

abbrev waiting : Tunn
waiting = record (peer.tunnel) { packet_queue = ip_packet ∷ ip_packet ∷ [] }

flush_all-Ended_example :
    Ended plain_crypto plain_secp hex
      (flush_all plain_crypto plain_secp hex (λ i. at.env) waiting 200)
flush_all-Ended_example = flush_all-Ended plain_crypto plain_secp hex (λ i. at.env) waiting 200
