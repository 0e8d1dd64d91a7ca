-- ===== src/Device/Table/Report/Tests.antt =====
-- A device that tells of its one peer.
use mathlib.Core.Option.{bind}
use xelt_vpn.Prelude.{
  ℕ, ◌<◌, ◌/◌, ◌^◌, ◌≡◌, refl, sym, subst, [], ◌∷◌, none, some, codes, digits, replicate, arith,
}
use xelt_vpn.Noise.Errors.{ok}
use xelt_vpn.Noise.Handshake.Timestamp.{nanos_per_sec}
use xelt_vpn.Device.Table.Linked.{some-inj}
use xelt_vpn.Noise.Timers.{new_timers, persistent_keepalive_of}
use xelt_vpn.Noise.Tunn.{new_tunn}
use xelt_vpn.Noise.Tunn.Clock.{time_since_last_handshake}
use xelt_vpn.Device.Index.{default_lfsr}
use xelt_vpn.Device.Peer.{Peer}
use xelt_vpn.Device.Sample.{hex, server, peer}
use xelt_vpn.Device.Table.{Table, new_table}
use xelt_vpn.Device.Table.Report.{Writers, Lines, entry, all_peers, api_get, uapi_get_peers}
use xelt_vpn.Device.Table.Report.ReadBack.{told_own, told_port, told_peers, read-api_get}

abbrev plain_writers : Writers
plain_writers = record {
  hex_encode = hex;
  show_ip = λ ip. codes "10.0.0.2";
  show_addr = λ a. codes "192.0.2.1:51820";
}

abbrev device : Table
device = record (new_table (default_lfsr 5 3) server) {
  key_pair = some (replicate 32 1, replicate 32 2);
  listen_port = 51820;
  peers = (replicate 32 9, 0) ∷ [];
  arcs = λ h. some peer;
  next_arc = 1;
}

abbrev told : Lines
told =
    entry (codes "own_public_key") (replicate 32 2)
    ∷ codes "listen_port=51820"
    ∷ entry (codes "public_key") (replicate 32 9)
    ∷ codes "allowed_ip=10.0.0.2/32"
    ∷ codes "rx_bytes=0"
    ∷ codes "tx_bytes=0"
    ∷ codes "quota_remaining=0"
    ∷ codes "quota_blocked=true"
    ∷ codes "quota_total_consumed=700"
    ∷ codes "quota_payment_count=0"
    ∷ codes "errno=0"
    ∷ []
    ∷ []

tells : api_get plain_writers device 0 ≡ some told
unfolding api_get all_peers bind time_since_last_handshake new_tunn new_timers
    persistent_keepalive_of digits
tells = refl

no_session : time_since_last_handshake peer.tunnel 0 ≡ ok none
unfolding time_since_last_handshake new_tunn
no_session = refl

fits :
    (p : Peer)
    → some peer ≡ some p
    → (d : ℕ) → time_since_last_handshake p.tunnel 0 ≡ ok (some d)
    → d / nanos_per_sec < 2 ^ 64
fits p at d e = absurd (
    cc (
      no_session,
      subst (λ (q : Peer). time_since_last_handshake q.tunnel 0 ≡ ok (some d)) (sym (some-inj at))
          e,
    ))

read-api_get_example : uapi_get_peers (λ k. some k) told ≡ (
  told_own plain_writers (λ k. some k) device.key_pair,
  told_port plain_writers (λ k. some k) device.listen_port,
  told_peers plain_writers 0 device.arcs device.peers [],
)
read-api_get_example =
    read-api_get plain_writers (λ k. some k) device 0 tells (omega arith) (λ h p at. fits p at)
