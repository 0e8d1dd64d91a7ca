-- ===== src/Device/Table/Tests.antt =====
-- A device with one peer, and what comes to it.
use mathlib.Core.Option.{bind}
use xelt_vpn.Prelude.{
  ℕ, ◌≡◌, ◌↔◌, refl, inl, inr, Bool, true, false, List, [], ◌∷◌, none, some, replicate, codes, ◌/◌,
  arith, ==→eq, Bool-cases, ◌==◌,
}
use xelt_vpn.Prelude.Index.{find_at, erase_at, put_at, has_value}
use xelt_vpn.Prelude.Maps.{find, erase, put}
use xelt_vpn.Noise.Crypto.Plain.{plain_crypto}
use xelt_vpn.Noise.Errors.{ok}
use xelt_vpn.Noise.Handshake.{inc_index}
use xelt_vpn.Noise.Outcome.{v4}
use xelt_vpn.Noise.Packet.{Packet, packet_data}
use xelt_vpn.Noise.RateLimiter.{new_limiter}
use xelt_vpn.Payment.Wallet.{from_wireguard_key}
use xelt_vpn.Payment.Wallet.Plain.{plain_secp}
use xelt_vpn.Payment.Settlement.{responded}
use xelt_vpn.Device.Api.{Section, new_section, set_key, update_peer, api_set}
use xelt_vpn.Device.Api.Requests.{set_peer_message}
use xelt_vpn.Device.Index.{IndexLfsr, default_lfsr, shifted}
use xelt_vpn.Device.Index
use xelt_vpn.Device.Index.Range.{Seeded}
use xelt_vpn.Device.Sample.{
  hex, server, wallet, at, plain_parsers, always, zeros_hex, zeros_hex_decodes, no_slash,
}
use xelt_vpn.Device.Peer.{AllowedIp, Peer, new_peer}
use xelt_vpn.Device.Table.{
  Table, World, InsertNetwork, new_table, for_each, are_networks, made_peer, add_peer, perform,
  perform_all, change_key, configure_peer, handshake_rate_limit,
}
use xelt_vpn.Device.Table.Add.{AddsOne}
use xelt_vpn.Device.Table.Run.{Event, configured, arrived, timers_ran, run_events, run-Linked}
use xelt_vpn.Device.Table.Ticks.{run_timers}
use xelt_vpn.Noise.Outcome.{IpAddr}
use xelt_vpn.Noise.RateLimiter.{verify_packet}
use xelt_vpn.Noise.Packet.{parse_incoming_packet, parse_typed}
use xelt_vpn.Device.Table.Linked.{Linked}
use xelt_vpn.Device.Table.Receive.{Datagram, receive, peer_of}
use xelt_vpn.Device.Table.Receive.Kept.{OneTouched, receive-OneTouched}
use xelt_vpn.Device.Table.Receive.Routed.{routed}
use xelt_vpn.Device.Table.Requests.{calls_in, Registered, set_message-Registered}

abbrev start : IndexLfsr
start = default_lfsr 5 3

start-Seeded : Seeded start
start-Seeded = record {
  register = record { positive = omega arith; small = omega arith };
  mask_small = omega arith;
}

abbrev insert : InsertNetwork
insert ip h m = (ip, h) ∷ m

insert-AddsOne : AddsOne insert
unfolding has_value
insert-AddsOne ip h w m e = elim (Bool-cases (h == w)) [
  | inl q ↦ inl (==→eq h w q)
  | inr q ↦ inr (ground arith)
]

abbrev world : World
world = record {
  nonce_key = [];
  secret_key = [];
  stamper = record { duration_at_start = 0; instant_at_start = 0 };
  now = 0;
  bind_port = λ port. some port;
  shuts = λ conn. true;
  settlement_client = λ url request. responded true;
}

abbrev secret : List ℕ
secret = replicate 32 8

-- The device with a key, and one with a peer as well.
abbrev keyed : Table
keyed = record (new_table start server) {
  key_pair = some (secret, plain_crypto.public_key secret);
  rate_limiter =
      some (new_limiter plain_crypto [] [] (plain_crypto.public_key secret) handshake_rate_limit 0);
  payment = record server {
    payment_wallet = some (record (wallet) { signing_key = replicate 32 0 });
    settlement_client = some (λ request. responded true);
  };
}

abbrev friend : Section
friend = record (new_section (replicate 32 9)) {
  allowed_ips = record { addr = v4 (10 ∷ 0 ∷ 0 ∷ 7 ∷ []); cidr = 32 } ∷ [];
}

abbrev friend_peer : Peer
friend_peer = made_peer plain_crypto plain_secp insert world friend secret 7

abbrev befriended : Table
befriended = add_peer insert keyed friend 7 (record start { lfsr = 14155778 }) friend_peer

key_is_set :
    perform plain_crypto plain_secp insert world (new_table start server) (set_key secret)
    ≡ some keyed
unfolding perform change_key for_each bind from_wireguard_key
key_is_set = refl

friend_comes :
    perform plain_crypto plain_secp insert world keyed (update_peer friend) ≡ some befriended
unfolding are_networks perform configure_peer find bind Index.next shifted
friend_comes = refl

-- A datagram for nobody.
abbrev datagram : Datagram
datagram = record {
  packet = 4 ∷ replicate 31 0;
  shuts = λ conn. true;
  sender = record { ip = v4 (192 ∷ 0 ∷ 2 ∷ 1 ∷ []); port = 51820 };
  at = at;
  envs = λ i. at.env;
}

abbrev all_allowed : List AllowedIp → IpAddr → Bool
all_allowed ips ip = true

datagram_drops :
    receive plain_crypto plain_secp hex all_allowed befriended datagram ≡ ([], befriended, false)
unfolding receive verify_packet parse_incoming_packet parse_typed peer_of find_at put_at erase_at
datagram_drops = refl

abbrev events : List Event
events =
    configured world (set_key secret)
    ∷ configured world (update_peer friend)
    ∷ arrived datagram
    ∷ timers_ran (λ conn. true) (λ i. at.env)
    ∷ []

events_run :
    run_events plain_crypto plain_secp hex all_allowed insert (new_table start server) events
    ≡ some befriended
unfolding run_events bind run_timers
events_run = rw (key_is_set, friend_comes, datagram_drops) refl

befriended-Linked : Linked befriended
befriended-Linked =
    run-Linked plain_crypto plain_secp hex all_allowed insert insert-AddsOne start start-Seeded refl
      server (events) events_run

run-Linked_example : Linked befriended
run-Linked_example =
    run-Linked plain_crypto plain_secp hex all_allowed insert insert-AddsOne start start-Seeded refl
      server events events_run

receive-OneTouched_example :
    OneTouched plain_crypto plain_secp hex all_allowed befriended
      (receive plain_crypto plain_secp hex all_allowed befriended datagram).1
receive-OneTouched_example =
    receive-OneTouched plain_crypto plain_secp hex all_allowed befriended datagram befriended-Linked

-- The first handshake of the peer with the number 7 has the index 7 * 256 + 1.
abbrev to_friend : Packet
to_friend =
    packet_data
      (record { receiver_idx = 1793; counter = 0; encrypted_encapsulated_packet = replicate 16 0 })

friend_found :
    (find (replicate 32 9) befriended.peers ≡ some 0) × (befriended.arcs 0 ≡ some friend_peer)
unfolding find put erase
friend_found = (refl, refl)

routed_example :
    (peer_of plain_crypto plain_secp hex all_allowed befriended (secret, secret) to_friend
        ≡ ok (some 0)
      ↔ ◌≡◌ {A = ℕ} (1793 / 256) 7)
    × (friend_peer.tunnel.handshake.next_index / 256 ≡ 7
        → 1793 ≡ (inc_index friend_peer.tunnel.handshake).0
        → peer_of plain_crypto plain_secp hex all_allowed befriended (secret, secret) to_friend
          ≡ ok (some 0))
unfolding new_peer
routed_example =
    routed plain_crypto plain_secp hex all_allowed befriended befriended-Linked (secret, secret)
      (replicate 32 9) 0 friend_peer friend_found to_friend 1793 refl

unknown : find (replicate 32 0) befriended.peers ≡ none
unfolding find put erase
unknown = refl

next_given :
    Index.next befriended.next_index
    ≡ some (14155778, record { initial = 5; lfsr = 7077889; mask = 3 })
unfolding Index.next shifted
next_given = refl

next_free : find_at 14155778 befriended.peers_by_idx ≡ none
unfolding find_at put_at erase_at
next_free = refl

set_message-Registered_example :
    (t' : Table) × (perform_all plain_crypto plain_secp insert befriended (
        calls_in world
          (api_set plain_parsers always (set_peer_message zeros_hex (codes "10.0.0.2"))).1)
      ≡ some t')
    × Registered plain_crypto plain_secp insert plain_parsers always world befriended
        befriended-Linked zeros_hex
        (replicate 32 0)
        refl
        zeros_hex_decodes
        (codes "10.0.0.2")
        (10 ∷ 0 ∷ 0 ∷ 2 ∷ [])
        refl
        no_slash
        insert-AddsOne
        t'
        14155778
set_message-Registered_example =
    set_message-Registered plain_crypto plain_secp insert plain_parsers always world befriended
      befriended-Linked zeros_hex (replicate 32 0) refl zeros_hex_decodes (codes "10.0.0.2")
      (10 ∷ 0 ∷ 0 ∷ 2 ∷ []) refl no_slash insert-AddsOne secret (plain_crypto.public_key secret)
      14155778 (record { initial = 5; lfsr = 7077889; mask = 3 }) refl unknown next_given next_free
