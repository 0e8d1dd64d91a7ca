-- ===== src/Device/Table/Receive/Routed.antt =====
-- A message reaches the peer that its receiver's index belongs to.
use xelt_vpn.Prelude.{ℕ, ◌/◌, ◌≡◌, sym, ap, ◌∙◌, List, Option, none, some, Bool, ◌↔◌, arith}
use xelt_vpn.Prelude.Index.{find_at}
use xelt_vpn.Prelude.Maps.{find}
use xelt_vpn.Noise.Crypto.{Crypto}
use xelt_vpn.Noise.Errors.{ok}
use xelt_vpn.Noise.Handshake.{inc_index, next_of}
use xelt_vpn.Noise.Outcome.{IpAddr}
use xelt_vpn.Noise.Packet.{
  Packet, handshake_init, handshake_response, packet_cookie_reply, packet_data,
}
use xelt_vpn.Payment.Wallet.{Secp}
use xelt_vpn.Device.Peer.{Peer, AllowedIp}
use xelt_vpn.Device.Table.{Table}
use xelt_vpn.Device.Table.Linked.{Linked, some-inj}
use xelt_vpn.Device.Table.Receive.{peer_of}

-- The index to which a message is addressed; an initiation has none.
abbrev pub receiver : Packet → Option ℕ
receiver (handshake_init p) = none
receiver (handshake_response p) = some p.receiver_idx
receiver (packet_cookie_reply p) = some p.receiver_idx
receiver (packet_data p) = some p.receiver_idx

ok-inj {ℓ} : {A : Type ℓ} {a b : A} → ok a ≡ ok b → a ≡ b
ok-inj e = cc

-- The peer of a key, by its reference.
abbrev pub IsPeer : Table → List ℕ → ℕ → Peer → Type 0
IsPeer t k h p = (find k t.peers ≡ some h) × (t.arcs h ≡ some p)

next_of-div : (n : ℕ) → next_of n / 256 ≡ n / 256
next_of-div n = omega arith

module _ (crypto : Crypto) (secp : Secp) (hex_encode : List ℕ → List ℕ)
    (allowed : List AllowedIp → IpAddr → Bool) (t : Table) (l : Linked t)
    (keys : List ℕ × List ℕ) where
  by_receiver :
      (packet : Packet) (idx : ℕ)
      → receiver packet ≡ some idx
      → peer_of crypto secp hex_encode allowed t keys packet
        ≡ ok (find_at (idx / 256) t.peers_by_idx)
  unfolding peer_of
  by_receiver (handshake_init p) idx e = cc
  by_receiver (handshake_response p) idx e =
      ap (λ i. ok (find_at (i / 256) t.peers_by_idx)) (some-inj e)
  by_receiver (packet_cookie_reply p) idx e =
      ap (λ i. ok (find_at (i / 256) t.peers_by_idx)) (some-inj e)
  by_receiver (packet_data p) idx e = ap (λ i. ok (find_at (i / 256) t.peers_by_idx)) (some-inj e)

  module _ (k : List ℕ) (h : ℕ) (p : Peer) (is : IsPeer t k h p) (packet : Packet) (idx : ℕ)
      (to_idx : receiver packet ≡ some idx) where
    reaches_owner :
        idx / 256 ≡ p.index → peer_of crypto secp hex_encode allowed t keys packet ≡ ok (some h)
    reaches_owner e =
        let (q, at, found) = l.by_key k h is.0 in
        let same : q ≡ p = some-inj (sym at ∙ is.1) in
        by_receiver packet idx to_idx
        ∙ ap (λ i. ok (find_at i t.peers_by_idx)) (e ∙ sym (ap (λ (x : Peer). x.index) same))
        ∙ ap ok found

    owner_reached :
        peer_of crypto secp hex_encode allowed t keys packet ≡ ok (some h) → idx / 256 ≡ p.index
    owner_reached e =
        let found : find_at (idx / 256) t.peers_by_idx ≡ some h =
          ok-inj (sym (by_receiver packet idx to_idx) ∙ e) in
        sym ((l.by_idx (idx / 256) h found).1 p is.1)

    -- Where the maps agree, a message to an index reaches a key's peer exactly if the index has the
    -- peer's number in front; the index that the peer's handshake gives out next is such a one, if the
    -- handshake's counter has that number in front.
    pub routed :
        (peer_of crypto secp hex_encode allowed t keys packet ≡ ok (some h) ↔ idx / 256 ≡ p.index)
        × (p.tunnel.handshake.next_index / 256 ≡ p.index
            → idx ≡ (inc_index p.tunnel.handshake).0
            → peer_of crypto secp hex_encode allowed t keys packet ≡ ok (some h))
    unfolding inc_index
    routed = (
      (owner_reached, reaches_owner),
      λ numbered own.
          reaches_owner
            (ap (λ i. i / 256) own ∙ next_of-div p.tunnel.handshake.next_index ∙ numbered),
    )
