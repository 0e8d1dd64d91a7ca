-- ===== src/Device/Gate/Paid/Quiet.antt =====
-- The payment handlers write nothing to the interface, and leave the peer's index.
use xelt_vpn.Prelude.{
  ℕ, ◌≡◌, refl, Bool, true, false, not, List, Option, none, some, if◌then◌else◌, ltb, bytes_eq,
}
use xelt_vpn.Noise.Crypto.{Crypto}
use xelt_vpn.Noise.Handshake.{Env}
use xelt_vpn.Noise.Outcome.{
  TunnResult, done, error, write_to_network, write_to_tunnel_v4, write_to_tunnel_v6, panicked,
}
use xelt_vpn.Noise.Tunn.{encapsulate}
use xelt_vpn.Payment.Protocol
use xelt_vpn.Payment.Protocol.Submit.{PaymentSubmit}
use xelt_vpn.Payment.Signal.{
  build_signal_packet, payment_gateway_ip, extract_signal_payload, src_ipv4, dst_ipv4,
}
use xelt_vpn.Payment.Wallet.{Secp, PaymentWallet}
use xelt_vpn.Device.Peer.{Peer, first_ipv4}
use xelt_vpn.Device.Payments.{
  PaymentSide, Moment, Out, sent_of, send_packet, send_signal, signal_to, required_by,
  send_payment_required, is_signed, settled_or_no_client, record_nonce, submit_checked, submit_by,
  handle_payment_submit, reply_from, handle_payment_signal_client, client_reply,
  max_payment_packet_size,
}
use xelt_vpn.Device.Gate.{signal_from, signal_by, handle_signal}
use xelt_vpn.Device.Gate.Paid.{written}

-- Nothing is written, and the peer keeps its index.
abbrev pub Quiet : Peer → List Out × Peer → Type 0
Quiet p r = (written r.0 ≡ 0) × (r.1.index ≡ p.index)

if-Quiet :
    (p : Peer) (b : Bool) (x y : List Out × Peer)
    → Quiet p x
    → Quiet p y
    → Quiet p (if b then x else y)
if-Quiet p true x y h k = h
if-Quiet p false x y h k = k

sent_of-Quiet : (r : TunnResult) → written (sent_of r) ≡ 0
sent_of-Quiet done = refl
sent_of-Quiet (error e) = refl
sent_of-Quiet (write_to_network b) = refl
sent_of-Quiet (write_to_tunnel_v4 b a) = refl
sent_of-Quiet (write_to_tunnel_v6 b a) = refl
sent_of-Quiet panicked = refl

module _ (crypto : Crypto) where
  send_packet-Quiet :
      (p : Peer) (env : Env) (packet : Option (List ℕ)) → Quiet p (send_packet crypto p env packet)
  send_packet-Quiet p env none = (refl, refl)
  send_packet-Quiet p env (some packet) =
      (sent_of-Quiet (encapsulate crypto p.tunnel env packet max_payment_packet_size).0, refl)

  send_signal-Quiet :
      (p : Peer) (env : Env) (src dst tlv : List ℕ) → Quiet p (send_signal crypto p env src dst tlv)
  unfolding send_signal
  send_signal-Quiet p env src dst tlv = send_packet-Quiet p env (build_signal_packet src dst tlv)

  signal_to-Quiet :
      (p : Peer) (env : Env) (tlv : List ℕ) (ip : Option (List ℕ))
      → Quiet p (signal_to crypto p env tlv ip)
  signal_to-Quiet p env tlv none = (refl, refl)
  signal_to-Quiet p env tlv (some ip) = send_signal-Quiet p env payment_gateway_ip ip tlv

  pub required-Quiet :
      (d : PaymentSide) (p : Peer) (at : Moment) → Quiet p (send_payment_required crypto d p at)
  unfolding send_payment_required
  required-Quiet d p at = by_wallet d.payment_wallet
    where
      by_wallet : (w : Option PaymentWallet) → Quiet p (required_by crypto d p at w)
      by_wallet none = (refl, refl)
      by_wallet (some w) = signal_to-Quiet p at.env _ (first_ipv4 p.allowed_ips)

  module _ (secp : Secp) where
    reply-Quiet :
        (p : Peer) (env : Env) (tlv ip : Option (List ℕ))
        → Quiet p (reply_from crypto secp p env tlv ip)
    reply-Quiet p env none ip = (refl, refl)
    reply-Quiet p env (some tlv) none = (refl, refl)
    reply-Quiet p env (some tlv) (some ip) = send_signal-Quiet p env ip payment_gateway_ip tlv

    client-Quiet :
        (d : PaymentSide) (p : Peer) (at : Moment) (payload : List ℕ)
        → Quiet p (handle_payment_signal_client crypto secp d p at payload)
    unfolding handle_payment_signal_client
    client-Quiet d p at payload =
        reply-Quiet p at.env (client_reply secp d at.unix_secs payload) (first_ipv4 p.allowed_ips)

    module _ (hex_encode : List ℕ → List ℕ) (d : PaymentSide) where
      checked-Quiet :
          (w : PaymentWallet) (p : Peer) (env : Env) (m : PaymentSubmit)
          → Quiet p (submit_checked crypto secp hex_encode d w p env m)
      unfolding submit_checked
      checked-Quiet w p env m =
          if-Quiet p (not (bytes_eq m.to w.ethereum_address)) _ _ (refl, refl)
            (if-Quiet p (ltb m.value d.payment_config.amount_per_quota) _ _ (refl, refl)
              (if-Quiet p (not (record_nonce p.quota m.nonce).0) _ _ (refl, refl)
                (if-Quiet p (not (is_signed secp d.payment_config m)) _ _ (refl, refl)
                  (if-Quiet p (not (settled_or_no_client hex_encode d m w.ethereum_address)) _ _
                    (refl, refl) (signal_to-Quiet _ env _ (first_ipv4 p.allowed_ips))))))

      submit-Quiet :
          (p : Peer) (env : Env) (w : Option PaymentWallet) (m : Option PaymentSubmit)
          → Quiet p (submit_by crypto secp hex_encode d p env w m)
      submit-Quiet p env none m = (refl, refl)
      submit-Quiet p env (some w) none = (refl, refl)
      submit-Quiet p env (some w) (some m) = checked-Quiet w p env m

      from-Quiet :
          (p : Peer) (at : Moment) (payload : List ℕ) (src : Option (List ℕ))
          → Quiet p (signal_from crypto secp hex_encode d p at payload src)
      from-Quiet p at payload none = (refl, refl)
      from-Quiet p at payload (some from) =
          if-Quiet p (bytes_eq from payment_gateway_ip) _ _ (client-Quiet d p at payload)
            (refl, refl)

      signal_by-Quiet :
          (p : Peer) (at : Moment) (payload dst src : Option (List ℕ))
          → Quiet p (signal_by crypto secp hex_encode d p at payload dst src)
      unfolding handle_payment_submit
      signal_by-Quiet p at none dst src = (refl, refl)
      signal_by-Quiet p at (some payload) none src = (refl, refl)
      signal_by-Quiet p at (some payload) (some dst) src =
          if-Quiet p (bytes_eq dst payment_gateway_ip) _ _
            (submit-Quiet p at.env d.payment_wallet (Protocol.Submit.decode payload))
            (from-Quiet p at payload src)

      pub signal-Quiet :
          (p : Peer) (at : Moment) (packet : List ℕ)
          → Quiet p (handle_signal crypto secp hex_encode d p at packet)
      unfolding handle_signal
      signal-Quiet p at packet =
          signal_by-Quiet p at (extract_signal_payload packet) (dst_ipv4 packet) (src_ipv4 packet)
