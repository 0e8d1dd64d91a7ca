-- ===== src/Device/Payments.antt =====
-- The payment handlers of protocol/boringtun/src/device/mod.rs: `send_payment_required`,
-- `handle_payment_submit` and `handle_payment_signal_client`. A handler returns what it sends and the
-- peer that it leaves.
pub mod Credit
pub mod Nonces
pub mod Exchange
mod Tests
use xelt_vpn.Prelude.{
  ℕ, ◌+◌, ◌%◌, ◌^◌, Bool, true, false, not, List, [], ◌∷◌, Option, none, some, ltb, ◌==◌,
  if◌then◌else◌, bytes_eq,
}
use xelt_vpn.Noise.Crypto.{Crypto}
use xelt_vpn.Noise.Handshake.{Env}
use xelt_vpn.Noise.Outcome.{
  TunnResult, done, error, write_to_network, write_to_tunnel_v4, write_to_tunnel_v6, panicked,
}
use xelt_vpn.Noise.Tunn.{Tunn, encapsulate}
use xelt_vpn.Payment.Config.{PaymentConfig, gateway_domain}
use xelt_vpn.Payment.Eip3009.{
  TransferAuthorization, SignedAuthorization, compute_eip712_digest, verify_authorization,
}
use xelt_vpn.Payment.Protocol
use xelt_vpn.Payment.Protocol.Accepted.{PaymentAccepted}
use xelt_vpn.Payment.Protocol.Frame.{msg_payment_required, msg_payment_accepted}
use xelt_vpn.Payment.Protocol.Required.{PaymentRequired}
use xelt_vpn.Payment.Protocol.Submit.{PaymentSubmit}
use xelt_vpn.Payment.Quota.{BandwidthQuota, check_and_record_nonce, credit, u64_mod}
use xelt_vpn.Payment.Settlement.{
  SettleRequest, SettleOutcome, responded, failed, build_settle_request,
}
use xelt_vpn.Payment.Signal.{build_signal_packet, payment_gateway_ip}
use xelt_vpn.Payment.Wallet.{Secp, PaymentWallet, sign_digest}
use xelt_vpn.Device.Peer.{Peer, first_ipv4}

abbrev pub max_payment_packet_size : ℕ
max_payment_packet_size = 512

-- The payment fields of `Device`; a settlement client is what it answers to a request.
pub record PaymentSide : Type 0 where
  pub payment_wallet : Option PaymentWallet
  pub payment_config : PaymentConfig
  pub settlement_client : Option (SettleRequest → SettleOutcome)

-- What a handler reads of the clocks and the random source.
pub record Moment : Type 0 where
  pub env : Env
  pub unix_secs : ℕ
  pub nonce : List ℕ

-- What a handler does: a datagram to the peer, a packet to the interface, or a panic.
pub data Out : Type 0 where
  send_udp : List ℕ → Out
  write4 : List ℕ → Out
  write6 : List ℕ → Out
  panics : Out

-- `unix + n` on `u64`.
abbrev pub later : ℕ → ℕ → ℕ
later secs n = (secs + n) % u64_mod

abbrev pub sent_of : TunnResult → List Out
sent_of (write_to_network enc) = send_udp enc ∷ []
sent_of panicked = panics ∷ []
sent_of done = []
sent_of (error e) = []
sent_of (write_to_tunnel_v4 b a) = []
sent_of (write_to_tunnel_v6 b a) = []

abbrev pub with_tunnel : Peer → Tunn → Peer
with_tunnel p t = record p { tunnel = t }

abbrev pub record_nonce : Option BandwidthQuota → List ℕ → Bool × Option BandwidthQuota
record_nonce none nonce = (true, none)
record_nonce (some q) nonce = let (fresh, q') = check_and_record_nonce q nonce in (fresh, some q')

abbrev pub credit_quota : Option BandwidthQuota → ℕ → Option BandwidthQuota
credit_quota none bytes = none
credit_quota (some q) bytes = some (credit q bytes)

-- The message that `send_payment_required` sends.
abbrev pub required_of : PaymentWallet → PaymentConfig → Moment → PaymentRequired
required_of wallet config at = record {
  amount_usdc = config.amount_per_quota;
  nonce = at.nonce;
  recipient = wallet.ethereum_address;
  deadline = later at.unix_secs 300;
  chain_id = config.chain_id;
  usdc_contract = config.usdc_contract;
}

abbrev pub authorization_of : PaymentSubmit → TransferAuthorization
authorization_of m = record {
  from = m.from;
  to = m.to;
  value = m.value;
  valid_after = m.valid_after;
  valid_before = m.valid_before;
  nonce = m.nonce;
}

abbrev pub signed_of : PaymentSubmit → SignedAuthorization
signed_of m = record { auth = authorization_of m; v = m.v; r = m.r; s = m.s }

module _ (crypto : Crypto) where
  -- `build_signal_packet`, and `encapsulate` into a buffer of `max_payment_packet_size` bytes.
  abbrev pub send_packet : Peer → Env → Option (List ℕ) → List Out × Peer
  send_packet p env none = (panics ∷ [], p)
  send_packet p env (some ip_packet) =
      let (r, t) = encapsulate crypto p.tunnel env ip_packet max_payment_packet_size in
      (sent_of r, with_tunnel p t)

  unfoldable pub send_signal : Peer → Env → List ℕ → List ℕ → List ℕ → List Out × Peer
  send_signal p env src dst tlv = send_packet p env (build_signal_packet src dst tlv)

  abbrev pub signal_to : Peer → Env → List ℕ → Option (List ℕ) → List Out × Peer
  signal_to p env tlv none = ([], p)
  signal_to p env tlv (some peer_ip) = send_signal p env payment_gateway_ip peer_ip tlv

  abbrev pub signal_to_peer : Peer → Env → List ℕ → List Out × Peer
  signal_to_peer p env tlv = signal_to p env tlv (first_ipv4 p.allowed_ips)

  abbrev pub required_by : PaymentSide → Peer → Moment → Option PaymentWallet → List Out × Peer
  required_by d p at none = ([], p)
  required_by d p at (some wallet) =
      signal_to_peer p at.env (Protocol.Required.encode (required_of wallet d.payment_config at))

  unfoldable pub send_payment_required : PaymentSide → Peer → Moment → List Out × Peer
  send_payment_required d p at = required_by d p at d.payment_wallet

module _ (secp : Secp) where
  -- Someone is recovered, and it is the sender.
  unfoldable pub is_signed : PaymentConfig → PaymentSubmit → Bool
  is_signed config m = elim (verify_authorization secp (gateway_domain config) (signed_of m)) [
    | none ↦ false
    | some recovered ↦ bytes_eq recovered m.from
  ]

  -- The authorization that a client signs on its own, and the message with it.
  abbrev pub offer : PaymentWallet → ℕ → PaymentRequired → TransferAuthorization
  offer wallet unix_secs req = record {
    from = wallet.ethereum_address;
    to = req.recipient;
    value = req.amount_usdc;
    valid_after = 0;
    valid_before = later unix_secs 345_600;
    nonce = req.nonce;
  }

  unfoldable pub answer : PaymentWallet → PaymentConfig → ℕ → PaymentRequired → PaymentSubmit
  answer wallet config unix_secs req =
      let auth = offer wallet unix_secs req in
      let (v, (r, s)) =
        sign_digest secp wallet (compute_eip712_digest secp (gateway_domain config) auth) in
      record {
        from = wallet.ethereum_address;
        to = req.recipient;
        value = req.amount_usdc;
        valid_after = auth.valid_after;
        valid_before = auth.valid_before;
        nonce = req.nonce;
        v = v;
        r = r;
        s = s;
      }

module _ (hex_encode : List ℕ → List ℕ) where
  -- Without a client the payment counts as settled.
  unfoldable pub settled_or_no_client : PaymentSide → PaymentSubmit → List ℕ → Bool
  settled_or_no_client d m server_address = elim d.settlement_client [
    | none ↦ true
    | some settle ↦
        elim (settle (build_settle_request hex_encode d.payment_config m server_address)) [
          | responded success ↦ success
          | failed ↦ false
        ]
  ]

module _ (crypto : Crypto) (secp : Secp) (hex_encode : List ℕ → List ℕ) where
  abbrev pub submit_accepted : PaymentSide → Peer → Env → List Out × Peer
  submit_accepted d p env =
      let quota_bytes = d.payment_config.quota_bytes in
      signal_to_peer crypto (record p { quota = credit_quota p.quota quota_bytes }) env
        (Protocol.Accepted.encode (record { new_quota_bytes = quota_bytes }))

  -- The checks of a decoded message, in their order: the nonce is recorded before the signature is
  -- looked at.
  unfoldable pub submit_checked :
      PaymentSide → PaymentWallet → Peer → Env → PaymentSubmit → List Out × Peer
  submit_checked d wallet p env m =
      let (fresh, quota) = record_nonce p.quota m.nonce in
      let p₁ : Peer = record p { quota = quota } in
      if not (bytes_eq m.to wallet.ethereum_address)
      then ([], p)
      else if ltb m.value d.payment_config.amount_per_quota
      then ([], p)
      else if not fresh
      then ([], p₁)
      else if not (is_signed secp d.payment_config m)
      then ([], p₁)
      else if not (settled_or_no_client hex_encode d m wallet.ethereum_address)
      then ([], p₁)
      else submit_accepted d p₁ env

  abbrev pub submit_by :
      PaymentSide → Peer → Env → Option PaymentWallet → Option PaymentSubmit → List Out × Peer
  submit_by d p env none m = ([], p)
  submit_by d p env (some wallet) none = ([], p)
  submit_by d p env (some wallet) (some m) = submit_checked d wallet p env m

  unfoldable pub handle_payment_submit : PaymentSide → Peer → Env → List ℕ → List Out × Peer
  handle_payment_submit d p env payload =
      submit_by d p env d.payment_wallet (Protocol.Submit.decode payload)

module _ (secp : Secp) where
  -- What the client answers to a payload, if anything; `PaymentAccepted` is only logged.
  unfoldable pub client_reply : PaymentSide → ℕ → List ℕ → Option (List ℕ)
  client_reply d unix_secs [] = none
  client_reply d unix_secs (kind ∷ rest) =
      if kind == msg_payment_required
      then elim (Protocol.Required.decode (kind ∷ rest)) [
        | none ↦ none
        | some req ↦ elim d.payment_wallet [
          | none ↦ none
          | some wallet ↦
              some (Protocol.Submit.encode (answer secp wallet d.payment_config unix_secs req))
        ]
      ]
      else none

module _ (crypto : Crypto) (secp : Secp) where
  abbrev pub reply_from : Peer → Env → Option (List ℕ) → Option (List ℕ) → List Out × Peer
  reply_from p env none client_ip = ([], p)
  reply_from p env (some tlv) none = ([], p)
  reply_from p env (some tlv) (some client_ip) =
      send_signal crypto p env client_ip payment_gateway_ip tlv

  unfoldable pub handle_payment_signal_client :
      PaymentSide → Peer → Moment → List ℕ → List Out × Peer
  handle_payment_signal_client d p at payload =
      reply_from p at.env (client_reply secp d at.unix_secs payload) (first_ipv4 p.allowed_ips)
