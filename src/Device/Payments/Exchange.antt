-- ===== src/Device/Payments/Exchange.antt =====
-- A client that follows the protocol pays with its first answer.
use xelt_vpn.Prelude.{
  ℕ, ◌^◌, ◌<◌, ◌≡◌, refl, ap, sym, ◌∙◌, true, false, List, [], Option, none, some, length,
  length-take, length-drop, subst, arith,
}
use mathlib.Core.List.{append-nil}
use xelt_vpn.Payment.Config.{PaymentConfig, gateway_domain}
use xelt_vpn.Payment.Eip3009.{
  compute_eip712_digest, sign_authorization, verify_authorization, verify-sign,
}
use xelt_vpn.Payment.Protocol
use xelt_vpn.Payment.Protocol.Required.{PaymentRequired, decode-encode_required}
use xelt_vpn.Payment.Protocol.Submit.{PaymentSubmit, decode-encode_submit}
use xelt_vpn.Payment.Quota.{BandwidthQuota, was_used}
use xelt_vpn.Payment.Wallet.{Secp, PaymentWallet, IsWallet, sign_digest}
use xelt_vpn.Device.Payments.{
  PaymentSide, Moment, signed_of, required_of, offer, answer, client_reply, settled_or_no_client,
}
use xelt_vpn.Device.Payments.Credit.{Pays}

-- The sizes of the Rust types of what goes into the messages.
pub record FitsWire (wallet : PaymentWallet) (config : PaymentConfig) (at : Moment) : Type 0 where
  pub address_fits : length wallet.ethereum_address ≡ 20
  pub amount_fits : config.amount_per_quota < 2 ^ 64
  pub chain_fits : config.chain_id < 2 ^ 64
  pub contract_fits : length config.usdc_contract ≡ 20
  pub nonce_fits : length at.nonce ≡ 32

required-Fits :
    {wallet : PaymentWallet} {config : PaymentConfig} {at : Moment}
    → FitsWire wallet config at
    → Protocol.Required.Fits (required_of wallet config at)
required-Fits f = record {
  amount_fits = f.amount_fits;
  nonce_fits = f.nonce_fits;
  recipient_fits = f.address_fits;
  deadline_fits = omega arith;
  chain_fits = f.chain_fits;
  contract_fits = f.contract_fits;
}

module _ (secp : Secp) where
  length-signed :
      (wallet : PaymentWallet) (digest : List ℕ)
      → (length (sign_digest secp wallet digest).1.0 ≡ 32)
        × (length (sign_digest secp wallet digest).1.1 ≡ 32)
  unfolding sign_digest
  length-signed wallet digest =
      let sig = (secp.sign_prehash_recoverable wallet.signing_key digest).0 in
      let h : length sig ≡ 64 = secp.length-signature wallet.signing_key digest in
      (length-take 32 sig (omega arith), omega (arith, length-drop 32 sig))

  answer-Fits :
      (wallet : PaymentWallet) (config : PaymentConfig) (secs : ℕ) (req : PaymentRequired)
      → length wallet.ethereum_address ≡ 20
      → Protocol.Required.Fits req
      → Protocol.Submit.Fits (answer secp wallet config secs req)
  unfolding answer
  answer-Fits wallet config secs req h f =
      let sizes =
        length-signed wallet
          (compute_eip712_digest secp (gateway_domain config) (offer secp wallet secs req)) in
      record {
        from_fits = h;
        to_fits = f.recipient_fits;
        value_fits = f.amount_fits;
        after_fits = omega arith;
        before_fits = omega arith;
        nonce_fits = f.nonce_fits;
        r_fits = sizes.0;
        s_fits = sizes.1;
      }

  answer_terms :
      (wallet : PaymentWallet) (config : PaymentConfig) (secs : ℕ) (req : PaymentRequired)
      → let m = answer secp wallet config secs req in
        (m.to ≡ req.recipient) × (m.value ≡ req.amount_usdc) × (m.nonce ≡ req.nonce)
  unfolding answer
  answer_terms wallet config secs req = (refl, refl, refl)

  answer-signed :
      (wallet : PaymentWallet) (config : PaymentConfig) (secs : ℕ) (req : PaymentRequired)
      → IsWallet secp wallet
      → let m = answer secp wallet config secs req in
        verify_authorization secp (gateway_domain config) (signed_of m) ≡ some m.from
  unfolding answer sign_authorization
  answer-signed wallet config secs req h =
      verify-sign secp wallet (gateway_domain config) (offer secp wallet secs req) h

  client_reply-required :
      (client : PaymentSide) (wallet : PaymentWallet) (secs : ℕ) (req : PaymentRequired)
      → client.payment_wallet ≡ some wallet
      → Protocol.Required.Fits req
      → client_reply secp client secs (Protocol.Required.encode req)
        ≡ some (Protocol.Submit.encode (answer secp wallet client.payment_config secs req))
  unfolding client_reply Protocol.Required.encode
  client_reply-required client wallet secs req e f =
      let back : Protocol.Required.decode (Protocol.Required.encode req) ≡ some req =
        ap Protocol.Required.decode (sym (append-nil _)) ∙ decode-encode_required req [] f in
      rw (back, e) refl

module _ (secp : Secp) (hex_encode : List ℕ → List ℕ) (server client : PaymentSide)
    (server_wallet client_wallet : PaymentWallet) (q : BandwidthQuota) (at : Moment)
    (secs : ℕ) where
  -- What the client answers to the server's request.
  abbrev pub first_answer : PaymentSubmit
  first_answer =
      answer secp client_wallet client.payment_config secs
        (required_of server_wallet server.payment_config at)

  -- A reply that pays.
  abbrev pub RepliesWithPay : Option (List ℕ) → Type 0
  RepliesWithPay none = ⊥
  RepliesWithPay (some payload) = Pays secp hex_encode server q payload

  -- A client in the server's signing domain answers a request for payment with a payload that pays,
  -- if the request's nonce is fresh, the addresses are those of the keys, and the server settles it.
  pub reply-pays :
      server.payment_wallet ≡ some server_wallet
      → client.payment_wallet ≡ some client_wallet
      → gateway_domain client.payment_config ≡ gateway_domain server.payment_config
      → FitsWire server_wallet server.payment_config at
      → length client_wallet.ethereum_address ≡ 20
      → IsWallet secp client_wallet
      → was_used q.used_nonces at.nonce ≡ false
      → settled_or_no_client hex_encode server first_answer server_wallet.ethereum_address ≡ true
      → RepliesWithPay (
          client_reply secp client secs
            (Protocol.Required.encode (required_of server_wallet server.payment_config at)))
  reply-pays es ec domain f h key fresh settled =
      let req = required_of server_wallet server.payment_config at in
      let fits = required-Fits f in
      let (to, value, nonce) = answer_terms secp client_wallet client.payment_config secs req in
      rw (client_reply-required secp client client_wallet secs req ec fits) (record {
        wallet = server_wallet;
        submit = first_answer;
        has_wallet = es;
        decoded =
            ap Protocol.Submit.decode (sym (append-nil _))
            ∙ decode-encode_submit first_answer []
                (answer-Fits secp client_wallet client.payment_config secs req h fits);
        due = record {
          to_server = to;
          enough = omega (arith, value);
          fresh = subst (λ n. was_used q.used_nonces n ≡ false) (sym nonce) fresh;
          signed =
              subst
                (λ dom.
                  verify_authorization secp dom (signed_of first_answer) ≡ some first_answer.from)
                domain (answer-signed secp client_wallet client.payment_config secs req key);
          settled = settled;
        };
      })
