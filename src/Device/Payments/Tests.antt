-- ===== src/Device/Payments/Tests.antt =====
-- A server and a client, and payments between them.
use xelt_vpn.Prelude.{ℕ, ◌≡◌, refl, true, false, List, [], Option, replicate, arith}
use xelt_vpn.Noise.Crypto.Plain.{plain_crypto}
use xelt_vpn.Prelude.Fields.{join}
use xelt_vpn.Payment.Eip3009.{verify_authorization}
use xelt_vpn.Payment.Protocol
use xelt_vpn.Payment.Protocol.Submit.{PaymentSubmit, decode-encode_submit}
use xelt_vpn.Payment.Quota.{BandwidthQuota, was_used}
use xelt_vpn.Payment.Wallet.{recover_address}
use xelt_vpn.Payment.Wallet.Plain.{plain_secp}
use xelt_vpn.Device.Payments.{
  settled_or_no_client, handle_payment_submit, client_reply, required_of,
}
use xelt_vpn.Device.Payments.Credit.{Pays, AfterPayload, handle_submit-AfterPayload}
use xelt_vpn.Device.Payments.Exchange.{RepliesWithPay, first_answer, reply-pays}
use xelt_vpn.Device.Sample.{hex, wallet, config, server, quota, at, peer, message, payload}

-- The quota after a payload.
abbrev left_by : List ℕ → Option BandwidthQuota
left_by bytes = (handle_payment_submit plain_crypto plain_secp hex server peer at.env bytes).1.quota

handle_submit-AfterPayload_example :
    AfterPayload plain_secp hex server quota
      (payload (replicate 32 7))
      (left_by (payload (replicate 32 7)))
handle_submit-AfterPayload_example =
    handle_submit-AfterPayload plain_secp hex server quota plain_crypto peer at.env refl
      (payload (replicate 32 7))

first_payment : Pays plain_secp hex server quota (payload (replicate 32 7))
unfolding settled_or_no_client verify_authorization recover_address was_used Protocol.Submit.encode
    Protocol.Submit.decode Protocol.Submit.read join
first_payment = record {
  wallet = wallet;
  submit = message (replicate 32 7);
  has_wallet = refl;
  decoded = refl;
  due = record {
    to_server = refl;
    enough = omega arith;
    fresh = refl;
    signed = refl;
    settled = refl;
  };
}

settles :
    settled_or_no_client hex server
      (first_answer plain_secp hex server server wallet wallet quota at 1_700_000_000)
      wallet.ethereum_address
    ≡ true
unfolding settled_or_no_client
settles = refl

nonce_fresh : was_used [] (replicate 32 7) ≡ false
unfolding was_used
nonce_fresh = refl

reply-pays_example :
    RepliesWithPay plain_secp hex server server wallet wallet quota at 1_700_000_000 (
      client_reply plain_secp server 1_700_000_000
        (Protocol.Required.encode (required_of wallet config at)))
reply-pays_example =
    reply-pays plain_secp hex server server wallet wallet quota at 1_700_000_000 refl refl refl
      (record {
        address_fits = refl;
        amount_fits = omega arith;
        chain_fits = omega arith;
        contract_fits = refl;
        nonce_fits = refl;
      })
      refl refl nonce_fresh settles
