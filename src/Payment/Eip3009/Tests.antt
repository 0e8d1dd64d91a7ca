-- ===== src/Payment/Eip3009/Tests.antt =====
-- Signed authorizations at concrete fields.
use xelt_vpn.Prelude.{◌≡◌, refl, some, replicate, codes, arith}
use xelt_vpn.Payment.Config.{Eip712Domain}
use xelt_vpn.Payment.Wallet.{PaymentWallet, compute_address}
use xelt_vpn.Payment.Wallet.Plain.{plain_secp}
use xelt_vpn.Payment.Eip3009.{
  TransferAuthorization, sign_authorization, verify_authorization, verify-sign,
}
use xelt_vpn.Payment.Eip3009.Preimage.{Fits, struct_words-inj}

abbrev wallet : PaymentWallet
wallet = record {
  signing_key = replicate 32 1;
  ethereum_address = compute_address plain_secp (replicate 32 1);
}

abbrev domain : Eip712Domain
domain = record {
  name = codes "USDC";
  version = codes "2";
  chain_id = 84_532;
  verifying_contract = replicate 20 2;
}

abbrev auth : TransferAuthorization
auth = record {
  from = replicate 20 5;
  to = replicate 20 1;
  value = 10_000;
  valid_after = 0;
  valid_before = 1_000_000_000;
  nonce = replicate 32 7;
}

verify-sign_example :
    verify_authorization plain_secp domain (sign_authorization plain_secp wallet domain auth)
    ≡ some wallet.ethereum_address
verify-sign_example = verify-sign plain_secp wallet domain auth refl

auth-Fits : Fits auth
auth-Fits = record {
  from_fits = refl;
  to_fits = refl;
  value_fits = omega arith;
  after_fits = omega arith;
  before_fits = omega arith;
  nonce_fits = refl;
}

struct_words-inj_example : auth ≡ auth
struct_words-inj_example = struct_words-inj plain_secp auth auth auth-Fits auth-Fits refl
