-- ===== src/Device/Sample.antt =====
-- A server with a peer whose quota is used up, and parsers of the configuration protocol, for tests.
use xelt_vpn.Prelude.{◌≡◌, refl, Bool, false, ℕ, true, List, [], ◌∷◌, none, some, replicate, codes}
use xelt_vpn.Noise.Crypto.Plain.{plain_crypto}
use xelt_vpn.Noise.Outcome.{v4}
use xelt_vpn.Noise.Tunn.{new_tunn}
use xelt_vpn.Payment.Config.{PaymentConfig}
use xelt_vpn.Payment.Protocol
use xelt_vpn.Payment.Protocol.Submit.{PaymentSubmit, decode-encode_submit}
use xelt_vpn.Payment.Quota.{BandwidthQuota}
use xelt_vpn.Payment.Settlement.{responded}
use xelt_vpn.Payment.Wallet.{PaymentWallet, compute_address}
use xelt_vpn.Payment.Wallet.Plain.{plain_secp}
use xelt_vpn.Device.Peer.{Peer}
use xelt_vpn.Device.Api.{Parsers, DeviceCall}
use xelt_vpn.Device.Api.Key.{bytes_of_hex}
use xelt_vpn.Prelude.Maps.{has_number}
use xelt_vpn.Device.Payments.{PaymentSide, Moment}

abbrev pub hex : List ℕ → List ℕ
hex bytes = bytes

abbrev pub wallet : PaymentWallet
wallet = record {
  signing_key = replicate 32 1;
  ethereum_address = compute_address plain_secp (replicate 32 1);
}

abbrev pub config : PaymentConfig
config = record {
  chain_id = 5042002;
  usdc_contract = replicate 20 2;
  amount_per_quota = 10_000;
  quota_bytes = 500;
  usdc_name = codes "USDC";
  usdc_version = codes "2";
  gateway_wallet = replicate 20 3;
  gateway_name = codes "GatewayWalletBatched";
  gateway_version = codes "1";
  gateway_api_url = [];
  rpc_url = [];
  is_server = true;
}

abbrev pub server : PaymentSide
server = record {
  payment_wallet = some wallet;
  payment_config = config;
  settlement_client = some (λ request. responded true);
}

abbrev pub quota : BandwidthQuota
quota = record {
  remaining_bytes = 0;
  blocked = true;
  total_consumed = 700;
  payment_count = 0;
  used_nonces = [];
}

abbrev pub at : Moment
at = record {
  env = record { now = 9; ephemeral = replicate 32 3 };
  unix_secs = 1_700_000_000;
  nonce = replicate 32 7;
}

abbrev pub peer : Peer
peer = record {
  tunnel =
      new_tunn plain_crypto (replicate 32 1) (replicate 32 9) none none 1 none [] []
        (record { duration_at_start = 0; instant_at_start = 0 }) 0;
  index = 1;
  endpoint = record { addr = none; conn = none };
  allowed_ips = record { addr = v4 (10 ∷ 0 ∷ 0 ∷ 2 ∷ []); cidr = 32 } ∷ [];
  preshared_key = none;
  quota = some quota;
}

-- A message with a nonce.
abbrev pub message : List ℕ → PaymentSubmit
message nonce = record {
  from = replicate 20 5;
  to = replicate 20 5;
  value = 10_000;
  valid_after = 0;
  valid_before = 1_800_000_000;
  nonce = nonce;
  v = 28;
  r = replicate 32 6;
  s = replicate 32 6;
}

abbrev pub payload : List ℕ → List ℕ
payload nonce = Protocol.Submit.encode (message nonce)

abbrev pub plain_parsers : Parsers
plain_parsers = record {
  base64_decode = λ s. none;
  parse_ip = λ s. some (v4 (10 ∷ 0 ∷ 0 ∷ 2 ∷ []));
  parse_socket_addr = λ s. none;
}

abbrev pub always : DeviceCall → Bool
always call = true

abbrev pub zeros_hex : List ℕ
zeros_hex = replicate 64 b'0'

pub zeros_hex_decodes : bytes_of_hex zeros_hex ≡ some (replicate 32 0)
unfolding bytes_of_hex
zeros_hex_decodes = refl

pub no_slash : has_number b'/' (codes "10.0.0.2") ≡ false
unfolding has_number
no_slash = refl
