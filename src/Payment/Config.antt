-- ===== src/Payment/Config.antt =====
-- `PaymentConfig` of protocol/boringtun/src/payment/mod.rs. The environment's values come parsed, `none`
-- where a variable is missing or does not parse; texts are lists of codes.
use xelt_vpn.Prelude.{ℕ, ◌*◌, ◌%◌, ◌^◌, Bool, List, Option, none, some, codes}

-- `Eip712Domain` of protocol/boringtun/src/payment/eip3009.rs.
pub record Eip712Domain : Type 0 where
  pub name : List ℕ
  pub version : List ℕ
  pub chain_id : ℕ
  pub verifying_contract : List ℕ

pub record PaymentConfig : Type 0 where
  pub chain_id : ℕ
  pub usdc_contract : List ℕ
  pub amount_per_quota : ℕ
  pub quota_bytes : ℕ
  pub usdc_name : List ℕ
  pub usdc_version : List ℕ
  pub gateway_wallet : List ℕ
  pub gateway_name : List ℕ
  pub gateway_version : List ℕ
  pub gateway_api_url : List ℕ
  pub rpc_url : List ℕ
  pub is_server : Bool

-- `unwrap_or`.
abbrev pub or_default : Option ℕ → ℕ → ℕ
or_default (some x) d = x
or_default none d = d

abbrev pub or_text : Option (List ℕ) → List ℕ → List ℕ
or_text (some x) d = x
or_text none d = d

-- What the environment gives.
pub record PaymentEnv : Type 0 where
  pub payment_server : Bool
  pub chain_id : Option ℕ
  pub usdc_contract : List ℕ
  pub gateway_wallet : List ℕ
  pub quota_mb : Option ℕ
  pub payment_amount : Option ℕ
  pub gateway_api : Option (List ℕ)
  pub rpc_url : Option (List ℕ)

-- The product wraps, as it does where overflow is not checked.
unfoldable pub default_config : PaymentEnv → PaymentConfig
default_config e = record {
  chain_id = or_default e.chain_id 5042002;
  usdc_contract = e.usdc_contract;
  amount_per_quota = or_default e.payment_amount 10_000;
  quota_bytes = (or_default e.quota_mb 10 * 1024 * 1024) % 2 ^ 64;
  usdc_name = codes "USDC";
  usdc_version = codes "2";
  gateway_wallet = e.gateway_wallet;
  gateway_name = codes "GatewayWalletBatched";
  gateway_version = codes "1";
  gateway_api_url = or_text e.gateway_api (codes "https://gateway-api-testnet.circle.com");
  rpc_url = or_text e.rpc_url (codes "https://rpc.testnet.arc.network");
  is_server = e.payment_server;
}

-- The domain of deposits, and the one that payments are signed for.
abbrev pub usdc_domain : PaymentConfig → Eip712Domain
usdc_domain c = record {
  name = c.usdc_name;
  version = c.usdc_version;
  chain_id = c.chain_id;
  verifying_contract = c.usdc_contract;
}

abbrev pub gateway_domain : PaymentConfig → Eip712Domain
gateway_domain c = record {
  name = c.gateway_name;
  version = c.gateway_version;
  chain_id = c.chain_id;
  verifying_contract = c.gateway_wallet;
}
