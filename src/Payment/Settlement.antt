-- ===== src/Payment/Settlement.antt =====
-- The request that protocol/boringtun/src/payment/settlement.rs sends to the settlement service. The call
-- itself and the JSON are not modelled. Hex is the crate's, taken as a parameter.
use xelt_vpn.Prelude.{ℕ, List, [], ◌∷◌, ◌++◌, Option, some, Bool, codes, digits}
use xelt_vpn.Payment.Config.{PaymentConfig}
use xelt_vpn.Payment.Protocol.Submit.{PaymentSubmit}

pub record GatewayExtra : Type 0 where
  pub name : List ℕ
  pub version : List ℕ
  pub verifying_contract : List ℕ

pub record PaymentRequirements : Type 0 where
  pub scheme : List ℕ
  pub network : List ℕ
  pub asset : List ℕ
  pub amount : List ℕ
  pub pay_to : List ℕ
  pub max_timeout_seconds : ℕ
  pub extra : GatewayExtra

pub record AuthorizationData : Type 0 where
  pub from : List ℕ
  pub to : List ℕ
  pub value : List ℕ
  pub valid_after : List ℕ
  pub valid_before : List ℕ
  pub nonce : List ℕ

pub record PayloadData : Type 0 where
  pub signature : List ℕ
  pub authorization : AuthorizationData

pub record ResourceInfo : Type 0 where
  pub url : List ℕ
  pub description : List ℕ
  pub mime_type : List ℕ

pub record PaymentPayload : Type 0 where
  pub x402_version : ℕ
  pub resource : Option ResourceInfo
  pub accepted : PaymentRequirements
  pub payload : PayloadData

pub record SettleRequest : Type 0 where
  pub x402_version : ℕ
  pub payment_payload : PaymentPayload
  pub payment_requirements : PaymentRequirements

-- `Result<SettleResponse, SettlementError>`, of which the caller reads `success`.
pub data SettleOutcome : Type 0 where
  responded : Bool → SettleOutcome
  failed : SettleOutcome

-- A `u64` has at most 20 digits.
abbrev pub to_string : ℕ → List ℕ
to_string x = digits 19 x

module _ (hex_encode : List ℕ → List ℕ) where
  abbrev pub hex_text : List ℕ → List ℕ
  hex_text bytes = codes "0x" ++ hex_encode bytes

  unfoldable pub requirements_of : PaymentConfig → PaymentSubmit → List ℕ → PaymentRequirements
  requirements_of config submit server_address = record {
    scheme = codes "exact";
    network = codes "eip155:" ++ to_string config.chain_id;
    asset = hex_text config.usdc_contract;
    amount = to_string submit.value;
    pay_to = hex_text server_address;
    max_timeout_seconds = 345_600;
    extra = record {
      name = config.gateway_name;
      version = config.gateway_version;
      verifying_contract = hex_text config.gateway_wallet;
    };
  }

  unfoldable pub payload_of : PaymentSubmit → PayloadData
  payload_of submit = record {
    signature = hex_text (submit.r ++ (submit.s ++ (submit.v ∷ [])));
    authorization = record {
      from = hex_text submit.from;
      to = hex_text submit.to;
      value = to_string submit.value;
      valid_after = to_string submit.valid_after;
      valid_before = to_string submit.valid_before;
      nonce = hex_text submit.nonce;
    };
  }

  unfoldable pub build_settle_request : PaymentConfig → PaymentSubmit → List ℕ → SettleRequest
  build_settle_request config submit server_address =
      let requirements = requirements_of config submit server_address in
      record {
        x402_version = 2;
        payment_payload = record {
          x402_version = 2;
          resource = some (record {
            url = codes "boringtun-vpn://bandwidth";
            description = codes "VPN bandwidth quota";
            mime_type = codes "application/octet-stream";
          });
          accepted = requirements;
          payload = payload_of submit;
        };
        payment_requirements = requirements;
      }
