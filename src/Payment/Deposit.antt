-- ===== src/Payment/Deposit.antt =====
-- protocol/boringtun/src/payment/deposit.rs: the deposit that a client makes when it starts. The time
-- and the random nonce are arguments, the node's answers those of Payment/Rpc.antt. Words and the domain
-- are encoded as in Payment/Eip3009.antt, whose functions the file repeats.
pub mod Once
mod Tests
use xelt_vpn.Prelude.{
  ℕ, ◌+◌, ◌-◌, ◌*◌, ◌/◌, ◌%◌, ◌^◌, Bool, true, false, ◌&&◌, List, [], ◌∷◌, ◌++◌, Option, none, some,
  ltb, ◌==◌, if◌then◌else◌, codes,
}
use xelt_vpn.Prelude.Fields.{join}
use xelt_vpn.Payment.Config.{PaymentConfig, usdc_domain}
use xelt_vpn.Payment.Wallet.{Secp, PaymentWallet, sign_digest}
use xelt_vpn.Payment.Eip3009.{abi_encode_address, abi_encode_u256, compute_domain_separator}
use xelt_vpn.Payment.Tx.{Eip1559Tx, sign}
use xelt_vpn.Payment.Rpc.{
  Value, RpcCall, Rpc, give, and_then, or_value, read_bytes, parse_u256_result, get_nonce,
  gas_price, max_priority_fee, estimate_gas, send_raw_tx, wait_for_receipt,
}

abbrev pub sel_balance_of : List ℕ
sel_balance_of = 0x70 ∷ 0xa0 ∷ 0x82 ∷ 0x31 ∷ []

abbrev pub sel_available_balance : List ℕ
sel_available_balance = 0x3c ∷ 0xcb ∷ 0x64 ∷ 0xae ∷ []

abbrev pub sel_deposit_with_auth : List ℕ
sel_deposit_with_auth = 0x8a ∷ 0x94 ∷ 0xd4 ∷ 0xfc ∷ []

abbrev pub gas_reserve : ℕ
gas_reserve = 100_000

module _ (hex_decode : List ℕ → Option (List ℕ))
    (answer : List RpcCall → RpcCall → Option Value) where
  abbrev pub query_balance : List ℕ → List ℕ → Rpc ℕ
  query_balance token addr =
      and_then (read_bytes answer hex_decode token (sel_balance_of ++ abi_encode_address addr))
        (λ bytes. give (some (parse_u256_result bytes)))

  abbrev pub query_gateway_balance : List ℕ → List ℕ → List ℕ → Rpc ℕ
  query_gateway_balance gateway token addr =
      and_then
        (read_bytes answer hex_decode gateway
          (sel_available_balance ++ (abi_encode_address token ++ abi_encode_address addr)))
        (λ bytes. give (some (parse_u256_result bytes)))

module _ (secp : Secp) (wallet : PaymentWallet) (config : PaymentConfig) (nonce : List ℕ)
    (now : ℕ) where
  abbrev pub receive_type_hash : List ℕ
  receive_type_hash = secp.keccak256 (
      codes
        "ReceiveWithAuthorization(address from,address to,uint256 value,uint256 validAfter,uint256 validBefore,bytes32 nonce)")

  abbrev pub valid_before : ℕ
  valid_before = (now + 600) % 2 ^ 64

  abbrev pub receive_words : ℕ → List (List ℕ)
  receive_words amount =
      receive_type_hash
      ∷ abi_encode_address wallet.ethereum_address
      ∷ abi_encode_address config.gateway_wallet
      ∷ abi_encode_u256 amount
      ∷ abi_encode_u256 0
      ∷ abi_encode_u256 valid_before
      ∷ nonce
      ∷ []

  unfoldable pub receive_digest : ℕ → List ℕ
  receive_digest amount = secp.keccak256 (
      0x19
      ∷ 0x01
      ∷ (compute_domain_separator secp (usdc_domain config)
          ++ secp.keccak256 (join (receive_words amount))))

  unfoldable pub deposit_calldata : ℕ → List ℕ
  deposit_calldata amount =
      let (v, (r, s)) = sign_digest secp wallet (receive_digest amount) in
      join (
        sel_deposit_with_auth
        ∷ abi_encode_address config.usdc_contract
        ∷ abi_encode_address wallet.ethereum_address
        ∷ abi_encode_u256 amount
        ∷ abi_encode_u256 0
        ∷ abi_encode_u256 valid_before
        ∷ nonce
        ∷ abi_encode_u256 v
        ∷ r
        ∷ s
        ∷ [])

  -- `saturating_add` of the base and the priority fee.
  abbrev pub max_fee : ℕ → ℕ → ℕ
  max_fee base priority = if ltb (base + priority) (2 ^ 128) then base + priority else 2 ^ 128 - 1

  -- Three tenths more than the estimate; the product wraps.
  abbrev pub with_buffer : ℕ → Option ℕ
  with_buffer g = some (g * 130 % 2 ^ 64 / 100)

  abbrev pub deposit_tx : ℕ → ℕ → ℕ → ℕ → ℕ → Eip1559Tx
  deposit_tx amount tx_nonce priority base gas = record {
    chain_id = config.chain_id;
    nonce = tx_nonce;
    max_priority_fee_per_gas = priority;
    max_fee_per_gas = max_fee base priority;
    gas_limit = gas;
    to = config.gateway_wallet;
    value = 0;
    input = deposit_calldata amount;
  }

  module _ (answer : List RpcCall → RpcCall → Option Value) where
    abbrev pub gas_limit_of : ℕ → Rpc ℕ
    gas_limit_of amount =
        or_value
          (and_then
            (estimate_gas answer wallet.ethereum_address config.gateway_wallet
              (deposit_calldata amount))
            (λ g. give (with_buffer g)))
          200_000

    -- The transaction with its fields, as they become known.
    abbrev pub send_deposit : ℕ → ℕ → ℕ → ℕ → ℕ → Rpc (List ℕ)
    send_deposit amount tx_nonce priority base gas =
        send_raw_tx answer
          (sign secp (deposit_tx amount tx_nonce priority base gas) wallet.signing_key)

    abbrev pub with_base : ℕ → ℕ → ℕ → ℕ → Rpc (List ℕ)
    with_base amount tx_nonce priority base =
        and_then (gas_limit_of amount) (send_deposit amount tx_nonce priority base)

    abbrev pub with_priority : ℕ → ℕ → ℕ → Rpc (List ℕ)
    with_priority amount tx_nonce priority =
        and_then (gas_price answer) (with_base amount tx_nonce priority)

    abbrev pub with_nonce : ℕ → ℕ → Rpc (List ℕ)
    with_nonce amount tx_nonce =
        and_then (or_value (max_priority_fee answer) 1_000_000) (with_priority amount tx_nonce)

    unfoldable pub deposit_with_authorization : ℕ → Rpc (List ℕ)
    deposit_with_authorization amount =
        and_then (get_nonce answer wallet.ethereum_address) (with_nonce amount)

    abbrev pub confirmed : List ℕ → Bool → Rpc (List ℕ)
    confirmed tx_hash true = give (some tx_hash)
    confirmed tx_hash false = give none

    -- From the test of the balances on.
    unfoldable pub deposit_of : ℕ → ℕ → Rpc (List ℕ)
    deposit_of usdc_balance gw_balance =
        if (usdc_balance == 0) && (gw_balance == 0)
        then give none
        else if usdc_balance == 0
        then give (some (codes "already_deposited"))
        else if usdc_balance - gas_reserve == 0
        then give none
        else and_then (deposit_with_authorization (usdc_balance - gas_reserve))
            (λ tx_hash. and_then (wait_for_receipt answer tx_hash 30) (confirmed tx_hash))

    unfoldable pub auto_deposit : (List ℕ → Option (List ℕ)) → Rpc (List ℕ)
    auto_deposit hex_decode =
        and_then (query_balance hex_decode answer config.usdc_contract wallet.ethereum_address)
          (λ usdc_balance.
            and_then
              (query_gateway_balance hex_decode answer config.gateway_wallet config.usdc_contract
                wallet.ethereum_address)
              (deposit_of usdc_balance))
