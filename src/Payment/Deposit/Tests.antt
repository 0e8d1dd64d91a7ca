-- ===== src/Payment/Deposit/Tests.antt =====
-- A deposit against a node that answers.
use xelt_vpn.Prelude.{
  ◌≡◌, refl, false, List, [], ◌∷◌, ◌++◌, Option, none, some, length, replicate, codes,
}
use xelt_vpn.Payment.Config.{PaymentConfig, default_config}
use xelt_vpn.Payment.Wallet.{PaymentWallet, compute_address}
use xelt_vpn.Payment.Wallet.Plain.{plain_secp}
use xelt_vpn.Payment.Rpc.{
  Value, text, receipt, other, RpcCall, eth_call, eth_get_transaction_count, eth_gas_price,
  eth_max_priority_fee_per_gas, eth_estimate_gas, eth_send_raw_transaction,
  eth_get_transaction_receipt, strip_0x, hex_digits, parse_hex, parse_u256_result, wait_for_receipt,
}
use xelt_vpn.Payment.Deposit.{deposit_with_authorization, deposit_of, auto_deposit}
use xelt_vpn.Payment.Deposit.Once.{
  transactions_sent, SendsRest, balance_told, auto_deposit-SendsOnce,
}

abbrev wallet : PaymentWallet
wallet = record {
  signing_key = replicate 32 1;
  ethereum_address = compute_address plain_secp (replicate 32 1);
}

abbrev config : PaymentConfig
config = default_config (record {
  payment_server = false;
  chain_id = none;
  usdc_contract = replicate 20 2;
  gateway_wallet = replicate 20 3;
  quota_mb = none;
  payment_amount = none;
  gateway_api = none;
  rpc_url = none;
})

-- A balance of 131072 units, no estimate of the gas, and a receipt.
abbrev node : List RpcCall → RpcCall → Option Value
node w (eth_call to input) = some (text (replicate 29 0 ++ (2 ∷ 0 ∷ 0 ∷ [])))
node w (eth_get_transaction_count a) = some (text (codes "0x1f"))
node w eth_gas_price = some (text (codes "0x0"))
node w eth_max_priority_fee_per_gas = none
node w (eth_estimate_gas from to input) = some other
node w (eth_send_raw_transaction raw) = some (text (codes "0xab"))
node w (eth_get_transaction_receipt h) = some (receipt (some (codes "0x1")))

tells_balance : balance_told plain_secp wallet config [] 0 node (λ s. some s) ≡ some 131_072
unfolding strip_0x parse_u256_result default_config
tells_balance = refl

deposits :
    (auto_deposit plain_secp wallet config [] 0 node (λ s. some s) []).0 ≡ some (codes "0xab")
unfolding auto_deposit deposit_of deposit_with_authorization wait_for_receipt strip_0x parse_hex
    hex_digits parse_u256_result default_config
deposits = refl

sends_one :
    length (transactions_sent (auto_deposit plain_secp wallet config [] 0 node (λ s. some s) []).1)
    ≡ 1
unfolding auto_deposit deposit_of deposit_with_authorization wait_for_receipt strip_0x parse_hex
    hex_digits parse_u256_result default_config transactions_sent
sends_one = refl

auto_deposit-SendsOnce_example :
    SendsRest plain_secp wallet config
      (replicate 32 7)
      0
      node
      (λ s. some s)
      (balance_told plain_secp wallet config (replicate 32 7) 0 node (λ s. some s))
      (auto_deposit plain_secp wallet config (replicate 32 7) 0 node (λ s. some s) []).1
auto_deposit-SendsOnce_example =
    auto_deposit-SendsOnce plain_secp wallet config (replicate 32 7) 0 node (λ s. some s)
