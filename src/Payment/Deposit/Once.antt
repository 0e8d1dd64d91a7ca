-- ===== src/Payment/Deposit/Once.antt =====
-- The deposit sends at most one transaction.
use xelt_vpn.Prelude.{
  ℕ, zero, suc, ◌-◌, ◌<◌, ◌≡◌, refl, ap, ◌∙◌, ◌⊎◌, inl, inr, Bool, true, false, ◌&&◌, List, [], ◌∷◌,
  Option, none, some, ◌==◌, Bool-cases, arith,
}
use xelt_vpn.Payment.Config.{PaymentConfig}
use xelt_vpn.Payment.Wallet.{Secp, PaymentWallet}
use xelt_vpn.Payment.Tx.{sign}
use xelt_vpn.Payment.Rpc.{
  Value, RpcCall, eth_call, eth_get_transaction_count, eth_gas_price, eth_max_priority_fee_per_gas,
  eth_estimate_gas, eth_send_raw_transaction, eth_get_transaction_receipt, Rpc, as_str, give,
  continue, and_then, or_value, call, read_bytes, parse_u256_result, get_nonce, max_priority_fee,
  gas_price, get_receipt, status_or, wait_for_receipt,
}
use xelt_vpn.Payment.Deposit.{
  gas_reserve, query_balance, query_gateway_balance, deposit_tx, gas_limit_of, send_deposit,
  with_base, with_priority, with_nonce, deposit_with_authorization, confirmed, deposit_of,
  auto_deposit,
}

-- The transactions among the requests, the last first.
unfoldable pub transactions_sent : List RpcCall → List (List ℕ)
transactions_sent [] = []
transactions_sent (eth_call to input ∷ w) = transactions_sent w
transactions_sent (eth_get_transaction_count a ∷ w) = transactions_sent w
transactions_sent (eth_gas_price ∷ w) = transactions_sent w
transactions_sent (eth_max_priority_fee_per_gas ∷ w) = transactions_sent w
transactions_sent (eth_estimate_gas from to input ∷ w) = transactions_sent w
transactions_sent (eth_send_raw_transaction raw ∷ w) = raw ∷ transactions_sent w
transactions_sent (eth_get_transaction_receipt h ∷ w) = transactions_sent w

abbrev Quiet : {A : Type 0} → Rpc A → Type 0
Quiet m = (w : List RpcCall) → transactions_sent (m w).1 ≡ transactions_sent w

abbrev OneAtMost : {A : Type 0} → (List ℕ → Type 0) → Rpc A → Type 0
OneAtMost P m =
    (w : List RpcCall)
    → (transactions_sent (m w).1 ≡ transactions_sent w)
      ⊎ ((raw : List ℕ) × (P raw × (transactions_sent (m w).1 ≡ raw ∷ transactions_sent w)))

continue-Quiet :
    {A B : Type 0} (f : A → Rpc B)
    → ((a : A) → Quiet (f a))
    → (r : Option A × List RpcCall) → transactions_sent (continue f r).1 ≡ transactions_sent r.1
continue-Quiet f q (none, w) = refl
continue-Quiet f q (some a, w) = q a w

and_then-Quiet :
    {A B : Type 0} (m : Rpc A) (f : A → Rpc B)
    → Quiet m
    → ((a : A) → Quiet (f a))
    → Quiet (and_then m f)
and_then-Quiet m f p q w = continue-Quiet f q (m w) ∙ p w

module _ (P : List ℕ → Type 0) where
  abbrev From : List RpcCall → List RpcCall → Type 0
  From w w' =
      (transactions_sent w' ≡ transactions_sent w)
      ⊎ ((raw : List ℕ) × (P raw × (transactions_sent w' ≡ raw ∷ transactions_sent w)))

  From-after :
      (w w' w'' : List RpcCall)
      → transactions_sent w' ≡ transactions_sent w
      → From w' w''
      → From w w''
  From-after w w' w'' e (inl p) = inl (p ∙ e)
  From-after w w' w'' e (inr (raw, (p, q))) = inr (raw, (p, q ∙ ap (λ xs. raw ∷ xs) e))

  From-then :
      (w w' w'' : List RpcCall)
      → From w w'
      → transactions_sent w'' ≡ transactions_sent w'
      → From w w''
  From-then w w' w'' (inl p) e = inl (e ∙ p)
  From-then w w' w'' (inr (raw, (p, q))) e = inr (raw, (p, e ∙ q))

  read_first :
      {A B : Type 0} (m : Rpc A) (f : A → Rpc B)
      → Quiet m
      → ((a : A) → OneAtMost P (f a))
      → OneAtMost P (and_then m f)
  read_first m f p q w = From-after w _ _ (p w) (step (m w))
    where
      step : (r : Option _ × List RpcCall) → From r.1 (continue f r).1
      step (none, w') = inl refl
      step (some a, w') = q a w'

  read_last :
      {A B : Type 0} (m : Rpc A) (f : A → Rpc B)
      → OneAtMost P m
      → ((a : A) → Quiet (f a))
      → OneAtMost P (and_then m f)
  read_last m f p q w = From-then w _ _ (p w) (continue-Quiet f q (m w))

From-map :
    (P Q : List ℕ → Type 0)
    → ((raw : List ℕ) → P raw → Q raw)
    → (w w' : List RpcCall) → From P w w'
    → From Q w w'
From-map P Q f w w' (inl e) = inl e
From-map P Q f w w' (inr (raw, (p, e))) = inr (raw, (f raw p, e))

module _ (answer : List RpcCall → RpcCall → Option Value) where
  status-Quiet :
      (rest : Rpc Bool) → Quiet rest → (o : Option Value) → Quiet (status_or answer rest o)
  status-Quiet rest q none w = q w
  status-Quiet rest q (some r) w = refl

  receipt-Quiet : (h : List ℕ) (n : ℕ) → Quiet (wait_for_receipt answer h n)
  unfolding wait_for_receipt transactions_sent
  receipt-Quiet h zero w = refl
  receipt-Quiet h (suc n) w =
      and_then-Quiet (get_receipt answer h) (status_or answer (wait_for_receipt answer h n))
        (and_then-Quiet (call answer (eth_get_transaction_receipt h)) _ (λ w. refl) (λ v w. refl))
        (status-Quiet (wait_for_receipt answer h n) (receipt-Quiet h n)) w

module _ (secp : Secp) (wallet : PaymentWallet) (config : PaymentConfig) (nonce : List ℕ) (now : ℕ)
    (answer : List RpcCall → RpcCall → Option Value) where
  -- A signed transaction that deposits an amount.
  abbrev pub IsDepositOf : ℕ → List ℕ → Type 0
  IsDepositOf amount raw =
      (tx_nonce : ℕ) × (priority : ℕ) × (base : ℕ) × (gas : ℕ) × raw
        ≡ sign secp (deposit_tx secp wallet config nonce now amount tx_nonce priority base gas)
            wallet.signing_key

  deposit-OneAtMost :
      (amount : ℕ)
      → OneAtMost
          (IsDepositOf amount)
          (deposit_with_authorization secp wallet config nonce now answer amount)
  unfolding deposit_with_authorization transactions_sent
  deposit-OneAtMost amount =
      let P = IsDepositOf amount in
      read_first P (get_nonce answer wallet.ethereum_address)
        (with_nonce secp wallet config nonce now answer amount)
        (and_then-Quiet (call answer _) _ (λ w. refl) (λ v w. refl))
        (λ tx_nonce.
          read_first P (or_value (max_priority_fee answer) 1_000_000)
            (with_priority secp wallet config nonce now answer amount tx_nonce)
            (and_then-Quiet (call answer _) _ (λ w. refl) (λ v w. refl))
            (λ priority.
              read_first P (gas_price answer)
                (with_base secp wallet config nonce now answer amount tx_nonce priority)
                (and_then-Quiet (call answer _) _ (λ w. refl) (λ v w. refl))
                (λ base.
                  read_first P (gas_limit_of secp wallet config nonce now answer amount)
                    (send_deposit secp wallet config nonce now answer amount tx_nonce priority base)
                    (and_then-Quiet (and_then (call answer _) _) _
                      (and_then-Quiet (call answer _) _ (λ w. refl) (λ v w. refl)) (λ g w. refl))
                    (λ gas.
                      read_last P
                        (call answer (
                          eth_send_raw_transaction (
                            sign secp
                              (deposit_tx secp wallet config nonce now amount tx_nonce priority base
                                gas)
                              wallet.signing_key)))
                        (λ v. give (as_str v))
                        (λ w. inr (_, ((tx_nonce, priority, base, gas, refl), refl)))
                        (λ v w. refl)))))

  confirmed-Quiet :
      (h : List ℕ) (b : Bool) → Quiet (confirmed secp wallet config nonce now answer h b)
  confirmed-Quiet h true w = refl
  confirmed-Quiet h false w = refl

  -- A deposit of what a balance leaves over the reserve, which is something.
  abbrev pub IsRest : ℕ → List ℕ → Type 0
  IsRest balance raw = (gas_reserve < balance) × IsDepositOf (balance - gas_reserve) raw

  decided :
      (balance gw : ℕ)
      → OneAtMost (IsRest balance) (deposit_of secp wallet config nonce now answer balance gw)
  unfolding deposit_of
  decided balance gw w = elim (Bool-cases ((balance == 0) && (gw == 0))) [
    | inl p ↦ rw p (inl refl)
    | inr p ↦ elim (Bool-cases (balance == 0)) [
      | inl q ↦ rw (p, q) (inl refl)
      | inr q ↦ elim (Bool-cases (balance - gas_reserve == 0)) [
        | inl r ↦ rw (p, q, r) (inl refl)
        | inr r ↦
            rw (p, q, r)
              (From-map (IsDepositOf (balance - gas_reserve)) (IsRest balance)
                (λ raw d. (ground arith, d)) w _
                (read_last (IsDepositOf (balance - gas_reserve))
                  (deposit_with_authorization secp wallet config nonce now answer
                    (balance - gas_reserve))
                  _ (deposit-OneAtMost (balance - gas_reserve))
                  (λ h.
                    and_then-Quiet (wait_for_receipt answer h 30) _ (receipt-Quiet answer h 30)
                      (confirmed-Quiet h))
                  w))
      ]
    ]
  ]

  module _ (hex_decode : List ℕ → Option (List ℕ)) where
    bytes-Quiet :
        (to input : List ℕ)
        → Quiet (
            and_then
              (read_bytes answer hex_decode to input)
              (λ bytes. give (some (parse_u256_result bytes))))
    unfolding transactions_sent
    bytes-Quiet to input =
        and_then-Quiet (read_bytes answer hex_decode to input) _
          (and_then-Quiet (call answer (eth_call to input)) _ (λ w. refl) (λ v w. refl))
          (λ bytes w. refl)

    abbrev pub balance_told : Option ℕ
    balance_told =
        (query_balance hex_decode answer config.usdc_contract wallet.ethereum_address []).0

    abbrev pub SendsRest : Option ℕ → List RpcCall → Type 0
    SendsRest told requests =
        (transactions_sent requests ≡ [])
        ⊎ ((raw : List ℕ) × (balance : ℕ) × ((told ≡ some balance)
              × (IsRest balance raw × (transactions_sent requests ≡ raw ∷ []))))

    after_balance :
        (f : ℕ → Rpc (List ℕ))
        → ((balance : ℕ) → OneAtMost (IsRest balance) (f balance))
        → (r : Option ℕ × List RpcCall) → transactions_sent r.1 ≡ []
        → SendsRest r.0 (continue f r).1
    after_balance f once (none, w) e = inl e
    after_balance f once (some balance, w) e = elim (once balance w) [
      | inl p ↦ inl (p ∙ e)
      | inr (raw, (d, p)) ↦ inr (raw, balance, (refl, (d, p ∙ ap (λ xs. raw ∷ xs) e)))
    ]

    -- Whatever the node answers, a deposit sends no transaction, or exactly one: it is signed by the
    -- wallet's key and deposits what the balance that the first call tells leaves over the reserve for
    -- gas, which is more than nothing.
    pub auto_deposit-SendsOnce :
        SendsRest balance_told (auto_deposit secp wallet config nonce now answer hex_decode []).1
    unfolding auto_deposit transactions_sent
    auto_deposit-SendsOnce =
        after_balance _
          (λ balance.
            read_first (IsRest balance)
              (query_gateway_balance hex_decode answer config.gateway_wallet config.usdc_contract
                wallet.ethereum_address)
              _ (bytes-Quiet _ _) (decided balance))
          (query_balance hex_decode answer config.usdc_contract wallet.ethereum_address [])
          (bytes-Quiet _ _ [])
