-- ===== src/Device/Payments/Credit.antt =====
-- When a submitted payment is credited.
use xelt_vpn.Prelude.{
  ℕ, ◌≢◌, ◌≤◌, ◌≡◌, refl, ap, inl, inr, ◌⊎◌, true, false, List, ◌∷◌, Option, none, some, ltb,
  bytes_eq, bytes_eq→eq, bytes_eq_self, ltb→lt, ltb→ge, subst, Bool-cases, arith,
}
use xelt_vpn.Noise.Crypto.{Crypto}
use xelt_vpn.Noise.Handshake.{Env}
use xelt_vpn.Payment.Config.{gateway_domain}
use xelt_vpn.Payment.Eip3009.{verify_authorization}
use xelt_vpn.Payment.Protocol
use xelt_vpn.Payment.Protocol.Submit.{PaymentSubmit}
use xelt_vpn.Payment.Quota.{BandwidthQuota, credit, was_used, check_and_record_nonce}
use xelt_vpn.Payment.Signal.{build_signal_packet, payment_gateway_ip}
use xelt_vpn.Payment.Wallet.{Secp, PaymentWallet}
use xelt_vpn.Device.Peer.{Peer, first_ipv4}
use xelt_vpn.Device.Payments.{
  PaymentSide, signed_of, is_signed, settled_or_no_client, send_packet, send_signal, signal_to,
  submit_by, submit_checked, handle_payment_submit,
}

-- Sending a signal leaves the quota.
pub quota-send_packet :
    (crypto : Crypto) (p : Peer) (env : Env) (packet : Option (List ℕ))
    → (send_packet crypto p env packet).1.quota ≡ p.quota
quota-send_packet crypto p env none = refl
quota-send_packet crypto p env (some packet) = refl

pub quota-send_signal :
    (crypto : Crypto) (p : Peer) (env : Env) (src dst tlv : List ℕ)
    → (send_signal crypto p env src dst tlv).1.quota ≡ p.quota
unfolding send_signal
quota-send_signal crypto p env src dst tlv =
    quota-send_packet crypto p env (build_signal_packet src dst tlv)

pub quota-signal_to :
    (crypto : Crypto) (p : Peer) (env : Env) (tlv : List ℕ) (ip : Option (List ℕ))
    → (signal_to crypto p env tlv ip).1.quota ≡ p.quota
quota-signal_to crypto p env tlv none = refl
quota-signal_to crypto p env tlv (some ip) =
    quota-send_signal crypto p env payment_gateway_ip ip tlv

module _ (secp : Secp) (hex_encode : List ℕ → List ℕ) (d : PaymentSide) (q : BandwidthQuota) where
  -- What makes a message of a client good for a credit.
  pub record Due (wallet : PaymentWallet) (m : PaymentSubmit) : Type 0 where
    pub to_server : m.to ≡ wallet.ethereum_address
    pub enough : d.payment_config.amount_per_quota ≤ m.value
    pub fresh : was_used q.used_nonces m.nonce ≡ false
    pub signed :
        verify_authorization secp (gateway_domain d.payment_config) (signed_of m) ≡ some m.from
    pub settled : settled_or_no_client hex_encode d m wallet.ethereum_address ≡ true

  -- The quota with the nonce of a message recorded.
  abbrev pub noted : PaymentSubmit → BandwidthQuota
  noted m = record q { used_nonces = m.nonce ∷ q.used_nonces }

  -- The quota is credited for a message that is due one, and otherwise keeps all but its nonces.
  abbrev pub Credits : PaymentWallet → PaymentSubmit → Option BandwidthQuota → Type 0
  Credits wallet m left =
      (Due wallet m × (left ≡ some (credit (noted m) d.payment_config.quota_bytes)))
      ⊎ ((¬ Due wallet m)
          × ((left ≡ some q)
              ⊎ ((was_used q.used_nonces m.nonce ≡ false) × (left ≡ some (noted m)))))

  is_signed→signed :
      (m : PaymentSubmit) (recovered : Option (List ℕ))
      → (elim recovered [ none ↦ false | some addr ↦ bytes_eq addr m.from ]) ≡ true
      → recovered ≡ some m.from
  is_signed→signed m none h = cc
  is_signed→signed m (some addr) h = ap some (bytes_eq→eq addr m.from h)

  not_signed :
      (m : PaymentSubmit) (recovered : Option (List ℕ))
      → (elim recovered [ none ↦ false | some addr ↦ bytes_eq addr m.from ]) ≡ false
      → recovered ≢ some m.from
  not_signed m none h = λ e. cc
  not_signed m (some addr) h = λ e. ground (arith, bytes_eq_self m.from)

  abbrev recovered : PaymentSubmit → Option (List ℕ)
  recovered m = verify_authorization secp (gateway_domain d.payment_config) (signed_of m)

  is_signed-true :
      (m : PaymentSubmit) → is_signed secp d.payment_config m ≡ true → recovered m ≡ some m.from
  unfolding is_signed
  is_signed-true m h = is_signed→signed m (recovered m) h

  is_signed-false :
      (m : PaymentSubmit) → is_signed secp d.payment_config m ≡ false → recovered m ≢ some m.from
  unfolding is_signed
  is_signed-false m h = not_signed m (recovered m) h

  module _ (crypto : Crypto) (p : Peer) (env : Env) (e : p.quota ≡ some q) where
    pub checked-Credits :
        (wallet : PaymentWallet) (m : PaymentSubmit)
        → Credits wallet m (submit_checked crypto secp hex_encode d wallet p env m).1.quota
    unfolding submit_checked check_and_record_nonce
    checked-Credits wallet m = rw e (elim (Bool-cases (bytes_eq m.to wallet.ethereum_address)) [
      | inr a ↦ rw a (inr (λ x. ground (arith, x.to_server, bytes_eq_self m.to), inl refl))
      | inl a ↦ rw a (elim (Bool-cases (ltb m.value d.payment_config.amount_per_quota)) [
        | inl b ↦ rw b (inr (λ x. omega (arith, ltb→lt _ _ b, x.enough), inl refl))
        | inr b ↦ rw b (elim (Bool-cases (was_used q.used_nonces m.nonce)) [
          | inl c ↦ rw c (inr (λ x. cc (x.fresh, c), inl refl))
          | inr c ↦ rw c (elim (Bool-cases (is_signed secp d.payment_config m)) [
            | inr s ↦ rw s (inr (λ x. is_signed-false m s x.signed, inr (refl, refl)))
            | inl s ↦
                rw s
                  (elim (Bool-cases (settled_or_no_client hex_encode d m wallet.ethereum_address)) [
                    | inr t ↦ rw t (inr (λ x. cc (x.settled, t), inr (refl, refl)))
                    | inl t ↦ rw t (
                        inl (
                          record {
                            to_server = bytes_eq→eq m.to wallet.ethereum_address a;
                            enough = ltb→ge m.value d.payment_config.amount_per_quota b;
                            fresh = c;
                            signed = is_signed-true m s;
                            settled = t;
                          },
                          quota-signal_to crypto _ env _ (first_ipv4 p.allowed_ips),
                        ))
                  ])
          ])
        ])
      ])
    ])

  -- A payload that pays: the device has a wallet, and the payload is a message that is due a credit.
  pub record Pays (payload : List ℕ) : Type 0 where
    pub wallet : PaymentWallet
    pub submit : PaymentSubmit
    pub has_wallet : d.payment_wallet ≡ some wallet
    pub decoded : Protocol.Submit.decode payload ≡ some submit
    pub due : Due wallet submit

  -- What is left of the quota after a payload.
  abbrev pub AfterPayload : List ℕ → Option BandwidthQuota → Type 0
  AfterPayload payload left =
      ((pays : Pays payload) × (left
          ≡ some (credit (noted pays.submit) d.payment_config.quota_bytes)))
      ⊎ ((¬ Pays payload)
          × ((left ≡ some q)
              ⊎ ((m : PaymentSubmit) × ((was_used q.used_nonces m.nonce ≡ false)
                    × (left ≡ some (noted m))))))

  lift_Credits :
      (payload : List ℕ) (wallet : PaymentWallet) (m : PaymentSubmit) (left : Option BandwidthQuota)
      → d.payment_wallet ≡ some wallet
      → Protocol.Submit.decode payload ≡ some m
      → Credits wallet m left
      → AfterPayload payload left
  lift_Credits payload wallet m left ew em (inl (x, e)) =
      inl (record { wallet = wallet; submit = m; has_wallet = ew; decoded = em; due = x }, e)
  lift_Credits payload wallet m left ew em (inr (undue, kept)) = inr (
    λ pays.
        let w : pays.wallet ≡ wallet = cc (pays.has_wallet, ew) in
        let s : pays.submit ≡ m = cc (pays.decoded, em) in
        undue (subst (λ v. Due v m) w (subst (λ n. Due pays.wallet n) s pays.due)),
    elim kept [ inl e ↦ inl e | inr e ↦ inr (m, e) ],
  )

  module _ (crypto : Crypto) (p : Peer) (env : Env) (e : p.quota ≡ some q) (payload : List ℕ) where
    submit_by-AfterPayload :
        (wallet : Option PaymentWallet) (m : Option PaymentSubmit)
        → d.payment_wallet ≡ wallet
        → Protocol.Submit.decode payload ≡ m
        → AfterPayload payload (submit_by crypto secp hex_encode d p env wallet m).1.quota
    submit_by-AfterPayload none m ew em = inr (λ x. cc (x.has_wallet, ew), inl e)
    submit_by-AfterPayload (some w) none ew em = inr (λ x. cc (x.decoded, em), inl e)
    submit_by-AfterPayload (some w) (some m) ew em =
        lift_Credits payload w m _ ew em (checked-Credits crypto p env e w m)

    -- A payload of a peer with a quota is credited exactly if the device has a wallet and the payload
    -- decodes to a message to the wallet's address, of at least the price, with a fresh nonce, signed
    -- by its sender and, where the device has a client of the settlement service, settled; any other
    -- leaves the quota as it is but for a new nonce it may record.
    pub handle_submit-AfterPayload :
        AfterPayload payload (handle_payment_submit crypto secp hex_encode d p env payload).1.quota
    unfolding handle_payment_submit
    handle_submit-AfterPayload =
        submit_by-AfterPayload d.payment_wallet (Protocol.Submit.decode payload) refl refl
