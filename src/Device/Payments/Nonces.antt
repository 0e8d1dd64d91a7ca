-- ===== src/Device/Payments/Nonces.antt =====
-- What a nonce pays, over the calls that follow.
use xelt_vpn.Prelude.{ℕ, ◌≡◌, ◌≢◌, refl, true, List, bytes_eq_self}
use xelt_vpn.Payment.Quota.{BandwidthQuota, credit, was_used, Call, run}
use xelt_vpn.Payment.Quota.Nonces.{was_used-run}
use xelt_vpn.Payment.Wallet.{Secp}
use xelt_vpn.Device.Payments.{PaymentSide}
use xelt_vpn.Device.Payments.Credit.{Pays, noted}

module _ (secp : Secp) (hex_encode : List ℕ → List ℕ) (d : PaymentSide) where
  -- The quota once a payload is credited, and after the calls that follow.
  abbrev paid_then :
      (q : BandwidthQuota) {payload : List ℕ}
      → Pays secp hex_encode d q payload
      → List Call
      → BandwidthQuota
  paid_then q paid calls =
      run (credit (noted secp hex_encode d q paid.submit) d.payment_config.quota_bytes) calls

  -- After a payload has been credited, and whatever calls on the quota follow, no payload with the
  -- same nonce is credited.
  spent_once :
      (q : BandwidthQuota) {first : List ℕ} (second : List ℕ) (calls : List Call)
      → (paid : Pays secp hex_encode d q first)
      → (again : Pays secp hex_encode d (paid_then q paid calls) second)
      → again.submit.nonce ≢ paid.submit.nonce
  unfolding credit was_used
  spent_once q second calls paid again = λ e.
      let used : was_used (paid_then q paid calls).used_nonces paid.submit.nonce ≡ true =
        was_used-run _ calls paid.submit.nonce (rw (bytes_eq_self paid.submit.nonce) refl) in
      cc (again.due.fresh, e, used)
