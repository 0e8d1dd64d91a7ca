-- ===== src/Payment/Quota/Nonces.antt =====
-- Each nonce is good for one payment.
use xelt_vpn.Prelude.{ℕ, ◌≡◌, true, false, List, [], ◌∷◌, bytes_eq_self, arith}
use xelt_vpn.Payment.Quota.{
  BandwidthQuota, consume, credit, was_used, check_and_record_nonce, Call, consumes, credits,
  records_nonce, step, run,
}

-- Each call keeps the nonces that were used.
was_used-step :
    (q : BandwidthQuota) (c : Call) (nonce : List ℕ)
    → was_used q.used_nonces nonce ≡ true
    → was_used (step q c).used_nonces nonce ≡ true
unfolding step consume credit check_and_record_nonce was_used
was_used-step q (consumes n) nonce h = ground arith
was_used-step q (credits n) nonce h = h
was_used-step q (records_nonce n) nonce h = ground arith

pub was_used-run :
    (q : BandwidthQuota) (cs : List Call) (nonce : List ℕ)
    → was_used q.used_nonces nonce ≡ true
    → was_used (run q cs).used_nonces nonce ≡ true
unfolding run
was_used-run q [] nonce h = h
was_used-run q (c ∷ cs) nonce h = was_used-run (step q c) cs nonce (was_used-step q c nonce h)

recorded :
    (q : BandwidthQuota) (nonce : List ℕ)
    → was_used (check_and_record_nonce q nonce).1.used_nonces nonce ≡ true
unfolding check_and_record_nonce was_used
recorded q nonce = ground (arith, bytes_eq_self nonce)

-- Once `check_and_record_nonce` has been asked about a nonce, it refuses that nonce after whatever
-- calls follow, and leaves the quota as it is.
nonce_once :
    (q : BandwidthQuota) (cs : List Call) (nonce : List ℕ)
    → let q' = run (check_and_record_nonce q nonce).1 cs in
      check_and_record_nonce q' nonce ≡ (false, q')
unfolding check_and_record_nonce
nonce_once q cs nonce =
    rw (was_used-run (check_and_record_nonce q nonce).1 cs nonce (recorded q nonce))
