-- ===== src/Payment/Quota/Tests.antt =====
-- Runs of a quota, and the theorems on it at one of them.
use xelt_vpn.Prelude.{◌+◌, ◌<◌, ◌≡◌, refl, false, List, [], ◌∷◌, arith}
use xelt_vpn.Payment.Quota.{
  BandwidthQuota, consume, credit, was_used, check_and_record_nonce, Call, consumes, credits,
  records_nonce, run, u64_mod,
}
use xelt_vpn.Payment.Quota.Ledger.{account, allowed, credited, account-run}

abbrev quota : BandwidthQuota
quota = record {
  remaining_bytes = 100;
  blocked = false;
  total_consumed = 0;
  payment_count = 0;
  used_nonces = [];
}

-- The quota runs out, is paid for, and is used again.
abbrev calls : List Call
calls = consumes 60 ∷ consumes 60 ∷ records_nonce (1 ∷ []) ∷ credits 50 ∷ consumes 20 ∷ []

allowed_test : allowed quota calls ≡ 80
unfolding allowed consume credit check_and_record_nonce was_used
allowed_test = refl

calls_small : account quota + credited calls < u64_mod
unfolding credited
calls_small = omega arith

account-run_example : account (run quota calls) ≡ account quota + credited calls
account-run_example = account-run quota calls calls_small
