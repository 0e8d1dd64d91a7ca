-- ===== src/Payment/Quota.antt =====
-- `BandwidthQuota` of protocol/boringtun/src/payment/quota.rs. Each method returns its result and the
-- quota that it leaves; the atomics are plain fields, since every caller holds the peer's lock.
-- `fetch_add` wraps at `2 ^ 64`.
pub mod Ledger
pub mod Nonces
mod Tests
use xelt_vpn.Prelude.{
  ℕ, ◌+◌, ◌-◌, ◌*◌, ◌%◌, ◌^◌, Bool, true, false, ◌||◌, List, [], ◌∷◌, ltb, ◌==◌, if◌then◌else◌,
  bytes_eq,
}

abbrev pub u64_mod : ℕ
u64_mod = 2 ^ 64

abbrev pub default_quota_bytes : ℕ
default_quota_bytes = 10 * 1024 * 1024

pub record BandwidthQuota : Type 0 where
  pub remaining_bytes : ℕ
  pub blocked : Bool
  pub total_consumed : ℕ
  pub payment_count : ℕ
  pub used_nonces : List (List ℕ)

abbrev pub fetch_add : ℕ → ℕ → ℕ
fetch_add a b = (a + b) % u64_mod

abbrev pub fetch_sub : ℕ → ℕ → ℕ
fetch_sub a b = (a + u64_mod - b) % u64_mod

unfoldable pub new : ℕ → BandwidthQuota
new initial_bytes = record {
  remaining_bytes = initial_bytes;
  blocked = false;
  total_consumed = 0;
  payment_count = 0;
  used_nonces = [];
}

unfoldable pub consume : BandwidthQuota → ℕ → Bool × BandwidthQuota
consume q bytes =
    if q.remaining_bytes == 0
    then (false, q)
    else if ltb q.remaining_bytes bytes
    then (
      false,
      record q {
        remaining_bytes = 0;
        total_consumed = fetch_add q.total_consumed q.remaining_bytes;
        blocked = true;
      },
    )
    else (
      true,
      record q {
        remaining_bytes = fetch_sub q.remaining_bytes bytes;
        total_consumed = fetch_add q.total_consumed bytes;
      },
    )

unfoldable pub credit : BandwidthQuota → ℕ → BandwidthQuota
credit q bytes = record q {
  remaining_bytes = fetch_add q.remaining_bytes bytes;
  payment_count = fetch_add q.payment_count 1;
  blocked = false;
}

-- `HashSet::contains`.
unfoldable pub was_used : List (List ℕ) → List ℕ → Bool
was_used [] nonce = false
was_used (n ∷ ns) nonce = bytes_eq n nonce || was_used ns nonce

-- `HashSet::insert` says whether the value is new.
unfoldable pub check_and_record_nonce : BandwidthQuota → List ℕ → Bool × BandwidthQuota
check_and_record_nonce q nonce =
    if was_used q.used_nonces nonce
    then (false, q)
    else (true, record q { used_nonces = nonce ∷ q.used_nonces })

abbrev pub is_blocked : BandwidthQuota → Bool
is_blocked q = q.blocked

abbrev pub remaining : BandwidthQuota → ℕ
remaining q = q.remaining_bytes

abbrev pub total_consumed : BandwidthQuota → ℕ
total_consumed q = q.total_consumed

abbrev pub payment_count : BandwidthQuota → ℕ
payment_count q = q.payment_count

-- What a peer's quota is asked for, in the order of the calls.
pub data Call : Type 0 where
  consumes : ℕ → Call
  credits : ℕ → Call
  records_nonce : List ℕ → Call

unfoldable pub step : BandwidthQuota → Call → BandwidthQuota
step q (consumes n) = (consume q n).1
step q (credits n) = credit q n
step q (records_nonce n) = (check_and_record_nonce q n).1

unfoldable pub run : BandwidthQuota → List Call → BandwidthQuota
run q [] = q
run q (c ∷ cs) = run (step q c) cs
