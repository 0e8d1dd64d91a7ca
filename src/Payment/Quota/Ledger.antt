-- ===== src/Payment/Quota/Ledger.antt =====
-- The account that a quota keeps: nothing is lost, and nobody gets more than was paid for.
use xelt_vpn.Prelude.{
  ℕ, ◌+◌, ◌-◌, ◌≤◌, ◌<◌, ◌≡◌, ◌↔◌, ◌⊎◌, true, List, [], ◌∷◌, if◌then◌else◌, arith,
}
use xelt_vpn.Payment.Quota.{
  BandwidthQuota, u64_mod, consume, credit, check_and_record_nonce, Call, consumes, credits,
  records_nonce, step, run,
}

-- Bytes that the calls of a run let through, and bytes that they credit.
unfoldable pub allowed : BandwidthQuota → List Call → ℕ
allowed q [] = 0
allowed q (consumes n ∷ cs) = (if (consume q n).0 then n else 0) + allowed (consume q n).1 cs
allowed q (credits n ∷ cs) = allowed (credit q n) cs
allowed q (records_nonce n ∷ cs) = allowed (check_and_record_nonce q n).1 cs

unfoldable pub credited : List Call → ℕ
credited [] = 0
credited (consumes n ∷ cs) = credited cs
credited (credits n ∷ cs) = n + credited cs
credited (records_nonce n ∷ cs) = credited cs

-- What the quota was ever given.
abbrev pub account : BandwidthQuota → ℕ
account q = q.remaining_bytes + q.total_consumed

-- `consume` moves bytes from what remains to what is consumed. It is allowed exactly where the bytes
-- fit what remains and something remains; it blocks, and sets what remains to 0, exactly where something remains and
-- they do not fit; with nothing left it changes nothing.
consume_branches :
    (q : BandwidthQuota) (n : ℕ)
    → account q < u64_mod
    → let (yes_n, q') = consume q n in
      (account q' ≡ account q)
      × ((yes_n ≡ true) ↔ ((0 < q.remaining_bytes) × (n ≤ q.remaining_bytes)))
      × (q'.remaining_bytes ≡ (if yes_n then q.remaining_bytes - n else 0))
      × ((q'.blocked ≡ true)
          ↔ ((q.blocked ≡ true) ⊎ ((0 < q.remaining_bytes) × (q.remaining_bytes < n))))
      × (q'.payment_count ≡ q.payment_count)
unfolding consume
consume_branches q n h = ground arith

consume-account :
    (q : BandwidthQuota) (n : ℕ)
    → account q < u64_mod
    → (account (consume q n).1 ≡ account q)
      × ((if (consume q n).0 then n else 0) + (consume q n).1.remaining_bytes ≤ q.remaining_bytes)
unfolding consume
consume-account q n h = ground arith

credit-account :
    (q : BandwidthQuota) (n : ℕ)
    → account q + n < u64_mod
    → (account (credit q n) ≡ account q + n)
      × ((credit q n).remaining_bytes ≡ q.remaining_bytes + n)
unfolding credit
credit-account q n h = ground arith

nonce-account :
    (q : BandwidthQuota) (n : List ℕ)
    → (account (check_and_record_nonce q n).1 ≡ account q)
      × ((check_and_record_nonce q n).1.remaining_bytes ≡ q.remaining_bytes)
unfolding check_and_record_nonce
nonce-account q n = ground arith

-- Over any run of calls whose account stays short of `2 ^ 64`, no byte is lost: what remains and what is
-- consumed make up the first account and the credits.
pub account-run :
    (q : BandwidthQuota) (cs : List Call)
    → account q + credited cs < u64_mod
    → account (run q cs) ≡ account q + credited cs
unfolding run step credited
account-run q [] h = omega arith
account-run q (consumes n ∷ cs) h =
    let e = (consume-account q n (omega arith)).0 in
    omega (arith, e, account-run (consume q n).1 cs (omega (arith, e)))
account-run q (credits n ∷ cs) h =
    let e = (credit-account q n (omega arith)).0 in
    omega (arith, e, account-run (credit q n) cs (omega (arith, e)))
account-run q (records_nonce n ∷ cs) h =
    let e = (nonce-account q n).0 in
    omega (arith, e, account-run (check_and_record_nonce q n).1 cs (omega (arith, e)))

-- Over any such run, the bytes let through are at most what remained at first and what was credited.
allowed-le-paid :
    (q : BandwidthQuota) (cs : List Call)
    → account q + credited cs < u64_mod
    → allowed q cs + (run q cs).remaining_bytes ≤ q.remaining_bytes + credited cs
unfolding run step credited allowed
allowed-le-paid q [] h = omega arith
allowed-le-paid q (consumes n ∷ cs) h =
    let e = consume-account q n (omega arith) in
    omega (arith, e, allowed-le-paid (consume q n).1 cs (omega (arith, e)))
allowed-le-paid q (credits n ∷ cs) h =
    let e = credit-account q n (omega arith) in
    omega (arith, e, allowed-le-paid (credit q n) cs (omega (arith, e)))
allowed-le-paid q (records_nonce n ∷ cs) h =
    let e = nonce-account q n in
    omega (arith, e, allowed-le-paid (check_and_record_nonce q n).1 cs (omega (arith, e)))
