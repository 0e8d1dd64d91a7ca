-- ===== src/Device/Gate/Paid/Run.antt =====
-- The balance of a peer's quota over a run of events.
use xelt_vpn.Prelude.{
  ℕ, suc, ◌+◌, ◌*◌, ◌<◌, ◌≡◌, true, List, [], ◌∷◌, ◌++◌, refl, sym, ap, ◌∙◌, some, length,
  length-append, arith,
}
use mathlib.Core.List.{append_assoc}
use native.Mathlib.Nat.{mul-suc, mul-le-mul_left}
use xelt_vpn.Noise.Crypto.{Crypto}
use xelt_vpn.Payment.Quota.{BandwidthQuota, u64_mod}
use xelt_vpn.Payment.Quota.Ledger.{account}
use xelt_vpn.Payment.Wallet.{Secp}
use xelt_vpn.Device.Peer.{Peer}
use xelt_vpn.Device.Payments.{PaymentSide, Moment}
use xelt_vpn.Device.Gate.Paid.{Event, event_step, run_events, forwarded, Balanced, MovesInAll}
use xelt_vpn.Device.Gate.Paid.Step.{Since, event-Since, event-Moves}

trans :
    (price a b c : ℕ) (q : BandwidthQuota) {q' q'' : BandwidthQuota} {n m : ℕ}
    → a + b ≡ c
    → Balanced price a q n q'
    → Balanced price b q' m q''
    → Balanced price c q (n + m) q''
trans price a b c q s x y =
    let e : price * (x.paid + y.paid) ≡ price * x.paid + price * y.paid = grind arith in
    record {
      paid = x.paid + y.paid;
      at_most = omega (arith, x.at_most, y.at_most);
      counted = omega (arith, x.counted, y.counted);
      bytes = omega (arith, x.bytes, y.bytes, e);
      kept = omega (arith, x.kept, y.kept, e);
      recorded = y.recorded ++ x.recorded;
      used =
          y.used
          ∙ ap (λ ns. y.recorded ++ ns) x.used
          ∙ sym (append_assoc y.recorded x.recorded q.used_nonces);
      nonces = omega (arith, x.nonces, y.nonces, length-append y.recorded x.recorded);
      differ = λ a. y.differ (x.differ a);
    }

module _ (crypto : Crypto) (secp : Secp) (hex_encode : List ℕ → List ℕ) (d : PaymentSide)
    (server : d.payment_config.is_server ≡ true) where
  forwarded-MovesInAll :
      (p : Peer) (events : List (Moment × Event))
      → MovesInAll crypto secp hex_encode d p events (forwarded crypto secp hex_encode d p events)
  unfolding MovesInAll forwarded
  forwarded-MovesInAll p [] = refl
  forwarded-MovesInAll p ((at, e) ∷ es) = (
    _,
    _,
    refl,
    event-Moves crypto secp hex_encode d p at e,
    forwarded-MovesInAll (event_step crypto secp hex_encode d p at e).1 es,
  )

  forwarded-Since :
      (p : Peer) (q : BandwidthQuota) (events : List (Moment × Event))
      → p.quota ≡ some q
      → account q + d.payment_config.quota_bytes * length events < u64_mod
      → q.payment_count + length events < u64_mod
      → Since d.payment_config.quota_bytes
          (length events)
          q
          (forwarded crypto secp hex_encode d p events)
          (run_events crypto secp hex_encode d p events)
  unfolding run_events forwarded
  forwarded-Since p q [] has h k = record {
    quota = q;
    has_quota = has;
    balanced = record {
      paid = 0;
      at_most = omega arith;
      counted = omega arith;
      bytes = omega arith;
      kept = omega arith;
      recorded = [];
      used = refl;
      nonces = omega arith;
      differ = λ a. a;
    };
  }
  forwarded-Since p q ((at, e) ∷ es) has h k =
      let price = d.payment_config.quota_bytes in
      let first =
        event-Since crypto secp hex_encode d p at q has
          (record {
            account_fits = omega (arith, mul-suc price (length es));
            count_fits = omega arith;
          })
          server e in
      let rest =
        forwarded-Since (event_step crypto secp hex_encode d p at e).1 first.quota es
          first.has_quota
          (omega (
            arith,
            first.balanced.kept,
            mul-suc price (length es),
            mul-le-mul_left price first.balanced.at_most,
          ))
          (omega (arith, first.balanced.counted, first.balanced.at_most)) in
      record {
        quota = rest.quota;
        has_quota = rest.has_quota;
        balanced =
            trans price 1 (length es) (suc (length es)) q (omega arith) first.balanced
              rest.balanced;
      }

  -- On a server, over any run of events of a peer with a quota, a number of bytes is moved: those that
  -- are written to the interface, and those of each packet for the peer that goes into the tunnel; with
  -- any other packet for the peer nothing is done, or the peer is asked for payment. With what remains,
  -- they are at most what remained at first and one price for each counted payment. At least as many
  -- nonces are recorded as payments counted, and if none was recorded twice before, none is after;
  -- there are at most as many payments as events. The counters must have room for a payment at each
  -- event.
  pub run-Since :
      (p : Peer) (q : BandwidthQuota) (events : List (Moment × Event))
      → p.quota ≡ some q
      → account q + d.payment_config.quota_bytes * length events < u64_mod
      → q.payment_count + length events < u64_mod
      → (n : ℕ) × (MovesInAll crypto secp hex_encode d p events n
          × Since d.payment_config.quota_bytes
              (length events)
              q
              n
              (run_events crypto secp hex_encode d p events))
  run-Since p q events has h k = (
    forwarded crypto secp hex_encode d p events,
    (forwarded-MovesInAll p events, forwarded-Since p q events has h k),
  )
