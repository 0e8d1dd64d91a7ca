-- ===== src/Device/Gate/Paid/Step.antt =====
-- Each event keeps the balance of a peer's quota.
use xelt_vpn.Prelude.{
  ℕ, ◌+◌, ◌≤◌, ◌<◌, ◌≡◌, refl, ◌∙◌, subst, inl, inr, ◌⊎◌, sym, Bool, true, false, List, [], ◌∷◌,
  Option, none, some, if◌then◌else◌, length, bytes_eq, arith,
}
use xelt_vpn.Noise.Crypto.{Crypto}
use xelt_vpn.Payment.Quota.{BandwidthQuota, u64_mod, was_used, consume, credit}
use xelt_vpn.Payment.Quota.Ledger.{account}
use xelt_vpn.Payment.Signal.{
  is_payment_signal, extract_signal_payload, src_ipv4, dst_ipv4, payment_gateway_ip,
}
use xelt_vpn.Payment.Wallet.{Secp, PaymentWallet}
use xelt_vpn.Device.Peer.{Peer, SocketAddr, first_ipv4}
use xelt_vpn.Device.Payments.{
  PaymentSide, Moment, Out, required_by, send_payment_required, reply_from, client_reply,
  handle_payment_submit, handle_payment_signal_client,
}
use xelt_vpn.Device.Payments.Credit.{
  AfterPayload, handle_submit-AfterPayload, quota-send_signal, quota-signal_to,
}
use xelt_vpn.Device.Gate.{
  Charge, passes, refused, exhausted, charge, charge_by, charge_peer, with_quota, deliver4,
  deliver6, signal_from, signal_by, handle_signal, inbound_v4, inbound_v6, told_at, outbound_by,
  outbound,
}
use xelt_vpn.Device.Gate.Paid.{
  Event, arrives4, arrives6, leaves, written, handed, event_step, moved, Balanced, AllDiffer, Moves,
  Hands, Refuses,
}
use xelt_vpn.Device.Gate.Paid.Quiet.{required-Quiet, signal-Quiet}

-- There is room for one more payment.
pub record Roomy (price : ℕ) (q : BandwidthQuota) : Type 0 where
  pub account_fits : account q + price < u64_mod
  pub count_fits : q.payment_count + 1 < u64_mod

module _ (price : ℕ) (q : BandwidthQuota) (room : Roomy price q) where
  same : Balanced price 1 q 0 q
  same = record {
    paid = 0;
    at_most = omega arith;
    counted = omega arith;
    bytes = omega arith;
    kept = omega arith;
    recorded = [];
    used = refl;
    nonces = omega arith;
    differ = λ a. a;
  }

  noted-Balanced :
      (n : List ℕ)
      → was_used q.used_nonces n ≡ false
      → Balanced price 1 q 0 (record q { used_nonces = n ∷ q.used_nonces })
  unfolding AllDiffer
  noted-Balanced n fresh = record {
    paid = 0;
    at_most = omega arith;
    counted = omega arith;
    bytes = omega arith;
    kept = omega arith;
    recorded = n ∷ [];
    used = refl;
    nonces = omega arith;
    differ = λ a. (fresh, a);
  }

  credited-Balanced :
      (n : List ℕ)
      → was_used q.used_nonces n ≡ false
      → Balanced price 1 q 0 (credit (record q { used_nonces = n ∷ q.used_nonces }) price)
  unfolding credit AllDiffer
  credited-Balanced n fresh = record {
    paid = 1;
    at_most = omega arith;
    counted = omega (arith, room.count_fits);
    bytes = omega (arith, room.account_fits);
    kept = omega (arith, room.account_fits);
    recorded = n ∷ [];
    used = refl;
    nonces = omega arith;
    differ = λ a. (fresh, a);
  }

  -- What a charge leaves is in balance with what it lets through.
  abbrev Settles : ℕ → Charge → Type 0
  Settles n (passes none) = ⊥
  Settles n (passes (some q')) = Balanced price 1 q n q'
  Settles n refused = Unit
  Settles n (exhausted q') = Balanced price 1 q 0 q'

  consumed :
      (n : ℕ)
      → let (ok, q') = consume q n in
        ((if ok then n else 0) + q'.remaining_bytes ≤ q.remaining_bytes)
        × (account q' ≤ account q)
        × (q'.payment_count ≡ q.payment_count)
        × (q'.used_nonces ≡ q.used_nonces)
  unfolding consume
  consumed n = ground (arith, room.account_fits)

  charge_by-Settles :
      (n : ℕ) (r : Bool × BandwidthQuota)
      → ((if r.0 then n else 0) + r.1.remaining_bytes ≤ q.remaining_bytes)
      → account r.1 ≤ account q
      → r.1.payment_count ≡ q.payment_count
      → r.1.used_nonces ≡ q.used_nonces
      → Settles n (charge_by r)
  charge_by-Settles n (true, q') b k c l = record {
    paid = 0;
    at_most = omega arith;
    counted = omega arith;
    bytes = omega arith;
    kept = omega arith;
    recorded = [];
    used = l;
    nonces = omega arith;
    differ = λ a. subst AllDiffer (sym l) a;
  }
  charge_by-Settles n (false, q') b k c l = record {
    paid = 0;
    at_most = omega arith;
    counted = omega arith;
    bytes = omega arith;
    kept = omega arith;
    recorded = [];
    used = l;
    nonces = omega arith;
    differ = λ a. subst AllDiffer (sym l) a;
  }

  unless_blocked :
      (n : ℕ) (b : Bool) (c : Charge) → Settles n c → Settles n (if b then refused else c)
  unless_blocked n true c h = tt
  unless_blocked n false c h = h

  charge-Settles : (n : ℕ) → Settles n (charge true (some q) n)
  unfolding charge
  charge-Settles n =
      let (bytes, kept, counted, nonces) = consumed n in
      unless_blocked n q.blocked (charge_by (consume q n))
        (charge_by-Settles n (consume q n) bytes kept counted nonces)

-- A peer's quota is in balance with one before that has moved `n` bytes since.
pub record Since (price most : ℕ) (q : BandwidthQuota) (n : ℕ) (p : Peer) : Type 0 where
  pub quota : BandwidthQuota
  pub has_quota : p.quota ≡ some quota
  pub balanced : Balanced price most q n quota

quota-required :
    (crypto : Crypto) (d : PaymentSide) (p : Peer) (at : Moment)
    → (send_payment_required crypto d p at).1.quota ≡ p.quota
unfolding send_payment_required
quota-required crypto d p at = by_wallet d.payment_wallet
  where
    by_wallet : (w : Option PaymentWallet) → (required_by crypto d p at w).1.quota ≡ p.quota
    by_wallet none = refl
    by_wallet (some w) = quota-signal_to crypto p at.env _ (first_ipv4 p.allowed_ips)

quota-told_at :
    (crypto : Crypto) (secp : Secp) (hex : List ℕ → List ℕ) (d : PaymentSide) (p : Peer)
    (at : Moment) (addr : Option SocketAddr)
    → (told_at crypto secp hex d p at addr).1.quota ≡ p.quota
quota-told_at crypto secp hex d p at none = refl
quota-told_at crypto secp hex d p at (some addr) = quota-required crypto d p at

quota-client :
    (crypto : Crypto) (secp : Secp) (d : PaymentSide) (p : Peer) (at : Moment) (payload : List ℕ)
    → (handle_payment_signal_client crypto secp d p at payload).1.quota ≡ p.quota
unfolding handle_payment_signal_client
quota-client crypto secp d p at payload =
    by_parts (client_reply secp d at.unix_secs payload) (first_ipv4 p.allowed_ips)
  where
    by_parts :
        (tlv ip : Option (List ℕ)) → (reply_from crypto secp p at.env tlv ip).1.quota ≡ p.quota
    by_parts none ip = refl
    by_parts (some tlv) none = refl
    by_parts (some tlv) (some ip) = quota-send_signal crypto p at.env ip payment_gateway_ip tlv

module _ (crypto : Crypto) (secp : Secp) (hex_encode : List ℕ → List ℕ) (d : PaymentSide) (p : Peer)
    (at : Moment) (q : BandwidthQuota) (has : p.quota ≡ some q)
    (room : Roomy d.payment_config.quota_bytes q) where
  abbrev price : ℕ
  price = d.payment_config.quota_bytes

  unmoved : Since price 1 q 0 p
  unmoved = record { quota = q; has_quota = has; balanced = same price q room }

  after_payload :
      (payload : List ℕ) (p' : Peer)
      → AfterPayload secp hex_encode d q payload p'.quota
      → Since price 1 q 0 p'
  after_payload payload p' (inl (pays, e)) = record {
    quota = _;
    has_quota = e;
    balanced = credited-Balanced price q room pays.submit.nonce pays.due.fresh;
  }
  after_payload payload p' (inr (none_due, inl e)) = record {
    quota = q;
    has_quota = e;
    balanced = same price q room;
  }
  after_payload payload p' (inr (none_due, inr (m, (fresh, e)))) = record {
    quota = _;
    has_quota = e;
    balanced = noted-Balanced price q room m.nonce fresh;
  }

  if-Since :
      (b : Bool) (x y : List Out × Peer)
      → Since price 1 q 0 x.1
      → Since price 1 q 0 y.1
      → Since price 1 q 0 (if b then x else y).1
  if-Since true x y h k = h
  if-Since false x y h k = k

  from-Since :
      (payload : List ℕ) (src : Option (List ℕ))
      → Since price 1 q 0 (signal_from crypto secp hex_encode d p at payload src).1
  from-Since payload none = unmoved
  from-Since payload (some from) =
      if-Since (bytes_eq from payment_gateway_ip)
        (handle_payment_signal_client crypto secp d p at payload) ([], p)
        (record {
          quota = q;
          has_quota = quota-client crypto secp d p at payload ∙ has;
          balanced = same price q room;
        })
        unmoved

  signal_by-Since :
      (payload dst src : Option (List ℕ))
      → Since price 1 q 0 (signal_by crypto secp hex_encode d p at payload dst src).1
  signal_by-Since none dst src = unmoved
  signal_by-Since (some payload) none src = unmoved
  signal_by-Since (some payload) (some dst) src =
      if-Since (bytes_eq dst payment_gateway_ip)
        (handle_payment_submit crypto secp hex_encode d p at.env payload) _
        (after_payload payload _
          (handle_submit-AfterPayload secp hex_encode d q crypto p at.env has payload))
        (from-Since payload src)

  signal-Since :
      (packet : List ℕ) → Since price 1 q 0 (handle_signal crypto secp hex_encode d p at packet).1
  unfolding handle_signal
  signal-Since packet =
      signal_by-Since (extract_signal_payload packet) (dst_ipv4 packet) (src_ipv4 packet)

  -- A charge of the peer, and what it leaves.
  deliver4-Since :
      (packet : List ℕ) (c : Charge)
      → Settles price q room (length packet) c
      → let r = (deliver4 crypto secp hex_encode d p at packet c).0 in
        Since price 1 q (written r.0) r.1
  deliver4-Since packet (passes none) h = absurd h
  deliver4-Since packet (passes (some q')) h = record {
    quota = q';
    has_quota = refl;
    balanced = subst (λ n. Balanced price 1 q n q') (omega arith) h;
  }
  deliver4-Since packet refused h = unmoved
  deliver4-Since packet (exhausted q') h =
      rw ((required-Quiet crypto d (with_quota p (some q')) at).0) (record {
        quota = q';
        has_quota = quota-required crypto d (with_quota p (some q')) at;
        balanced = h;
      })

  deliver6-Since :
      (packet : List ℕ) (c : Charge)
      → Settles price q room (length packet) c
      → let r = (deliver6 crypto secp hex_encode p packet c).0 in Since price 1 q (written r.0) r.1
  deliver6-Since packet (passes none) h = absurd h
  deliver6-Since packet (passes (some q')) h = record {
    quota = q';
    has_quota = refl;
    balanced = subst (λ n. Balanced price 1 q n q') (omega arith) h;
  }
  deliver6-Since packet refused h = unmoved
  deliver6-Since packet (exhausted q') h = record { quota = q'; has_quota = refl; balanced = h }

  outbound-Since :
      (src : List ℕ) (dst_len : ℕ) (c : Charge)
      → Settles price q room (length src) c
      → Since price 1 q (handed src c) (outbound_by crypto secp hex_encode d p at src dst_len c).1
  outbound-Since src dst_len (passes none) h = absurd h
  outbound-Since src dst_len (passes (some q')) h = record {
    quota = q';
    has_quota = refl;
    balanced = h;
  }
  outbound-Since src dst_len refused h = unmoved
  outbound-Since src dst_len (exhausted q') h = record {
    quota = q';
    has_quota = quota-told_at crypto secp hex_encode d (with_quota p (some q')) at p.endpoint.addr;
    balanced = h;
  }

  inbound4-Since :
      (is_signal ok : Bool) (packet : List ℕ) (c : Charge)
      → Settles price q room (length packet) c
      → let r : List Out × Peer =
          (if is_signal
            then (handle_signal crypto secp hex_encode d p at packet, false)
            else if ok
            then deliver4 crypto secp hex_encode d p at packet c
            else (([], p), true)).0 in
        Since price 1 q (written r.0) r.1
  inbound4-Since true ok packet c h =
      rw ((signal-Quiet crypto secp hex_encode d p at packet).0) (signal-Since packet)
  inbound4-Since false true packet c h = deliver4-Since packet c h
  inbound4-Since false false packet c h = unmoved

  module _ (server : d.payment_config.is_server ≡ true) where
    charge_peer-Settles :
        (packet : List ℕ)
        → Settles price q room (length packet) (charge_peer crypto secp hex_encode d p packet)
    charge_peer-Settles packet = rw (server, has) (charge-Settles price q room (length packet))

    pub event-Since :
        (e : Event)
        → Since price 1 q
            (moved crypto secp hex_encode d p at e)
            (event_step crypto secp hex_encode d p at e).1
    unfolding event_step moved inbound_v4 inbound_v6 outbound
    event-Since (arrives4 ok packet) =
        inbound4-Since (is_payment_signal packet) ok packet _ (charge_peer-Settles packet)
    event-Since (arrives6 true packet) = deliver6-Since packet _ (charge_peer-Settles packet)
    event-Since (arrives6 false packet) = unmoved
    event-Since (leaves src dst_len) = outbound-Since src dst_len _ (charge_peer-Settles src)

module _ (crypto : Crypto) (secp : Secp) (hex_encode : List ℕ → List ℕ) (d : PaymentSide) where
  charged-Moves :
      (p : Peer) (at : Moment) (src : List ℕ) (dst_len : ℕ) (c : Charge)
      → let r = outbound_by crypto secp hex_encode d p at src dst_len c in
        (Hands crypto secp hex_encode d p at src dst_len r × (handed src c ≡ length src))
        ⊎ (Refuses crypto secp hex_encode d p at r × (handed src c ≡ 0))
  charged-Moves p at src dst_len (passes quota) = inl ((quota, refl), refl)
  charged-Moves p at src dst_len refused = inr (inl refl, refl)
  charged-Moves p at src dst_len (exhausted q) = inr (inr (q, refl), refl)

  -- What is counted of an event is what is seen of it.
  pub event-Moves :
      (p : Peer) (at : Moment) (e : Event)
      → Moves crypto secp hex_encode d p at e
          (moved crypto secp hex_encode d p at e)
          (event_step crypto secp hex_encode d p at e)
  unfolding moved event_step outbound
  event-Moves p at (arrives4 ok packet) = refl
  event-Moves p at (arrives6 ok packet) = refl
  event-Moves p at (leaves src dst_len) =
      charged-Moves p at src dst_len (charge_peer crypto secp hex_encode d p src)
