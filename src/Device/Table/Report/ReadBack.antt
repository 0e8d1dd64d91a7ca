-- ===== src/Device/Table/Report/ReadBack.antt =====
-- What the registration service reads is what the device tells.
use mathlib.Core.Option.{bind-eq-some_iff}
use xelt_vpn.Prelude.{
  ℕ, ◌-◌, ◌/◌, ◌^◌, ◌<◌, ◌≤◌, ◌≡◌, refl, sym, ap, ◌∙◌, inl, inr, List, [], ◌∷◌, ◌++◌, Option, none,
  some, ◌==◌, if◌then◌else◌, map, codes, digits, Bool-cases, arith,
}
use xelt_vpn.Prelude.Maps.{put}
use xelt_vpn.Noise.Errors.{Result, ok, err, panic}
use xelt_vpn.Noise.Handshake.Timestamp.{nanos_per_sec}
use xelt_vpn.Noise.Timers.{persistent_keepalive_of}
use xelt_vpn.Noise.Tunn.Clock.{time_since_last_handshake}
use xelt_vpn.Payment.Quota.{BandwidthQuota}
use xelt_vpn.Device.Api.Key.{split_once}
use xelt_vpn.Device.Peer.{Peer, AllowedIp}
use xelt_vpn.Device.Registration.Reaped.{told_handshake}
use xelt_vpn.Device.Table.{Table, Store}
use xelt_vpn.Device.Table.Linked.{some-inj}
use xelt_vpn.Device.Table.Report.{
  Writers, Lines, entry, if_some, time_lines, quota_lines, settings_lines, traffic_lines, at_arc,
  all_peers, own_lines, port_lines, api_get, Seen, nothing_seen, flush_key, flush_peer, starts_with,
  or_before, read_lines, uapi_get_peers, PeersAnswer, answer_of,
}
use xelt_vpn.Device.Table.Report.Decimal.{parse_uint-digits}

-- The peers of a device in their order, each with its key in hex and the age of its handshake.
module _ (w : Writers) (now : ℕ) where
  abbrev pub told_one : List (List ℕ × Option ℕ) → List ℕ → Option Peer → List (List ℕ × Option ℕ)
  told_one found k none = found
  told_one found k (some p) =
      put (w.hex_encode k) (told_handshake (time_since_last_handshake p.tunnel now)) found

  unfoldable pub told_peers :
      Store → List (List ℕ × ℕ) → List (List ℕ × Option ℕ) → List (List ℕ × Option ℕ)
  told_peers arcs [] found = found
  told_peers arcs ((k, h) ∷ m) found = told_peers arcs m (told_one found k (arcs h))

module _ (w : Writers) (own_key : List ℕ → Option (List ℕ)) where
  -- A line that is passed over, where it is written at all.
  optional {ℓ} :
      {A : Type ℓ} (f : A → List ℕ) (s : Seen) (more : Lines)
      → ((a : A) → read_lines own_key s (f a ∷ more) ≡ read_lines own_key s more)
      → (o : Option A) → read_lines own_key s (if_some o f ++ more) ≡ read_lines own_key s more
  optional f s more skip none = refl
  optional f s more skip (some a) = skip a

  allowed_skipped :
      (ips : List AllowedIp) (s : Seen) (more : Lines)
      → read_lines own_key s (
          map
            (λ (ip : AllowedIp).
              entry (codes "allowed_ip") (w.show_ip ip.addr ++ (b'/' ∷ digits 2 ip.cidr)))
            ips
          ++ more)
        ≡ read_lines own_key s more
  unfolding read_lines starts_with split_once
  allowed_skipped [] s more = refl
  allowed_skipped (ip ∷ ips) s more = allowed_skipped ips s more

  quota_skipped :
      (q : Option BandwidthQuota) (s : Seen) (more : Lines)
      → read_lines own_key s (quota_lines q ++ more) ≡ read_lines own_key s more
  unfolding read_lines starts_with split_once
  quota_skipped none s more = refl
  quota_skipped (some q) s more = refl

  traffic_skipped :
      (p : Peer) (s : Seen) (more : Lines)
      → read_lines own_key s (traffic_lines w p ++ more) ≡ read_lines own_key s more
  unfolding read_lines starts_with split_once
  traffic_skipped p s more = quota_skipped p.quota s more

  abbrev met : Seen → List ℕ → Option ℕ → Seen
  met s k told = record (flush_peer s) {
    current_pubkey = some (w.hex_encode k);
    current_handshake = told;
  }

  settings_read :
      (s : Seen) (k : List ℕ) (p : Peer) (more : Lines)
      → read_lines own_key s (settings_lines w k p more) ≡ read_lines own_key (met s k none) more
  unfolding read_lines starts_with split_once
  settings_read s k p more =
      let s₁ = met s k none in
      optional (λ key. entry (codes "preshared_key") (w.hex_encode key)) s₁ _ (λ a. refl)
        p.preshared_key
      ∙ optional (λ n. entry (codes "persistent_keepalive_interval") (digits 4 n)) s₁ _ (λ a. refl)
          (persistent_keepalive_of p.tunnel.timers)
      ∙ optional (λ a. entry (codes "endpoint") (w.show_addr a)) s₁ _ (λ a. refl) p.endpoint.addr
      ∙ allowed_skipped p.allowed_ips s₁ more

  -- The seconds fit the reader's type.
  abbrev pub Fits : Result (Option ℕ) → Type 0
  Fits r = (d : ℕ) → r ≡ ok (some d) → d / nanos_per_sec < 2 ^ 64

  time_read :
      (s : Seen) (k : List ℕ) (r : Result (Option ℕ)) (more : Lines) {time : Lines}
      → time_lines r ≡ some time
      → Fits r
      → read_lines own_key (met s k none) (time ++ more)
        ≡ read_lines own_key (met s k (told_handshake r)) more
  unfolding read_lines starts_with split_once told_handshake
  time_read s k (ok none) more e fits =
      ap (λ xs. read_lines own_key (met s k none) (xs ++ more)) (sym (some-inj e))
  time_read s k (ok (some d)) more e fits =
      ap (λ xs. read_lines own_key (met s k none) (xs ++ more)) (sym (some-inj e))
      ∙ ap (λ t. read_lines own_key (met s k t) more)
          (parse_uint-digits (2 ^ 64 - 1) 19 (d / nanos_per_sec) (omega (arith, fits d refl))
            (omega (arith, fits d refl)))
  time_read s k (err x) more e fits = cc
  time_read s k panic more e fits = cc

  module _ (arcs : Store) (now : ℕ)
      (fits : (h : ℕ) (p : Peer)
        → arcs h ≡ some p
        → Fits (time_since_last_handshake p.tunnel now)) where
    seen_one : Seen → List ℕ → Option Peer → Seen
    seen_one s k none = s
    seen_one s k (some p) = met s k (told_handshake (time_since_last_handshake p.tunnel now))

    seen_all : Seen → List (List ℕ × ℕ) → Seen
    seen_all s [] = s
    seen_all s ((k, h) ∷ m) = seen_all (seen_one s k (arcs h)) m

    one_read :
        (s : Seen) (k : List ℕ) (h : ℕ) (o : Option Peer) (more : Lines) {ls : Lines}
        → arcs h ≡ o
        → at_arc w k now more o ≡ some ls
        → read_lines own_key s ls ≡ read_lines own_key (seen_one s k o) more
    unfolding seen_one
    one_read s k h none more at e = ap (read_lines own_key s) (sym (some-inj e))
    one_read s k h (some p) more at e =
        let (time, told, e') =
          (bind-eq-some_iff (time_lines (time_since_last_handshake p.tunnel now)) _).0 e in
        ap (read_lines own_key s) (sym (some-inj e'))
        ∙ settings_read s k p (time ++ (traffic_lines w p ++ more))
        ∙ time_read s k (time_since_last_handshake p.tunnel now) (traffic_lines w p ++ more) told
            (fits h p at)
        ∙ traffic_skipped p _ more

    all_read :
        (m : List (List ℕ × ℕ)) (s : Seen) (last : Lines) {ls : Lines}
        → all_peers w m arcs now last ≡ some ls
        → read_lines own_key s ls ≡ read_lines own_key (seen_all s m) last
    unfolding all_peers seen_all
    all_read [] s last e = ap (read_lines own_key s) (sym (some-inj e))
    all_read ((k, h) ∷ m) s last e =
        let (more, rest, e') = (bind-eq-some_iff (all_peers w m arcs now last) _).0 e in
        one_read s k h (arcs h) more refl e' ∙ all_read m (seen_one s k (arcs h)) last rest

    one_found :
        (s : Seen) (k : List ℕ) (o : Option Peer)
        → (flush_peer (seen_one s k o)).found ≡ told_one w now (flush_peer s).found k o
    unfolding seen_one
    one_found s k none = refl
    one_found s k (some p) = refl

    flushed_found :
        (m : List (List ℕ × ℕ)) (s : Seen)
        → (flush_peer (seen_all s m)).found ≡ told_peers w now arcs m (flush_peer s).found
    unfolding seen_all told_peers
    flushed_found [] s = refl
    flushed_found ((k, h) ∷ m) s =
        flushed_found m (seen_one s k (arcs h))
        ∙ ap (told_peers w now arcs m) (one_found s k (arcs h))

    -- The fields of the server itself are left.
    abbrev OwnKept : Seen → Seen → Type 0
    OwnKept s s' = (s'.own_pubkey ≡ s.own_pubkey) × (s'.listen_port ≡ s.listen_port)

    flush-OwnKept : (s : Seen) (o : Option (List ℕ)) → OwnKept s (flush_key s o)
    flush-OwnKept s none = (refl, refl)
    flush-OwnKept s (some k) = (refl, refl)

    one-OwnKept : (s : Seen) (k : List ℕ) (o : Option Peer) → OwnKept s (seen_one s k o)
    unfolding seen_one
    one-OwnKept s k none = (refl, refl)
    one-OwnKept s k (some p) = flush-OwnKept s s.current_pubkey

    all-OwnKept : (m : List (List ℕ × ℕ)) (s : Seen) → OwnKept s (seen_all s m)
    unfolding seen_all
    all-OwnKept [] s = (refl, refl)
    all-OwnKept ((k, h) ∷ m) s =
        let (a, b) = one-OwnKept s k (arcs h) in
        let (c, d) = all-OwnKept m (seen_one s k (arcs h)) in (c ∙ a, d ∙ b)

  abbrev pub told_own : Option (List ℕ × List ℕ) → Option (List ℕ)
  told_own none = none
  told_own (some (private, public)) = own_key (w.hex_encode public)

  abbrev pub told_port : ℕ → Option ℕ
  told_port port = if port == 0 then none else some port

  or_before-none : (o : Option (List ℕ)) → or_before own_key o none ≡ o
  or_before-none none = refl
  or_before-none (some k) = refl

  own_read :
      (pair : Option (List ℕ × List ℕ)) (more : Lines)
      → read_lines own_key nothing_seen (own_lines w pair ++ more)
        ≡ read_lines own_key (record nothing_seen { own_pubkey = told_own pair }) more
  unfolding read_lines starts_with split_once
  own_read none more = refl
  own_read (some (private, public)) more =
      ap (λ o. read_lines own_key (record nothing_seen { own_pubkey = o }) more)
        (or_before-none (own_key (w.hex_encode public)))

  port_read :
      (port : ℕ) (own : Option (List ℕ)) (more : Lines)
      → port ≤ 65535
      → read_lines own_key (record nothing_seen { own_pubkey = own }) (port_lines w port ++ more)
        ≡ read_lines own_key
            (record nothing_seen { own_pubkey = own; listen_port = told_port port })
            more
  unfolding read_lines starts_with split_once
  port_read port own more small = elim (Bool-cases (port == 0)) [
    | inl q ↦ rw q refl
    | inr q ↦ rw q (
        ap
          (λ o. read_lines own_key (record nothing_seen { own_pubkey = own; listen_port = o }) more)
          (parse_uint-digits 65535 4 port small (omega (arith, small))))
  ]

  mark_skipped :
      (mark : Option ℕ) (s : Seen) (more : Lines)
      → read_lines own_key s (if_some mark (λ n. entry (codes "fwmark") (digits 9 n)) ++ more)
        ≡ read_lines own_key s more
  unfolding read_lines starts_with split_once
  mark_skipped mark s more =
      optional (λ n. entry (codes "fwmark") (digits 9 n)) s more (λ n. refl) mark

  last_read : (s : Seen) → read_lines own_key s (codes "errno=0" ∷ [] ∷ []) ≡ flush_peer s
  unfolding read_lines starts_with split_once
  last_read s = refl

  -- What `uapi_get_peers` reads of the answer to `get=1` is the device's public key as it shows keys,
  -- the port it listens on, if it is not 0, and the device's peers in their order, each key in hex with
  -- the seconds since the last handshake where there is a session. The port and the seconds fit the
  -- reader's types.
  pub read-api_get :
      (t : Table) (now : ℕ) {ls : Lines}
      → api_get w t now ≡ some ls
      → t.listen_port ≤ 65535
      → ((h : ℕ) (p : Peer) → t.arcs h ≡ some p → Fits (time_since_last_handshake p.tunnel now))
      → uapi_get_peers own_key ls
        ≡ (told_own t.key_pair, told_port t.listen_port, told_peers w now t.arcs t.peers [])
  unfolding api_get uapi_get_peers
  read-api_get t now e small fits =
      let last = codes "errno=0" ∷ [] ∷ [] in
      let (peers, told, e') = (bind-eq-some_iff (all_peers w t.peers t.arcs now last) _).0 e in
      let server : Seen = record nothing_seen {
        own_pubkey = told_own t.key_pair;
        listen_port = told_port t.listen_port;
      } in
      let done = seen_all t.arcs now fits server t.peers in
      let read =
        ap (read_lines own_key nothing_seen) (sym (some-inj e'))
        ∙ own_read t.key_pair _
        ∙ port_read t.listen_port (told_own t.key_pair) _ small
        ∙ mark_skipped t.fwmark server peers
        ∙ all_read t.arcs now fits t.peers server last told
        ∙ last_read done in
      let (own, port) = all-OwnKept t.arcs now fits t.peers server in
      let (own', port') = flush-OwnKept t.arcs now fits done done.current_pubkey in
      ap answer_of read
      ∙ triple (own' ∙ own) (port' ∙ port) (flushed_found t.arcs now fits t.peers server)
    where
      triple :
          {a a' : Option (List ℕ)} {b b' : Option ℕ} {c c' : List (List ℕ × Option ℕ)}
          → a ≡ a'
          → b ≡ b'
          → c ≡ c'
          → ◌≡◌ {A = PeersAnswer} (a, b, c) (a', b', c')
      triple p q r = λ i. (p i, q i, r i)
