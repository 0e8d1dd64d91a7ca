-- ===== src/Noise/RateLimiter/Macs.antt =====
-- The MACs that a peer appends are those that the limiter checks.
use xelt_vpn.Prelude.{
  ℕ, ◌-◌, ◌<◌, ◌≡◌, refl, ap, sym, ◌∙◌, ◌⊎◌, inl, inr, Bool, true, false, ◌||◌, List, ◌++◌, Option,
  some, ltb, length, take, drop, length-append, take-append, drop-append, bytes_eq_self, lt→ltb,
  arith,
}
use xelt_vpn.Noise.Errors.{ok}
use xelt_vpn.Noise.Crypto.{Crypto}
use xelt_vpn.Noise.Packet.{Packet, parse_incoming_packet}
use xelt_vpn.Noise.Outcome.{IpAddr}
use xelt_vpn.Noise.Handshake.{Handshake}
use xelt_vpn.Noise.Handshake.Initiate.{append_mac1_and_mac2, mac2_of}
use xelt_vpn.Noise.Handshake.Wire.{length-mac2}
use xelt_vpn.Noise.RateLimiter.{RateLimiter, limited, verify_packet, current_cookie}
use xelt_vpn.Noise.RateLimiter.Verdicts.{
  body, first_mac, second_mac, passes, proved, genuine, verify_handshake,
}

-- The three parts of a message with two MACs of 16 bytes behind it.
parts :
    (msg m₁ m₂ : List ℕ)
    → length m₁ ≡ 16
    → length m₂ ≡ 16
    → let src = msg ++ (m₁ ++ m₂) in (body src ≡ msg) × (first_mac src ≡ m₁) × (second_mac src ≡ m₂)
parts msg m₁ m₂ l₁ l₂ =
    let src = msg ++ (m₁ ++ m₂) in
    let n : length src - 32 ≡ length msg =
      omega (arith, length-append msg (m₁ ++ m₂), length-append m₁ m₂) in
    let macs : drop (length src - 32) src ≡ m₁ ++ m₂ =
      drop-append (length src - 32) msg (m₁ ++ m₂) (omega (arith, n))
      ∙ ap (λ k. drop k (m₁ ++ m₂)) {y = 0} (omega (arith, n)) in
    (
      ap (λ k. take k src) n ∙ take-append msg (m₁ ++ m₂),
      ap (take 16) macs ∙ ap (λ k. take k (m₁ ++ m₂)) (sym l₁) ∙ take-append m₁ m₂,
      ap (drop 16) macs
          ∙ drop-append 16 m₁ m₂ (omega arith)
          ∙ ap (λ k. drop k m₂) {y = 0} (omega arith),
    )

or_true : (b : Bool) → (b || true) ≡ true
or_true true = refl
or_true false = refl

module _ (crypto : Crypto) (r : RateLimiter) (now : ℕ) where
  -- A handshake message with the MACs of a peer that has the limiter's public key passes, wherever fewer than `limit`
  -- messages were counted, or the peer holds the cookie of the address that it sends from.
  pub verify-append :
      (h : Handshake) (k : ℕ) (msg : List ℕ) (addr : Option IpAddr) (n idx : ℕ) (packet : Packet)
      → h.params.sending_mac1_key ≡ r.mac1_key
      → parse_incoming_packet (append_mac1_and_mac2 crypto h k msg).0 ≡ ok packet
      → limited packet ≡ some idx
      → (r.count < r.limit)
        ⊎ ((a : IpAddr) × (addr ≡ some a)
            × (h.cookies.write_cookie ≡ some (current_cookie crypto r now a)))
      → passes crypto r now
          (verify_packet crypto r now addr (append_mac1_and_mac2 crypto h k msg).0 n).0
        ≡ true
  unfolding append_mac1_and_mac2
  verify-append h k msg addr n idx packet key e l c =
      let m₁ = crypto.blake2s_mac_16 h.params.sending_mac1_key msg in
      let m₂ = mac2_of crypto h.cookies.write_cookie (msg ++ m₁) in
      let src = msg ++ (m₁ ++ m₂) in
      let (b, f, s) =
        parts msg m₁ m₂ (crypto.length-blake2s_mac_16 h.params.sending_mac1_key msg)
          (length-mac2 crypto h.cookies.write_cookie (msg ++ m₁)) in
      let g : genuine crypto r now src ≡ true = rw (b, f, ← key) (bytes_eq_self m₁) in
      (verify_handshake crypto r now addr src n idx packet e l).0
      ∙ rw g (elim c [
        | inl few ↦ rw (lt→ltb r.count r.limit few) refl
        | inr (a, known, cookie) ↦
            let pr : proved crypto r now addr src ≡ true = rw known (
              rw (b, f, s, cookie)
                (bytes_eq_self
                  (crypto.blake2s_mac_16 (current_cookie crypto r now a) (msg ++ m₁)))) in
            rw pr (or_true (ltb r.count r.limit))
      ])
