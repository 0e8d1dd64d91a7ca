-- ===== src/Noise/Handshake/Wire.antt =====
-- The bytes of the two handshake messages, as the other end parses them.
use xelt_vpn.Prelude.{
  ℕ, ◌^◌, ◌<◌, ◌≡◌, refl, List, [], ◌∷◌, ◌++◌, Option, none, some, length, length-append,
  from_le-to_le, arith,
}
use xelt_vpn.Prelude.Fields.{join, Sized, length-join, slice-join}
use xelt_vpn.Noise.Errors.{ok}
use xelt_vpn.Noise.Crypto.{Crypto}
use xelt_vpn.Noise.Packet.{handshake_init, handshake_response, parse_incoming_packet, parse_typed}
use xelt_vpn.Noise.Handshake.Initiate.{InitSeals, init_fields, mac2_of, append_mac1_and_mac2}
use xelt_vpn.Noise.Handshake.Respond.{response_fields}
use xelt_vpn.Noise.Handshake.{Handshake}

abbrev init_sizes : List ℕ
init_sizes = 4 ∷ 4 ∷ 32 ∷ 48 ∷ 28 ∷ []

abbrev response_sizes : List ℕ
response_sizes = 4 ∷ 4 ∷ 4 ∷ 32 ∷ 16 ∷ []

module _ (crypto : Crypto) where
  pub parse-init :
      (idx : ℕ) (e : List ℕ) (s : InitSeals) (macs : List ℕ)
      → idx < 2 ^ 32
      → length e ≡ 32
      → length s.encrypted_static ≡ 48
      → length s.encrypted_timestamp ≡ 28
      → length macs ≡ 32
      → parse_incoming_packet (join (init_fields crypto idx e s) ++ macs)
        ≡ ok (
            handshake_init (record {
              sender_idx = idx;
              unencrypted_ephemeral = e;
              encrypted_static = s.encrypted_static;
              encrypted_timestamp = s.encrypted_timestamp;
            }))
  unfolding parse_incoming_packet parse_typed
  parse-init idx e s macs h le ls lt lm =
      let fs = init_fields crypto idx e s in
      let z : Sized init_sizes fs = (refl, (refl, (le, (ls, (lt, tt))))) in
      let len : length (join fs ++ macs) ≡ 148 =
        omega (arith, length-append (join fs) macs, length-join init_sizes fs z) in
      let k₀ = slice-join 0 init_sizes fs macs z (omega arith) in
      let k₁ = slice-join 1 init_sizes fs macs z (omega arith) in
      let k₂ = slice-join 2 init_sizes fs macs z (omega arith) in
      let k₃ = slice-join 3 init_sizes fs macs z (omega arith) in
      let k₄ = slice-join 4 init_sizes fs macs z (omega arith) in
      rw (len, k₀, k₁, k₂, k₃, k₄, from_le-to_le 4 idx (omega arith)) refl

  pub parse-response :
      (idx peer : ℕ) (e nothing macs : List ℕ)
      → idx < 2 ^ 32
      → peer < 2 ^ 32
      → length e ≡ 32
      → length nothing ≡ 16
      → length macs ≡ 32
      → parse_incoming_packet (join (response_fields crypto idx peer e nothing) ++ macs)
        ≡ ok (
            handshake_response (record {
              sender_idx = idx;
              receiver_idx = peer;
              unencrypted_ephemeral = e;
              encrypted_nothing = nothing;
            }))
  unfolding parse_incoming_packet parse_typed
  parse-response idx peer e nothing macs h hp le ln lm =
      let fs = response_fields crypto idx peer e nothing in
      let z : Sized response_sizes fs = (refl, (refl, (refl, (le, (ln, tt))))) in
      let len : length (join fs ++ macs) ≡ 92 =
        omega (arith, length-append (join fs) macs, length-join response_sizes fs z) in
      let k₀ = slice-join 0 response_sizes fs macs z (omega arith) in
      let k₁ = slice-join 1 response_sizes fs macs z (omega arith) in
      let k₂ = slice-join 2 response_sizes fs macs z (omega arith) in
      let k₃ = slice-join 3 response_sizes fs macs z (omega arith) in
      let k₄ = slice-join 4 response_sizes fs macs z (omega arith) in
      rw
        (
          len,
          k₀,
          k₁,
          k₂,
          k₃,
          k₄,
          from_le-to_le 4 idx (omega arith),
          from_le-to_le 4 peer (omega arith),
        )
        refl

  pub length-mac2 : (c : Option (List ℕ)) (m : List ℕ) → length (mac2_of crypto c m) ≡ 16
  length-mac2 none m = refl
  length-mac2 (some c) m = crypto.length-blake2s_mac_16 c m

  -- The two MACs take 32 bytes.
  pub length-macs :
      (h : Handshake) (idx : ℕ) (msg : List ℕ)
      → (macs : List ℕ) × (length macs ≡ 32)
        × ((append_mac1_and_mac2 crypto h idx msg).0 ≡ msg ++ macs)
  unfolding append_mac1_and_mac2
  length-macs h idx msg =
      let mac1 = crypto.blake2s_mac_16 h.params.sending_mac1_key msg in
      let mac2 = mac2_of crypto h.cookies.write_cookie (msg ++ mac1) in
      (
        mac1 ++ mac2,
        omega (
          arith,
          length-append mac1 mac2,
          crypto.length-blake2s_mac_16 h.params.sending_mac1_key msg,
          length-mac2 h.cookies.write_cookie (msg ++ mac1),
        ),
        refl,
      )
