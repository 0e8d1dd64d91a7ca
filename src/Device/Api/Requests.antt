-- ===== src/Device/Api/Requests.antt =====
-- What the registration service writes to the configuration socket, `uapi_set_peer` and
-- `uapi_remove_peer` of protocol/boringtun/src/device/http_api.rs, is what the socket understands. A
-- message is its lines after `set=1`.
use mathlib.Core.List.{append_assoc}
use xelt_vpn.Prelude.{
  ℕ, ◌≡◌, refl, sym, ap, ◌∙◌, inl, inr, Bool, true, false, List, [], ◌∷◌, ◌++◌, Option, none, some,
  ◌==◌, length, codes, eq→==, Bool-cases, arith,
}
use xelt_vpn.Prelude.Maps.{has_number}
use xelt_vpn.Noise.Outcome.{v4}
use xelt_vpn.Device.Api.{
  Parsers, no_error, Section, DeviceCall, update_peer, new_section, pop, peer_then, peer_command,
  assigns, api_set_peer, device_command, api_set,
}
use xelt_vpn.Device.Api.Key.{
  hex_digit, two_digits, byte_of_hex, cons_byte, bytes_of_hex, parse_key, parse_digits, split,
  split_once, parse_allowed_ip,
}

abbrev pub new_line : List ℕ
new_line = 10 ∷ []

abbrev pub set_peer_message : List ℕ → List ℕ → List (List ℕ)
set_peer_message pubkey_hex allowed_ip =
    (codes "public_key=" ++ (pubkey_hex ++ new_line))
    ∷ (codes "replace_allowed_ips=true" ++ new_line)
    ∷ (codes "allowed_ip=" ++ (allowed_ip ++ (codes "/32" ++ new_line)))
    ∷ new_line
    ∷ []

abbrev pub remove_peer_message : List ℕ → List (List ℕ)
remove_peer_message pubkey_hex =
    (codes "public_key=" ++ (pubkey_hex ++ new_line))
    ∷ (codes "remove=true" ++ new_line)
    ∷ new_line
    ∷ []

pub pop-append : (xs : List ℕ) (c : ℕ) → pop (xs ++ (c ∷ [])) ≡ xs
unfolding pop
pop-append [] c = refl
pop-append (x ∷ []) c = refl
pop-append (x ∷ y ∷ xs) c = ap (◌∷◌ x) (pop-append (y ∷ xs) c)

split_whole : (sep : ℕ) (xs : List ℕ) → has_number sep xs ≡ false → split sep xs ≡ xs ∷ []
unfolding split has_number
split_whole sep [] h = refl
split_whole sep (x ∷ xs) h = elim (Bool-cases (x == sep)) [
  | inl q ↦ absurd (ground (arith, q, h))
  | inr q ↦
      let rest : has_number sep xs ≡ false = ground arith in rw (q, split_whole sep xs rest) refl
]

split-append :
    (sep : ℕ) (xs ys : List ℕ)
    → has_number sep xs ≡ false
    → split sep (xs ++ (sep ∷ ys)) ≡ xs ∷ split sep ys
unfolding split has_number
split-append sep [] ys h = rw (eq→== sep sep refl) refl
split-append sep (x ∷ xs) ys h = elim (Bool-cases (x == sep)) [
  | inl q ↦ absurd (ground (arith, q, h))
  | inr q ↦
      let rest : has_number sep xs ≡ false = ground arith in
      rw (q, split-append sep xs ys rest) refl
]

no_digit : (c : ℕ) → c ≡ b'=' → hex_digit c ≡ none
no_digit c e = ground arith

two_digits-none : (o : Option ℕ) → two_digits o none ≡ none
two_digits-none none = refl
two_digits-none (some a) = refl

clean_pair : (a b x : ℕ) → byte_of_hex a b ≡ some x → ((a == b'=') ≡ false) × ((b == b'=') ≡ false)
clean_pair a b x e = elim (Bool-cases (a == b'+')) [
  | inl p ↦ ground (arith, no_digit b)
  | inr p ↦ ground (arith, no_digit a, no_digit b, two_digits-none (hex_digit a))
]

cons_byte-some :
    (o : Option ℕ) (r : Option (List ℕ)) {bs : List ℕ}
    → cons_byte o r ≡ some bs
    → (x : ℕ) × (xs : List ℕ) × (o ≡ some x) × (r ≡ some xs)
cons_byte-some none r e = cc
cons_byte-some (some x) none e = cc
cons_byte-some (some x) (some xs) e = (x, xs, refl, refl)

-- A text of hexadecimal digits has no separator.
hex-clean : (s : List ℕ) {bytes : List ℕ} → bytes_of_hex s ≡ some bytes → has_number b'=' s ≡ false
unfolding bytes_of_hex has_number
hex-clean [] e = refl
hex-clean (a ∷ []) e = cc
hex-clean (a ∷ b ∷ rest) e =
    let (x, xs, one, more) = cons_byte-some (byte_of_hex a b) (bytes_of_hex rest) e in
    let (p, q) = clean_pair a b x one in rw (p, q, hex-clean rest more) refl

module _ (parsers : Parsers) (succeeds : DeviceCall → Bool) (key_hex key : List ℕ)
    (size : length key_hex ≡ 64) (decodes : bytes_of_hex key_hex ≡ some key) where
  key_parses : parse_key parsers.base64_decode key_hex ≡ some key
  unfolding parse_key
  key_parses = rw (size, decodes) refl

  -- The first line begins the section of the key.
  begins :
      (lines : List (List ℕ))
      → api_set parsers succeeds ((codes "public_key=" ++ (key_hex ++ new_line)) ∷ lines)
        ≡ api_set_peer parsers (new_section key) lines
  unfolding api_set device_command split
  begins lines =
      rw
        (
          pop-append (codes "public_key=" ++ key_hex) 10,
          split_whole b'=' key_hex (hex-clean key_hex decodes),
          key_parses,
        )
        refl

  -- The message that `uapi_remove_peer` writes for a key removes that peer, and does nothing else.
  pub remove_understood :
      api_set parsers succeeds (remove_peer_message key_hex)
      ≡ (no_error, update_peer (record (new_section key) { remove = true }) ∷ [])
  unfolding api_set_peer peer_command split_once pop
  remove_understood = begins _ ∙ refl

  module _ (ip addr : List ℕ) (reads : parsers.parse_ip ip ≡ some (v4 addr))
      (plain : has_number b'/' ip ≡ false) where
    host :
        parse_allowed_ip parsers.parse_ip (ip ++ codes "/32")
        ≡ some (record { addr = v4 addr; cidr = 32 })
    unfolding parse_allowed_ip split parse_digits
    host = rw (split-append b'/' ip (codes "32") plain, reads) refl

    allowed_line :
        (s : Section)
        → peer_command parsers s (pop (codes "allowed_ip=" ++ (ip ++ (codes "/32" ++ new_line))))
          ≡ assigns (record s {
            allowed_ips = s.allowed_ips ++ (record { addr = v4 addr; cidr = 32 } ∷ []);
          })
    unfolding peer_command split_once
    allowed_line s =
        ap (peer_command parsers s) (
          ap pop (ap (◌++◌ (codes "allowed_ip=")) (sym (append_assoc ip (codes "/32") new_line)))
          ∙ pop-append (codes "allowed_ip=" ++ (ip ++ codes "/32")) 10)
        ∙ rw host refl

    -- The message that `uapi_set_peer` writes for a key and an address adds a peer with that key and
    -- that address alone, and does nothing else; its text of the key must be 64 hexadecimal digits.
    pub set_understood : api_set parsers succeeds (set_peer_message key_hex ip) ≡ (
      no_error,
      update_peer (record (new_section key) {
        replace_ips = true;
        allowed_ips = record { addr = v4 addr; cidr = 32 } ∷ [];
      })
          ∷ [],
    )
    unfolding api_set_peer pop peer_command split_once
    set_understood =
        begins _
        ∙ ap
            (λ c.
              peer_then parsers (record (new_section key) { replace_ips = true }) c
                (λ s. api_set_peer parsers s (new_line ∷ [])))
            (allowed_line (record (new_section key) { replace_ips = true }))
