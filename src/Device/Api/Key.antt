-- ===== src/Device/Api/Key.antt =====
-- `KeyBytes` of protocol/boringtun/src/serialization.rs, and the values of the standard library's `parse`
-- that the configuration protocol reads. Texts are lists of ASCII codes; base64 is the crate's.
use xelt_vpn.Prelude.{
  ℕ, ◌+◌, ◌-◌, ◌*◌, Bool, true, false, ◌&&◌, ◌||◌, List, [], ◌∷◌, Option, none, some, leb, ◌==◌,
  if◌then◌else◌, length, replicate, bytes_eq, codes,
}
use xelt_vpn.Noise.Outcome.{IpAddr, v4, v6}
use xelt_vpn.Device.Peer.{AllowedIp}

abbrev pub hex_digit : ℕ → Option ℕ
hex_digit c =
    if leb b'0' c && leb c b'9'
    then some (c - b'0')
    else if leb b'a' c && leb c b'f'
    then some (c - b'a' + 10)
    else if leb b'A' c && leb c b'F'
    then some (c - b'A' + 10)
    else none

abbrev pub two_digits : Option ℕ → Option ℕ → Option ℕ
two_digits (some a) (some b) = some (a * 16 + b)
two_digits (some a) none = none
two_digits none b = none

-- `u8::from_str_radix(s, 16)` of two characters: the first may be a plus sign.
abbrev pub byte_of_hex : ℕ → ℕ → Option ℕ
byte_of_hex a b = if a == b'+' then hex_digit b else two_digits (hex_digit a) (hex_digit b)

abbrev pub cons_byte : Option ℕ → Option (List ℕ) → Option (List ℕ)
cons_byte (some b) (some bs) = some (b ∷ bs)
cons_byte (some b) none = none
cons_byte none bs = none

-- The loop over the pairs.
unfoldable pub bytes_of_hex : List ℕ → Option (List ℕ)
bytes_of_hex [] = some []
bytes_of_hex (a ∷ []) = none
bytes_of_hex (a ∷ b ∷ rest) = cons_byte (byte_of_hex a b) (bytes_of_hex rest)

-- Where base64 does not decode, the key stays all zeros.
abbrev pub key_of_base64 : Option (List ℕ) → Option (List ℕ)
key_of_base64 none = some (replicate 32 0)
key_of_base64 (some decoded) = if length decoded == 32 then some decoded else none

unfoldable pub parse_key : (List ℕ → Option (List ℕ)) → List ℕ → Option (List ℕ)
parse_key base64_decode s =
    if length s == 64
    then bytes_of_hex s
    else if length s == 43 || length s == 44
    then key_of_base64 (base64_decode s)
    else none

abbrev pub parse_bool : List ℕ → Option Bool
parse_bool s =
    if bytes_eq s (codes "true")
    then some true
    else if bytes_eq s (codes "false")
    then some false
    else none

-- Decimal digits up to a bound.
unfoldable pub parse_digits : ℕ → ℕ → List ℕ → Option ℕ
parse_digits most acc [] = some acc
parse_digits most acc (c ∷ cs) =
    let next = acc * 10 + (c - b'0') in
    let rest = parse_digits most next cs in
    if leb b'0' c && (leb c b'9' && leb next most) then rest else none

abbrev pub parse_uint : ℕ → List ℕ → Option ℕ
parse_uint most [] = none
parse_uint most (c ∷ []) = if c == b'+' then none else parse_digits most 0 (c ∷ [])
parse_uint most (c ∷ d ∷ cs) =
    if c == b'+' then parse_digits most 0 (d ∷ cs) else parse_digits most 0 (c ∷ d ∷ cs)

-- `split`: the parts between the separators, one at least.
abbrev pub onto_first : ℕ → List (List ℕ) → List (List ℕ)
onto_first c [] = (c ∷ []) ∷ []
onto_first c (p ∷ ps) = (c ∷ p) ∷ ps

unfoldable pub split : ℕ → List ℕ → List (List ℕ)
split sep [] = [] ∷ []
split sep (c ∷ cs) = let rest = split sep cs in if c == sep then [] ∷ rest else onto_first c rest

-- `splitn(2, sep)`, where it gives two parts.
abbrev pub behind : ℕ → Option (List ℕ × List ℕ) → Option (List ℕ × List ℕ)
behind c none = none
behind c (some (a, b)) = some (c ∷ a, b)

unfoldable pub split_once : ℕ → List ℕ → Option (List ℕ × List ℕ)
split_once sep [] = none
split_once sep (c ∷ cs) =
    let rest = split_once sep cs in if c == sep then some ([], cs) else behind c rest

abbrev pub checked_cidr : Option IpAddr → Option ℕ → Option AllowedIp
checked_cidr (some (v4 a)) (some cidr) =
    if leb cidr 32 then some (record { addr = v4 a; cidr = cidr }) else none
checked_cidr (some (v6 a)) (some cidr) =
    if leb cidr 128 then some (record { addr = v6 a; cidr = cidr }) else none
checked_cidr (some a) none = none
checked_cidr none cidr = none

abbrev pub allowed_ip_of : (List ℕ → Option IpAddr) → List (List ℕ) → Option AllowedIp
allowed_ip_of parse_ip (addr ∷ cidr ∷ []) = checked_cidr (parse_ip addr) (parse_uint 255 cidr)
allowed_ip_of parse_ip [] = none
allowed_ip_of parse_ip (addr ∷ []) = none
allowed_ip_of parse_ip (addr ∷ cidr ∷ p ∷ ps) = none

-- `AllowedIP::from_str`; the standard library's parser of addresses is an argument.
unfoldable pub parse_allowed_ip : (List ℕ → Option IpAddr) → List ℕ → Option AllowedIp
parse_allowed_ip parse_ip s = allowed_ip_of parse_ip (split b'/' s)
