-- ===== src/Device/Api/Tests.antt =====
-- Concrete runs of the configuration protocol.
use xelt_vpn.Prelude.{◌≡◌, refl, true, [], ◌∷◌, ◌++◌, some, replicate, codes}
use xelt_vpn.Device.Api.{
  no_error, einval, eproto, Section, open_listen_socket, update_peer, new_section, pop,
  peer_command, api_set_peer, api_set, device_command,
}
use xelt_vpn.Device.Api.Key.{bytes_of_hex, parse_key, parse_digits, split, split_once}
use xelt_vpn.Device.Api.Requests.{new_line}
use xelt_vpn.Device.Sample.{plain_parsers, always, zeros_hex}
use xelt_vpn.Device.Api.Leak.{section_leaks}

zeros_parse : parse_key plain_parsers.base64_decode zeros_hex ≡ some (replicate 32 0)
unfolding parse_key bytes_of_hex
zeros_parse = refl

-- A port is opened; a line of two separators is refused.
port_opens :
    api_set plain_parsers always ((codes "listen_port=51820" ++ new_line) ∷ new_line ∷ [])
    ≡ (no_error, open_listen_socket 51820 ∷ [])
unfolding api_set device_command split pop parse_digits
port_opens = refl

two_separators :
    api_set plain_parsers always ((codes "private_key=AA==" ++ new_line) ∷ []) ≡ (eproto, [])
unfolding api_set device_command split pop
two_separators = refl

-- A text of 44 characters that is not base64 gives the key of zeros.
undecoded : parse_key plain_parsers.base64_decode (replicate 44 b'!') ≡ some (replicate 32 0)
unfolding parse_key
undecoded = refl

unknown_key :
    api_set_peer plain_parsers (new_section []) ((codes "colour=red" ++ new_line) ∷ [])
    ≡ (einval, [])
unfolding api_set_peer peer_command split_once pop
unknown_key = refl

abbrev removed : Section
removed = record (new_section (replicate 32 1)) { remove = true; keepalive = some 25 }

section_leaks_example :
    api_set_peer plain_parsers removed
      ((codes "public_key=" ++ (zeros_hex ++ new_line)) ∷ new_line ∷ [])
    ≡ (
      no_error,
      update_peer removed ∷ update_peer (record removed { public_key = replicate 32 0 }) ∷ [],
    )
section_leaks_example = section_leaks plain_parsers removed zeros_hex (replicate 32 0) zeros_parse
