-- ===== src/Device/Api/Leak.antt =====
-- What one peer's section leaves to the next.
use xelt_vpn.Prelude.{ℕ, ◌≡◌, refl, List, [], ◌∷◌, ◌++◌, some, codes}
use xelt_vpn.Device.Api.{Parsers, no_error, Section, update_peer, pop, peer_command, api_set_peer}
use xelt_vpn.Device.Api.Key.{parse_key, split_once}
use xelt_vpn.Device.Api.Requests.{new_line, pop-append}

-- After the line of another peer's key, a section with no further lines updates that peer with the
-- endpoint, the keepalive, the preshared key and the removal that were set for the one before; only the
-- addresses start anew.
pub section_leaks :
    (parsers : Parsers) (s : Section) (key_text key : List ℕ)
    → parse_key parsers.base64_decode key_text ≡ some key
    → api_set_peer parsers s ((codes "public_key=" ++ (key_text ++ new_line)) ∷ new_line ∷ []) ≡ (
      no_error,
      update_peer s
          ∷ update_peer (record {
            public_key = key;
            remove = s.remove;
            replace_ips = s.replace_ips;
            endpoint = s.endpoint;
            keepalive = s.keepalive;
            preshared_key = s.preshared_key;
            allowed_ips = [];
          })
          ∷ [],
    )
unfolding api_set_peer peer_command split_once pop
section_leaks parsers s key_text key e = rw (pop-append (b'=' ∷ key_text) 10, e) refl
