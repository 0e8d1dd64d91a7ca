-- ===== src/Device/Registration.antt =====
-- Addresses for peers: `RegistrationState` of protocol/boringtun/src/device/http_api.rs and its handlers.
-- The HTTP server, the JSON, base64, hex and the configuration socket are outside: a request comes
-- decoded, and what the socket answers is an argument. Times are seconds.
pub mod Pool
pub mod Service
pub mod Run
pub mod Again
pub mod Reaped
mod Tests
use xelt_vpn.Prelude.{
  ℕ, zero, suc, ◌+◌, ◌-◌, ◌≤◌, ◌≡◌, Bool, true, false, not, List, [], ◌∷◌, ◌++◌, Option, none, some,
  ltb, ◌==◌, if◌then◌else◌, length, codes, digits,
}
use xelt_vpn.Prelude.Maps.{
  has_number, add_number, drop_number, has_key, add_key, drop_key, find, erase, put,
}

-- The fields of the snapshot that the answer has.
pub record PaymentConfigSnapshot : Type 0 where
  pub chain_id : ℕ
  pub gateway_wallet : List ℕ
  pub usdc_contract : List ℕ
  pub amount_per_quota : ℕ
  pub quota_bytes : ℕ

-- What does not change while the server runs, as far as the handlers read it.
pub record RegistrationState : Type 0 where
  pub subnet_prefix : ℕ × (ℕ × ℕ)
  pub payment_config : PaymentConfigSnapshot
  pub public_ip : List ℕ

pub record RegistrationInner : Type 0 where
  pub registered_peers : List (List ℕ)
  pub available_ips : List ℕ
  pub peer_to_octet : List (List ℕ × ℕ)
  pub peer_registered_at : List (List ℕ × ℕ)
  pub server_pubkey_cache : Option (List ℕ)
  pub listen_port_cache : Option ℕ
  pub used_nullifiers : List (List ℕ)

-- A status and a body.
abbrev pub Response : Type 0
Response = ℕ × List ℕ

-- `for octet in from..from + n`.
unfoldable pub insert_range : ℕ → ℕ → List ℕ → List ℕ
insert_range zero from xs = xs
insert_range (suc n) from xs = insert_range n (from + 1) (add_number from xs)

unfoldable pub new_inner : RegistrationInner
new_inner = record {
  registered_peers = [];
  available_ips = insert_range 253 2 [];
  peer_to_octet = [];
  peer_registered_at = [];
  server_pubkey_cache = none;
  listen_port_cache = none;
  used_nullifiers = [];
}

abbrev pub Peers : Type 0
Peers = List (List ℕ × Option ℕ)

-- What the configuration socket answers.
pub data GetAnswer : Type 0 where
  got : Option (List ℕ) → Option ℕ → Peers → GetAnswer
  get_failed : List ℕ → GetAnswer

pub data SetAnswer : Type 0 where
  set_done : SetAnswer
  set_failed : List ℕ → SetAnswer

pub data RemoveAnswer : Type 0 where
  removed : Bool → RemoveAnswer
  remove_failed : List ℕ → RemoveAnswer

abbrev pub ip_text : ℕ × (ℕ × ℕ) → ℕ → List ℕ
ip_text (a, (b, c)) octet =
    let dot = codes "." in
    digits 2 a ++ (dot ++ (digits 2 b ++ (dot ++ (digits 2 c ++ (dot ++ digits 2 octet)))))

abbrev pub or_empty : Option (List ℕ) → List ℕ
or_empty none = []
or_empty (some pk) = pk

abbrev pub or_port : Option ℕ → ℕ
or_port none = 51820
or_port (some p) = p

abbrev pub internal_error : List ℕ → Response
internal_error e = (500, codes "{\"error\":\"internal error: " ++ (e ++ codes "\"}"))

module _ (hex_encode : List ℕ → List ℕ) where
  unfoldable pub build_success_response :
      List ℕ → PaymentConfigSnapshot → List ℕ → List ℕ → ℕ → List ℕ
  build_success_response ip pc public_ip server_pubkey listen_port =
      codes "{\"status\":\"ok\",\"server_public_key\":\""
      ++ (server_pubkey
          ++ (codes "\",\"endpoint\":\""
              ++ (public_ip
                  ++ (codes ":"
                      ++ (digits 4 listen_port
                          ++ (codes "\",\"assigned_ip\":\""
                              ++ (ip
                                  ++ (codes "/32\",\"chain_id\":"
                                      ++ (digits 19 pc.chain_id
                                          ++ (codes ",\"gateway_wallet\":\"0x"
                                              ++ (hex_encode pc.gateway_wallet
                                                  ++ (codes "\",\"usdc_contract\":\"0x"
                                                      ++ (hex_encode pc.usdc_contract
                                                          ++ (codes "\",\"amount_per_quota\":"
                                                            ++ (digits 19 pc.amount_per_quota
                                                            ++ (codes ",\"quota_bytes\":"
                                                            ++ (digits 19 pc.quota_bytes
                                                            ++ codes "}")))))))))))))))))

  -- The answer with a peer's address.
  abbrev pub success : RegistrationState → RegistrationInner → ℕ → Response
  success state inner octet = (
    200,
    build_success_response (ip_text state.subnet_prefix octet) state.payment_config state.public_ip
        (or_empty inner.server_pubkey_cache) (or_port inner.listen_port_cache),
  )

-- `available_ips.iter().next()`: the order of a `HashSet` is not specified.
pub record Choice : Type 0 where
  pub choose : List ℕ → Option ℕ
  pub choose-member : (xs : List ℕ) {n : ℕ} → choose xs ≡ some n → has_number n xs ≡ true
  pub choose-none : (xs : List ℕ) → choose xs ≡ none → xs ≡ []

-- The caches are filled when they are first needed.
abbrev pub cached :
    RegistrationInner → GetAnswer → Option (List ℕ) → Option Response × RegistrationInner
cached inner answer (some pk) = (none, inner)
cached inner (got (some pk) port peers) none =
    (none, record inner { server_pubkey_cache = some pk; listen_port_cache = port })
cached inner (got none port peers) none =
    (some (503, codes "{\"error\":\"server not configured yet\"}"), inner)
cached inner (get_failed e) none = (some (internal_error e), inner)

abbrev pub registered_as : RegistrationInner → List ℕ → Option ℕ
registered_as inner key =
    if has_key key inner.registered_peers then find key inner.peer_to_octet else none

-- The entries of a new peer.
abbrev pub assign : RegistrationInner → List ℕ → ℕ → ℕ → RegistrationInner
assign inner key octet now = record inner {
  available_ips = drop_number octet inner.available_ips;
  registered_peers = add_key key inner.registered_peers;
  peer_to_octet = put key octet inner.peer_to_octet;
  peer_registered_at = put key now inner.peer_registered_at;
}

abbrev pub release : RegistrationInner → List ℕ → ℕ → RegistrationInner
release inner key octet = record inner {
  available_ips = add_number octet inner.available_ips;
  registered_peers = drop_key key inner.registered_peers;
  peer_to_octet = erase key inner.peer_to_octet;
  peer_registered_at = erase key inner.peer_registered_at;
}

module _ (hex_encode : List ℕ → List ℕ) (choice : Choice) (state : RegistrationState) where
  abbrev pub allocated :
      RegistrationInner → List ℕ → ℕ → ℕ → SetAnswer → Response × RegistrationInner
  allocated inner key now octet (set_failed e) = (internal_error e, inner)
  allocated inner key now octet set_done =
      let inner₁ = assign inner key octet now in (success hex_encode state inner₁ octet, inner₁)

  abbrev pub allocate_by :
      RegistrationInner → List ℕ → (ℕ → SetAnswer) → ℕ → Option ℕ → Response × RegistrationInner
  allocate_by inner key set now none =
      ((503, codes "{\"error\":\"no addresses available\"}"), inner)
  allocate_by inner key set now (some octet) = allocated inner key now octet (set octet)

  abbrev pub place :
      RegistrationInner → List ℕ → (ℕ → SetAnswer) → ℕ → Option ℕ → Response × RegistrationInner
  place inner key set now (some octet) = (success hex_encode state inner octet, inner)
  place inner key set now none = allocate_by inner key set now (choice.choose inner.available_ips)

  abbrev pub register_by :
      Option Response × RegistrationInner
      → List ℕ
      → (ℕ → SetAnswer)
      → ℕ
      → Response × RegistrationInner
  register_by (some r, inner) key set now = (r, inner)
  register_by (none, inner) key set now = place inner key set now (registered_as inner key)

  -- A key that base64 does not give is `none`; what `set` answers depends on the address.
  unfoldable pub handle_registration :
      RegistrationInner
      → Option (List ℕ)
      → GetAnswer
      → (ℕ → SetAnswer)
      → ℕ
      → Response × RegistrationInner
  handle_registration inner none get set now =
      ((400, codes "{\"error\":\"invalid base64 encoding\"}"), inner)
  handle_registration inner (some bytes) get set now =
      if not (length bytes == 32)
      then ((400, codes "{\"error\":\"public key must be exactly 32 bytes\"}"), inner)
      else register_by (cached inner get inner.server_pubkey_cache) (hex_encode bytes) set now

  abbrev pub remove_by :
      RegistrationInner → List ℕ → RemoveAnswer → Option ℕ → Response × RegistrationInner
  remove_by inner key answer none = ((404, codes "{\"error\":\"peer not registered\"}"), inner)
  remove_by inner key (removed true) (some octet) =
      ((200, codes "{\"status\":\"ok\"}"), release inner key octet)
  remove_by inner key (removed false) (some octet) =
      ((500, codes "{\"error\":\"UAPI remove failed\"}"), inner)
  remove_by inner key (remove_failed e) (some octet) =
      ((500, codes "{\"error\":\"" ++ (e ++ codes "\"}")), inner)

  unfoldable pub handle_unregister :
      RegistrationInner → Option (List ℕ) → RemoveAnswer → Response × RegistrationInner
  handle_unregister inner none answer = ((400, codes "{\"error\":\"invalid public_key\"}"), inner)
  handle_unregister inner (some bytes) answer =
      if length bytes == 32
      then remove_by inner (hex_encode bytes) answer (find (hex_encode bytes) inner.peer_to_octet)
      else ((400, codes "{\"error\":\"invalid public_key\"}"), inner)
