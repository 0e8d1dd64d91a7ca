-- ===== src/Device/Registration/Service.antt =====
-- What stands around the handlers in protocol/boringtun/src/device/http_api.rs: the checks of a
-- human-only node, and one cycle of the reaper.
use xelt_vpn.Prelude.{
  ℕ, ◌-◌, Bool, true, false, List, [], ◌∷◌, ◌++◌, Option, none, some, ltb, if◌then◌else◌, length,
  codes, digits,
}
use xelt_vpn.Prelude.Maps.{find, add_key}
use xelt_vpn.Device.Registration.{
  RegistrationInner, RegistrationState, Response, Choice, Peers, GetAnswer, SetAnswer, RemoveAnswer,
  removed, remove_failed, release, handle_registration, handle_unregister,
}

abbrev pub stale_peer_secs : ℕ
stale_peer_secs = 600

abbrev pub stale_never_connected_secs : ℕ
stale_never_connected_secs = 600

-- What the verification service says of a proof: the nullifier, or an error.
pub data Verified : Type 0 where
  human : List ℕ → Verified
  unverified : List ℕ → Verified

-- A body as the JSON parser gives it: the key, decoded or not, and what was said of the proof.
pub data Body : Type 0 where
  invalid_json : Body
  object : Option (Option (List ℕ)) → Option Verified → Body

abbrev pub note_nullifier : RegistrationInner → List ℕ → RegistrationInner
note_nullifier inner nullifier = record inner {
  used_nullifiers = add_key nullifier inner.used_nullifiers;
}

-- The refusal of a human-only node, if any, and the nullifier noted.
abbrev pub human_check :
    Bool → RegistrationInner → Option Verified → Option Response × RegistrationInner
human_check false inner proof = (none, inner)
human_check true inner none =
    (some (400, codes "{\"error\":\"world_proof required for human-only nodes\"}"), inner)
human_check true inner (some (human nullifier)) = (none, note_nullifier inner nullifier)
human_check true inner (some (unverified e)) =
    (some (400, codes "{\"error\":\"World ID verification failed: " ++ (e ++ codes "\"}")), inner)

-- The entries of peers that are gone from the tunnel, or had no handshake for too long.
abbrev pub stale_since : Option ℕ → ℕ → Bool
stale_since none now = false
stale_since (some registered_at) now = ltb stale_never_connected_secs (now - registered_at)

abbrev pub stale_by : Option (Option ℕ) → Option ℕ → ℕ → Bool
stale_by none registered_at now = true
stale_by (some none) registered_at now = stale_since registered_at now
stale_by (some (some handshake_sec)) registered_at now =
    if ltb 0 handshake_sec then ltb stale_peer_secs handshake_sec else stale_since registered_at now

unfoldable pub stale_entries : Peers → List (List ℕ × ℕ) → ℕ → List (List ℕ × ℕ) → List (List ℕ × ℕ)
stale_entries peers registered_at now [] = []
stale_entries peers registered_at now ((key, octet) ∷ m) =
    let rest = stale_entries peers registered_at now m in
    if stale_by (find key peers) (find key registered_at) now then (key, octet) ∷ rest else rest

-- The state changes only where the tunnel has let go of the peer.
abbrev pub reap_one : RegistrationInner → List ℕ → ℕ → RemoveAnswer → RegistrationInner
reap_one inner key octet (removed true) = release inner key octet
reap_one inner key octet (removed false) = inner
reap_one inner key octet (remove_failed e) = inner

unfoldable pub reap_entries :
    (List ℕ → RemoveAnswer) → List (List ℕ × ℕ) → RegistrationInner → RegistrationInner
reap_entries answer [] inner = inner
reap_entries answer ((key, octet) ∷ es) inner =
    reap_entries answer es (reap_one inner key octet (answer key))

-- One cycle, once the tunnel's peers are known.
unfoldable pub reap : RegistrationInner → Peers → ℕ → (List ℕ → RemoveAnswer) → RegistrationInner
reap inner peers now answer =
    reap_entries answer (stale_entries peers inner.peer_registered_at now inner.peer_to_octet) inner

abbrev pub health : RegistrationInner → Response
health inner = (
  200,
  codes "{\"pool_available\":"
      ++ (digits 19 (length inner.available_ips)
          ++ (codes ",\"peer_count\":"
              ++ (digits 19 (length inner.registered_peers) ++ codes "}"))),
)

-- What reaches the state, in its order.
pub data Request : Type 0 where
  registers : Bool → Body → GetAnswer → (ℕ → SetAnswer) → ℕ → Request
  unregisters : Body → RemoveAnswer → Request
  reaps : Peers → ℕ → (List ℕ → RemoveAnswer) → Request

module _ (hex_encode : List ℕ → List ℕ) (choice : Choice) (state : RegistrationState) where
  abbrev pub register_checked :
      Option Response × RegistrationInner
      → Option (List ℕ)
      → GetAnswer
      → (ℕ → SetAnswer)
      → ℕ
      → Response × RegistrationInner
  register_checked (some r, inner) key get set now = (r, inner)
  register_checked (none, inner) key get set now =
      handle_registration hex_encode choice state inner key get set now

  unfoldable pub handle_registration_v2 :
      Bool
      → RegistrationInner
      → Body
      → GetAnswer
      → (ℕ → SetAnswer)
      → ℕ
      → Response × RegistrationInner
  handle_registration_v2 human_only inner invalid_json get set now =
      ((400, codes "{\"error\":\"invalid JSON\"}"), inner)
  handle_registration_v2 human_only inner (object none proof) get set now =
      ((400, codes "{\"error\":\"missing public_key field\"}"), inner)
  handle_registration_v2 human_only inner (object (some key) proof) get set now =
      register_checked (human_check human_only inner proof) key get set now

  unfoldable pub handle_unregister_v2 :
      RegistrationInner → Body → RemoveAnswer → Response × RegistrationInner
  handle_unregister_v2 inner invalid_json answer =
      ((400, codes "{\"error\":\"invalid JSON\"}"), inner)
  handle_unregister_v2 inner (object none proof) answer =
      ((400, codes "{\"error\":\"missing public_key field\"}"), inner)
  handle_unregister_v2 inner (object (some key) proof) answer =
      handle_unregister hex_encode choice state inner key answer

  unfoldable pub serve : RegistrationInner → Request → RegistrationInner
  serve inner (registers human_only body get set now) =
      (handle_registration_v2 human_only inner body get set now).1
  serve inner (unregisters body answer) = (handle_unregister_v2 inner body answer).1
  serve inner (reaps peers now answer) = reap inner peers now answer

  unfoldable pub serve_all : RegistrationInner → List Request → RegistrationInner
  serve_all inner [] = inner
  serve_all inner (r ∷ rs) = serve_all (serve inner r) rs
