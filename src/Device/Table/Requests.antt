-- ===== src/Device/Table/Requests.antt =====
-- What a request of the registration service comes to on the device: its message, the configuration
-- protocol, and the maps.
use mathlib.Core.Option.{bind}
use xelt_vpn.Prelude.{
  ℕ, ◌≡◌, refl, ap, ◌∙◌, inl, inr, Option-cases, Bool, true, false, List, [], ◌∷◌, none, some,
  if◌then◌else◌, length, map, bytes_eq_self, eq→==,
}
use xelt_vpn.Prelude.Index.{find_at}
use xelt_vpn.Prelude.Maps.{find, has_number, find-put}
use xelt_vpn.Noise.Crypto.{Crypto}
use xelt_vpn.Noise.Outcome.{v4}
use xelt_vpn.Payment.Quota.{default_quota_bytes}
use xelt_vpn.Payment.Quota
use xelt_vpn.Payment.Wallet.{Secp}
use xelt_vpn.Device.Api.{Parsers, DeviceCall, Section, new_section, update_peer, api_set}
use xelt_vpn.Device.Api.Key.{bytes_of_hex}
use xelt_vpn.Device.Api.Requests.{set_peer_message, set_understood}
use xelt_vpn.Device.Index.{IndexLfsr}
use xelt_vpn.Device.Index
use xelt_vpn.Device.Peer.{Peer, new_peer}
use xelt_vpn.Device.Table.{
  Table, World, InsertNetwork, add_peer, made_peer, are_networks, configure_peer, perform,
  perform_all,
}
use xelt_vpn.Device.Table.Add.{AddsOne, add_peer-Linked}
use xelt_vpn.Device.Table.Linked.{Linked}

-- The calls of a set of commands, all in one surrounding.
abbrev pub calls_in : World → List DeviceCall → List (World × DeviceCall)
calls_in w calls = map (λ call. (w, call)) calls

module _ (crypto : Crypto) (secp : Secp) (insert : InsertNetwork) (parsers : Parsers)
    (succeeds : DeviceCall → Bool) (w : World) (t : Table) (l : Linked t) (key_hex key : List ℕ)
    (size : length key_hex ≡ 64) (decodes : bytes_of_hex key_hex ≡ some key) where
  one_call :
      (s : Section)
      → perform_all crypto secp insert t (calls_in w (update_peer s ∷ []))
        ≡ configure_peer crypto secp insert w t s
  unfolding perform_all perform bind
  one_call s = elim (Option-cases (configure_peer crypto secp insert w t s)) [
    | inl q ↦ rw q refl
    | inr (t', q) ↦ rw q refl
  ]

  module _ (ip addr : List ℕ) (reads : parsers.parse_ip ip ≡ some (v4 addr))
      (plain : has_number b'/' ip ≡ false) (adds : AddsOne insert) where
    -- What a registered peer is: new under its key, with its index, its address alone and the default
    -- quota.
    abbrev pub Registered : Table → ℕ → Type 0
    Registered t' index =
        Linked t'
        × (p : Peer) × (find key t'.peers ≡ some t.next_arc)
        × (t'.arcs t.next_arc ≡ some p)
        × (p.index ≡ index)
        × (p.allowed_ips ≡ record { addr = v4 addr; cidr = 32 } ∷ [])
        × (p.quota ≡ some (Quota.new default_quota_bytes))

    -- After the service's message for a registration the device has a peer with the key, the address
    -- and the default quota, under the next index; the device has a key pair, the peer's key is new, and
    -- so is the index.
    pub set_message-Registered :
        (private public : List ℕ) (index : ℕ) (g : IndexLfsr)
        → t.key_pair ≡ some (private, public)
        → find key t.peers ≡ none
        → Index.next t.next_index ≡ some (index, g)
        → find_at index t.peers_by_idx ≡ none
        → (t' : Table) × (perform_all crypto secp insert t
              (calls_in w (api_set parsers succeeds (set_peer_message key_hex ip)).1)
            ≡ some t')
          × Registered t' index
    unfolding configure_peer bind new_peer are_networks
    set_message-Registered private public index g pair new given free =
        let s : Section = record (new_section key) {
          replace_ips = true;
          allowed_ips = record { addr = v4 addr; cidr = 32 } ∷ [];
        } in
        let p = made_peer crypto secp insert w s private index in
        let t' = add_peer insert t s index g p in
        let done : configure_peer crypto secp insert w t s ≡ some t' = rw (new, given, pair) refl in
        (
          t',
          ap (λ r. perform_all crypto secp insert t (calls_in w r.1))
                (set_understood parsers succeeds key_hex key size decodes ip addr reads plain)
              ∙ one_call s
              ∙ done,
          (
            add_peer-Linked insert adds t s index g p l new free refl,
            p,
            find-put key key t.next_arc t.peers
                ∙ ap (λ b. if b then some t.next_arc else find key t.peers) (bytes_eq_self key),
            ap (λ b. if b then some p else t.arcs t.next_arc) (eq→== t.next_arc t.next_arc refl),
            refl,
            refl,
            refl,
          ),
        )
