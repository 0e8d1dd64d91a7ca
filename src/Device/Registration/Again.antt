-- ===== src/Device/Registration/Again.antt =====
-- A key that asks is answered: with its own address again, or with a free one.
use xelt_vpn.Prelude.{
  ℕ, ◌<◌, ◌≡◌, refl, sym, ap, ◌∙◌, subst, inl, inr, Bool, true, false, List, [], Option, none, some,
  ◌==◌, if◌then◌else◌, length, bytes_eq_self, Bool-cases, eq→==, ==→eq, ◌≢◌, arith,
}
use xelt_vpn.Prelude.Maps.{find-put, has_key-add_key}
use xelt_vpn.Device.Registration.{
  RegistrationInner, RegistrationState, Response, Choice, GetAnswer, got, get_failed, SetAnswer,
  set_done, set_failed, cached, registered_as, assign, success, allocated, allocate_by, place,
  register_by, handle_registration,
}
use xelt_vpn.Device.Registration.Pool.{Valid}

module _ (hex_encode : List ℕ → List ℕ) (choice : Choice) (state : RegistrationState) where
  -- What a state answers to a key that it has: from its caches, and nothing changes.
  abbrev Settled : List ℕ → Response × RegistrationInner → Type 0
  Settled key (r, s) =
      (octet : ℕ) × (pk : List ℕ) × (registered_as s key ≡ some octet)
      × (s.server_pubkey_cache ≡ some pk)
      × (r ≡ success hex_encode state s octet)

  -- An answer of success comes from a settled state.
  abbrev Settles : List ℕ → Response × RegistrationInner → Type 0
  Settles key x = x.0.0 ≡ 200 → Settled key x

  registered-assign :
      (s : RegistrationInner) (key : List ℕ) (octet now : ℕ)
      → registered_as (assign s key octet now) key ≡ some octet
  registered-assign s key octet now =
      rw
        (
          has_key-add_key key key s.registered_peers,
          find-put key key octet s.peer_to_octet,
          bytes_eq_self key,
        )
        refl

  allocated-Settles :
      (s : RegistrationInner) (key pk : List ℕ) (now octet : ℕ) (a : SetAnswer)
      → s.server_pubkey_cache ≡ some pk
      → Settles key (allocated hex_encode choice state s key now octet a)
  allocated-Settles s key pk now octet set_done c =
      λ h. (octet, pk, registered-assign s key octet now, c, refl)
  allocated-Settles s key pk now octet (set_failed e) c = λ h. absurd (omega (arith, h))

  allocate-Settles :
      (s : RegistrationInner) (key pk : List ℕ) (set : ℕ → SetAnswer) (now : ℕ) (octet : Option ℕ)
      → s.server_pubkey_cache ≡ some pk
      → Settles key (allocate_by hex_encode choice state s key set now octet)
  allocate-Settles s key pk set now none c = λ h. absurd (omega (arith, h))
  allocate-Settles s key pk set now (some octet) c =
      allocated-Settles s key pk now octet (set octet) c

  place-Settles :
      (s : RegistrationInner) (key pk : List ℕ) (set : ℕ → SetAnswer) (now : ℕ) (octet : Option ℕ)
      → s.server_pubkey_cache ≡ some pk
      → registered_as s key ≡ octet
      → Settles key (place hex_encode choice state s key set now octet)
  place-Settles s key pk set now (some octet) c e = λ h. (octet, pk, e, c, refl)
  place-Settles s key pk set now none c e =
      allocate-Settles s key pk set now (choice.choose s.available_ips) c

  cached-Settles :
      (s : RegistrationInner) (key : List ℕ) (get : GetAnswer) (set : ℕ → SetAnswer) (now : ℕ)
      (pk : Option (List ℕ))
      → s.server_pubkey_cache ≡ pk
      → Settles key (register_by hex_encode choice state (cached s get pk) key set now)
  cached-Settles s key get set now (some pk) c =
      place-Settles s key pk set now (registered_as s key) c refl
  cached-Settles s key (got (some pk) port peers) set now none c =
      let s₁ : RegistrationInner = record s {
        server_pubkey_cache = some pk;
        listen_port_cache = port;
      } in
      place-Settles s₁ key pk set now (registered_as s₁ key) refl refl
  cached-Settles s key (got none port peers) set now none c = λ h. absurd (omega (arith, h))
  cached-Settles s key (get_failed e) set now none c = λ h. absurd (omega (arith, h))

  if-Settles :
      (b : Bool) (key : List ℕ) (x y : Response × RegistrationInner)
      → Settles key x
      → Settles key y
      → Settles key (if b then x else y)
  if-Settles true key x y h k = h
  if-Settles false key x y h k = k

  -- A settled state answers again as before.
  answers-again :
      (key : List ℕ) (r : Response) (s : RegistrationInner) (get : GetAnswer) (set : ℕ → SetAnswer)
      (now : ℕ)
      → Settled key (r, s)
      → register_by hex_encode choice state (cached s get s.server_pubkey_cache) key set now
        ≡ (r, s)
  answers-again key r s get set now (octet, pk, e, c, same) =
      ap (λ o. register_by hex_encode choice state (cached s get o) key set now) c
      ∙ ap (place hex_encode choice state s key set now) e
      ∙ ap (λ x. (x, s)) (sym same)

  -- A key that is 32 bytes long goes to `register_by`, any other is refused.
  long_enough :
      (s : RegistrationInner) (bytes : List ℕ) (get : GetAnswer) (set : ℕ → SetAnswer) (now : ℕ)
      → length bytes ≡ 32
      → handle_registration hex_encode choice state s (some bytes) get set now
        ≡ register_by hex_encode choice state
            (cached s get s.server_pubkey_cache)
            (hex_encode bytes)
            set
            now
  unfolding handle_registration
  long_enough s bytes get set now h = rw (eq→== (length bytes) 32 h) refl

  size_of_success :
      (s : RegistrationInner) (bytes : List ℕ) (get : GetAnswer) (set : ℕ → SetAnswer) (now : ℕ)
      → (handle_registration hex_encode choice state s (some bytes) get set now).0.0 ≡ 200
      → length bytes ≡ 32
  unfolding handle_registration
  size_of_success s bytes get set now h = elim (Bool-cases (length bytes == 32)) [
    | inl q ↦ ==→eq (length bytes) 32 q
    | inr q ↦ absurd (ground (arith, q, h))
  ]

  -- A registration that succeeds, and is asked for again right away, succeeds again with the same
  -- answer, the same address in it, and leaves the state as it is, whatever the socket answers then.
  pub registered_again :
      (s : RegistrationInner) (bytes : List ℕ) (get get' : GetAnswer) (set set' : ℕ → SetAnswer)
      (now now' : ℕ)
      → (handle_registration hex_encode choice state s (some bytes) get set now).0.0 ≡ 200
      → let first = handle_registration hex_encode choice state s (some bytes) get set now in
        handle_registration hex_encode choice state first.1 (some bytes) get' set' now' ≡ first
  registered_again s bytes get get' set set' now now' h =
      let size = size_of_success s bytes get set now h in
      let key = hex_encode bytes in
      let e = long_enough s bytes get set now size in
      let first = handle_registration hex_encode choice state s (some bytes) get set now in
      let settled : Settled key first =
        subst (λ x. Settles key x) (sym e)
          (cached-Settles s key get set now s.server_pubkey_cache refl) h in
      long_enough first.1 bytes get' set' now' size
      ∙ answers-again key first.0 first.1 get' set' now' settled

  -- The answer to a key, and the address that it has then.
  abbrev pub Served : List ℕ → Response × RegistrationInner → Type 0
  Served key x =
      (octet : ℕ) × (registered_as x.1 key ≡ some octet)
      × (x.0 ≡ success hex_encode state x.1 octet)

  allocate-Served :
      (s : RegistrationInner) (key : List ℕ) (set : ℕ → SetAnswer) (now : ℕ) (octet : Option ℕ)
      → ((n : ℕ) → set n ≡ set_done)
      → octet ≢ none
      → Served key (allocate_by hex_encode choice state s key set now octet)
  allocate-Served s key set now none done free = absurd (free refl)
  allocate-Served s key set now (some octet) done free =
      subst (λ a. Served key (allocated hex_encode choice state s key now octet a))
        (sym (done octet)) (octet, registered-assign s key octet now, refl)

  place-Served :
      (s : RegistrationInner) (key : List ℕ) (set : ℕ → SetAnswer) (now : ℕ) (octet : Option ℕ)
      → registered_as s key ≡ octet
      → ((n : ℕ) → set n ≡ set_done)
      → choice.choose s.available_ips ≢ none
      → Served key (place hex_encode choice state s key set now octet)
  place-Served s key set now (some octet) e done free = (octet, e, refl)
  place-Served s key set now none e done free =
      allocate-Served s key set now (choice.choose s.available_ips) done free

  -- While fewer than 253 peers have an address, every key of 32 bytes gets one: with the server's key
  -- known, and the tunnel accepting the peer, the answer is one of success.
  pub registration-Served :
      (s : RegistrationInner) (bytes pk : List ℕ) (get : GetAnswer) (set : ℕ → SetAnswer) (now : ℕ)
      → Valid s
      → length s.peer_to_octet < 253
      → length bytes ≡ 32
      → s.server_pubkey_cache ≡ some pk
      → ((n : ℕ) → set n ≡ set_done)
      → Served
          (hex_encode bytes)
          (handle_registration hex_encode choice state s (some bytes) get set now)
  registration-Served s bytes pk get set now v room size c done =
      let key = hex_encode bytes in
      let free : choice.choose s.available_ips ≢ none = λ e.
        let empty : s.available_ips ≡ [] = choice.choose-none s.available_ips e in
        omega (arith, v.whole, ap length empty) in
      let path =
        long_enough s bytes get set now size
        ∙ ap (λ o. register_by hex_encode choice state (cached s get o) key set now) c in
      subst (λ x. Served key x) (sym path)
        (place-Served s key set now (registered_as s key) refl done free)
