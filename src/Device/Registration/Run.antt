-- ===== src/Device/Registration/Run.antt =====
-- The pool stays in order, whatever is requested.
use xelt_vpn.Prelude.{
  ℕ, ◌≡◌, refl, inl, inr, Bool, true, false, not, List, [], ◌∷◌, Option, none, some, ◌==◌,
  if◌then◌else◌, length, bytes_eq→eq, bytes_eq_self, Bool-cases, arith,
}
use xelt_vpn.Prelude.Maps.{has_number, has_key, find, find-erase, erase, is_found, OnePerKey}
use xelt_vpn.Device.Registration.{
  RegistrationInner, RegistrationState, Response, Choice, Peers, GetAnswer, got, get_failed,
  SetAnswer, set_done, set_failed, RemoveAnswer, removed, remove_failed, new_inner, cached,
  registered_as, allocated, allocate_by, place, register_by, handle_registration, remove_by,
  handle_unregister,
}
use xelt_vpn.Device.Registration.Service.{
  Verified, human, unverified, invalid_json, object, human_check, stale_by, stale_entries, reap_one,
  reap_entries, reap, register_checked, handle_registration_v2, handle_unregister_v2, Request,
  registers, unregisters, reaps, serve, serve_all,
}
use xelt_vpn.Device.Registration.Pool.{Valid, new-Valid, assign-Valid, release-Valid}

-- Each entry of a list is the one that the map has for its key.
abbrev AllFound : List (List ℕ × ℕ) → List (List ℕ × ℕ) → Type 0
AllFound [] m = Unit
AllFound ((k, o) ∷ es) m = (find k m ≡ some o) × AllFound es m

found-cons :
    (k : List ℕ) (o : ℕ) (es m : List (List ℕ × ℕ))
    → find k m ≡ none
    → AllFound es m
    → AllFound es ((k, o) ∷ m)
unfolding find
found-cons k o [] m h a = tt
found-cons k o ((j, v) ∷ es) m h (e, a) = (ground (arith, bytes_eq→eq k j), found-cons k o es m h a)

found_self : (m : List (List ℕ × ℕ)) → OnePerKey m → AllFound m m
unfolding find
found_self [] u = tt
found_self ((k, o) ∷ m) (h, u) = (rw (bytes_eq_self k) refl, found-cons k o m m h (found_self m u))

stale-AllFound :
    (peers : Peers) (at : List (List ℕ × ℕ)) (now : ℕ) (es m : List (List ℕ × ℕ))
    → AllFound es m
    → AllFound (stale_entries peers at now es) m
unfolding stale_entries
stale-AllFound peers at now [] m a = tt
stale-AllFound peers at now ((k, o) ∷ es) m (e, a) =
    elim (Bool-cases (stale_by (find k peers) (find k at) now)) [
      | inl q ↦ rw q (e, stale-AllFound peers at now es m a)
      | inr q ↦ rw q (stale-AllFound peers at now es m a)
    ]

stale-absent :
    (peers : Peers) (at : List (List ℕ × ℕ)) (now : ℕ) (k : List ℕ) (es : List (List ℕ × ℕ))
    → find k es ≡ none
    → find k (stale_entries peers at now es) ≡ none
unfolding stale_entries find
stale-absent peers at now k [] h = refl
stale-absent peers at now k ((j, o) ∷ es) h = ground (arith, stale-absent peers at now k es)

stale-OnePerKey :
    (peers : Peers) (at : List (List ℕ × ℕ)) (now : ℕ) (es : List (List ℕ × ℕ))
    → OnePerKey es
    → OnePerKey (stale_entries peers at now es)
unfolding stale_entries
stale-OnePerKey peers at now [] u = tt
stale-OnePerKey peers at now ((k, o) ∷ es) (h, u) =
    elim (Bool-cases (stale_by (find k peers) (find k at) now)) [
      | inl q ↦ rw q (stale-absent peers at now k es h, stale-OnePerKey peers at now es u)
      | inr q ↦ rw q (stale-OnePerKey peers at now es u)
    ]

-- Erasing another key keeps the entries.
found-erase :
    (k : List ℕ) (es m : List (List ℕ × ℕ))
    → find k es ≡ none
    → AllFound es m
    → AllFound es (erase k m)
unfolding find
found-erase k [] m h a = tt
found-erase k ((j, o) ∷ es) m h (e, a) = (
  ground (arith, find-erase k j m, bytes_eq→eq k j, bytes_eq_self j),
  found-erase k es m (ground arith) a,
)

reap_one-Valid :
    (s : RegistrationInner) (k : List ℕ) (o : ℕ) (es : List (List ℕ × ℕ)) (r : RemoveAnswer)
    → Valid s
    → find k s.peer_to_octet ≡ some o
    → find k es ≡ none
    → AllFound es s.peer_to_octet
    → Valid (reap_one s k o r) × AllFound es (reap_one s k o r).peer_to_octet
reap_one-Valid s k o es (removed true) v e h a =
    (release-Valid s k o v e, found-erase k es s.peer_to_octet h a)
reap_one-Valid s k o es (removed false) v e h a = (v, a)
reap_one-Valid s k o es (remove_failed t) v e h a = (v, a)

reap_entries-Valid :
    (answer : List ℕ → RemoveAnswer) (es : List (List ℕ × ℕ)) (s : RegistrationInner)
    → Valid s
    → OnePerKey es
    → AllFound es s.peer_to_octet
    → Valid (reap_entries answer es s)
unfolding reap_entries
reap_entries-Valid answer [] s v u a = v
reap_entries-Valid answer ((k, o) ∷ es) s v (h, u) (e, a) =
    let (v', a') = reap_one-Valid s k o es (answer k) v e h a in
    reap_entries-Valid answer es (reap_one s k o (answer k)) v' u a'

reap-Valid :
    (s : RegistrationInner) (peers : Peers) (now : ℕ) (answer : List ℕ → RemoveAnswer)
    → Valid s
    → Valid (reap s peers now answer)
unfolding reap
reap-Valid s peers now answer v =
    let m = s.peer_to_octet in
    reap_entries-Valid answer (stale_entries peers s.peer_registered_at now m) s v
      (stale-OnePerKey peers s.peer_registered_at now m v.one_per_key)
      (stale-AllFound peers s.peer_registered_at now m m (found_self m v.one_per_key))

module _ (hex_encode : List ℕ → List ℕ) (choice : Choice) (state : RegistrationState) where
  cached-Valid :
      (s : RegistrationInner) (get : GetAnswer) (pk : Option (List ℕ))
      → Valid s
      → Valid (cached s get pk).1
  cached-Valid s get (some pk) v = v
  cached-Valid s (got (some pk) port peers) none v = record {
    one_per_key = v.one_per_key;
    partition = v.partition;
    whole = v.whole;
    same_peers = v.same_peers;
  }
  cached-Valid s (got none port peers) none v = v
  cached-Valid s (get_failed e) none v = v

  -- A peer that is not registered has no address.
  absent :
      (s : RegistrationInner) (key : List ℕ)
      → Valid s
      → registered_as s key ≡ none
      → find key s.peer_to_octet ≡ none
  absent s key v h =
      no_entry (find key s.peer_to_octet) (has_key key s.registered_peers) (v.same_peers key) h
    where
      no_entry :
          (o : Option ℕ) (b : Bool) → b ≡ is_found o → (if b then o else none) ≡ none → o ≡ none
      no_entry none b e k = refl
      no_entry (some n) b e k = ground arith

  allocated-Valid :
      (s : RegistrationInner) (key : List ℕ) (now octet : ℕ) (r : SetAnswer)
      → Valid s
      → find key s.peer_to_octet ≡ none
      → has_number octet s.available_ips ≡ true
      → Valid (allocated hex_encode choice state s key now octet r).1
  allocated-Valid s key now octet set_done v a f = assign-Valid s key octet now v a f
  allocated-Valid s key now octet (set_failed e) v a f = v

  allocate-Valid :
      (s : RegistrationInner) (key : List ℕ) (set : ℕ → SetAnswer) (now : ℕ) (octet : Option ℕ)
      → Valid s
      → find key s.peer_to_octet ≡ none
      → choice.choose s.available_ips ≡ octet
      → Valid (allocate_by hex_encode choice state s key set now octet).1
  allocate-Valid s key set now none v a c = v
  allocate-Valid s key set now (some octet) v a c =
      allocated-Valid s key now octet (set octet) v a (choice.choose-member s.available_ips c)

  place-Valid :
      (s : RegistrationInner) (key : List ℕ) (set : ℕ → SetAnswer) (now : ℕ) (octet : Option ℕ)
      → Valid s
      → registered_as s key ≡ octet
      → Valid (place hex_encode choice state s key set now octet).1
  place-Valid s key set now (some octet) v e = v
  place-Valid s key set now none v e =
      allocate-Valid s key set now (choice.choose s.available_ips) v (absent s key v e) refl

  register_by-Valid :
      (r : Option Response × RegistrationInner) (key : List ℕ) (set : ℕ → SetAnswer) (now : ℕ)
      → Valid r.1
      → Valid (register_by hex_encode choice state r key set now).1
  register_by-Valid (some r, s) key set now v = v
  register_by-Valid (none, s) key set now v = place-Valid s key set now (registered_as s key) v refl

  if-Valid :
      (b : Bool) (x y : Response × RegistrationInner)
      → Valid x.1
      → Valid y.1
      → Valid (if b then x else y).1
  if-Valid true x y v w = v
  if-Valid false x y v w = w

  registration-Valid :
      (s : RegistrationInner) (key : Option (List ℕ)) (get : GetAnswer) (set : ℕ → SetAnswer)
      (now : ℕ)
      → Valid s
      → Valid (handle_registration hex_encode choice state s key get set now).1
  unfolding handle_registration
  registration-Valid s none get set now v = v
  registration-Valid s (some bytes) get set now v = if-Valid (not (length bytes == 32)) _ _ v (
      register_by-Valid (cached s get s.server_pubkey_cache) (hex_encode bytes) set now
        (cached-Valid s get s.server_pubkey_cache v))

  remove_by-Valid :
      (s : RegistrationInner) (key : List ℕ) (answer : RemoveAnswer) (octet : Option ℕ)
      → Valid s
      → find key s.peer_to_octet ≡ octet
      → Valid (remove_by hex_encode choice state s key answer octet).1
  remove_by-Valid s key answer none v e = v
  remove_by-Valid s key (removed true) (some octet) v e = release-Valid s key octet v e
  remove_by-Valid s key (removed false) (some octet) v e = v
  remove_by-Valid s key (remove_failed t) (some octet) v e = v

  unregister-Valid :
      (s : RegistrationInner) (key : Option (List ℕ)) (answer : RemoveAnswer)
      → Valid s
      → Valid (handle_unregister hex_encode choice state s key answer).1
  unfolding handle_unregister
  unregister-Valid s none answer v = v
  unregister-Valid s (some bytes) answer v =
      if-Valid (length bytes == 32) _ _
        (remove_by-Valid s (hex_encode bytes) answer (find (hex_encode bytes) s.peer_to_octet) v
          refl)
        v

  checked-Valid :
      (r : Option Response × RegistrationInner) (key : Option (List ℕ)) (get : GetAnswer)
      (set : ℕ → SetAnswer) (now : ℕ)
      → Valid r.1
      → Valid (register_checked hex_encode choice state r key get set now).1
  checked-Valid (some r, s) key get set now v = v
  checked-Valid (none, s) key get set now v = registration-Valid s key get set now v

  human_check-Valid :
      (only : Bool) (s : RegistrationInner) (proof : Option Verified)
      → Valid s
      → Valid (human_check only s proof).1
  human_check-Valid false s proof v = v
  human_check-Valid true s none v = v
  human_check-Valid true s (some (human n)) v = record {
    one_per_key = v.one_per_key;
    partition = v.partition;
    whole = v.whole;
    same_peers = v.same_peers;
  }
  human_check-Valid true s (some (unverified e)) v = v

  serve-Valid :
      (s : RegistrationInner) (r : Request) → Valid s → Valid (serve hex_encode choice state s r)
  unfolding serve handle_registration_v2 handle_unregister_v2
  serve-Valid s (registers only invalid_json get set now) v = v
  serve-Valid s (registers only (object none proof) get set now) v = v
  serve-Valid s (registers only (object (some key) proof) get set now) v =
      checked-Valid (human_check only s proof) key get set now (human_check-Valid only s proof v)
  serve-Valid s (unregisters invalid_json answer) v = v
  serve-Valid s (unregisters (object none proof) answer) v = v
  serve-Valid s (unregisters (object (some key) proof) answer) v = unregister-Valid s key answer v
  serve-Valid s (reaps peers now answer) v = reap-Valid s peers now answer v

  serve_all-Valid :
      (s : RegistrationInner) (rs : List Request)
      → Valid s
      → Valid (serve_all hex_encode choice state s rs)
  unfolding serve_all
  serve_all-Valid s [] v = v
  serve_all-Valid s (r ∷ rs) v =
      serve_all-Valid (serve hex_encode choice state s r) rs (serve-Valid s r v)

  -- From the start, whatever is requested in whatever order and whatever the configuration socket
  -- answers: no key has two addresses, each of the addresses 2 to 254 is free or one peer's and no
  -- other is either, and the registered peers are those with an address.
  pub served-Valid : (rs : List Request) → Valid (serve_all hex_encode choice state new_inner rs)
  served-Valid rs = serve_all-Valid new_inner rs new-Valid
