-- ===== src/Device/Registration/Tests.antt =====
-- Registrations at concrete keys.
use xelt_vpn.Prelude.{
  ℕ, ◌<◌, ◌≡◌, refl, inr, false, true, List, [], ◌∷◌, Option, none, some, length, replicate, codes,
  arith,
}
use xelt_vpn.Prelude.Maps.{has_number, has_key, add_number, find}
use xelt_vpn.Noise.Errors.{ok}
use xelt_vpn.Noise.Session.{new}
use xelt_vpn.Noise.Timers.{new_timers, sub_duration}
use xelt_vpn.Noise.Tunn.{Tunn, new_tunn, put_session}
use xelt_vpn.Noise.Tunn.Clock.{time_since_last_handshake}
use xelt_vpn.Device.Registration.Reaped.{told_handshake, recent_reaped}
use xelt_vpn.Device.Sample.{peer}
use xelt_vpn.Device.Registration.{
  RegistrationInner, RegistrationState, Choice, GetAnswer, got, set_done, removed, new_inner,
  insert_range, handle_registration,
}
use xelt_vpn.Device.Registration.Service.{
  Request, registers, unregisters, reaps, object, human, serve_all, reap,
}
use xelt_vpn.Device.Registration.Pool.{Valid, new-Valid}
use xelt_vpn.Device.Registration.Run.{served-Valid}
use xelt_vpn.Device.Registration.Again.{Served, registered_again, registration-Served}

abbrev hex : List ℕ → List ℕ
hex bytes = bytes

-- The first of the list.
abbrev head : List ℕ → Option ℕ
head [] = none
head (x ∷ xs) = some x

head-member : (xs : List ℕ) {n : ℕ} → head xs ≡ some n → has_number n xs ≡ true
unfolding has_number
head-member [] e = cc
head-member (x ∷ xs) {n} e = ground arith

head-none : (xs : List ℕ) → head xs ≡ none → xs ≡ []
head-none [] e = refl
head-none (x ∷ xs) e = cc

abbrev first : Choice
first = record { choose = head; choose-member = head-member; choose-none = head-none }

abbrev state : RegistrationState
state = record {
  subnet_prefix = (10, (0, 0));
  payment_config = record {
    chain_id = 5042002;
    gateway_wallet = replicate 20 3;
    usdc_contract = replicate 20 2;
    amount_per_quota = 10_000;
    quota_bytes = 10_485_760;
  };
  public_ip = codes "203.0.113.7";
}

abbrev key : List ℕ
key = replicate 32 1

abbrev known : GetAnswer
known = got (some (codes "c2VydmVy")) (some 51820) []

abbrev requests : List Request
requests =
    registers true (object (some (some key)) (some (human (1 ∷ [])))) known (λ n. set_done) 5
    ∷ registers false (object (some (some (replicate 32 2))) none) known (λ n. set_done) 6
    ∷ unregisters (object (some (some key)) none) (removed true)
    ∷ reaps [] 1000 (λ k. removed true)
    ∷ []

served-Valid_example : Valid (serve_all hex first state new_inner requests)
served-Valid_example = served-Valid hex first state requests

registered :
    (handle_registration hex first state new_inner (some key) known (λ n. set_done) 5).0.0 ≡ 200
unfolding handle_registration new_inner insert_range add_number has_number has_key
registered = refl

registered_again_example :
    let one = handle_registration hex first state new_inner (some key) known (λ n. set_done) 5 in
    handle_registration hex first state one.1 (some key) known (λ n. set_done) 9 ≡ one
registered_again_example =
    registered_again hex first state new_inner key known known (λ n. set_done) (λ n. set_done) 5 9
      registered

-- A pool that knows its server's key.
abbrev warm : RegistrationInner
warm = record new_inner { server_pubkey_cache = some (codes "c2VydmVy") }

warm-Valid : Valid warm
warm-Valid = record {
  one_per_key = new-Valid.one_per_key;
  partition = new-Valid.partition;
  whole = new-Valid.whole;
  same_peers = new-Valid.same_peers;
}

warm_room : length warm.peer_to_octet < 253
unfolding new_inner
warm_room = omega arith

registration-Served_example :
    Served hex first state key
      (handle_registration hex first state warm (some key) known (λ n. set_done) 5)
registration-Served_example =
    registration-Served hex first state warm key (codes "c2VydmVy") known (λ n. set_done) 5
      warm-Valid warm_room refl refl (λ n. refl)

-- A tunnel whose session is half a second old.
abbrev just_met : Tunn
just_met = put_session peer.tunnel 0 (new 0 1 (replicate 32 4) (replicate 32 5))

half_a_second : time_since_last_handshake just_met 500_000_000 ≡ ok (some 500_000_000)
unfolding time_since_last_handshake new_tunn new_timers sub_duration
half_a_second = refl

abbrev one_registered : RegistrationInner
one_registered = record new_inner {
  registered_peers = key ∷ [];
  peer_to_octet = (key, 2) ∷ [];
  peer_registered_at = (key, 5) ∷ [];
}

has_octet : find key one_registered.peer_to_octet ≡ some 2
unfolding find
has_octet = refl

has_time : find key one_registered.peer_registered_at ≡ some 5
unfolding find
has_time = refl

is_told :
    find key ((key, some 0) ∷ [])
    ≡ some (told_handshake (time_since_last_handshake just_met 500_000_000))
unfolding find told_handshake
is_told = rw half_a_second refl

recent_reaped_example :
    find key (reap one_registered ((key, some 0) ∷ []) 700 (λ k. removed true)).peer_to_octet ≡ none
recent_reaped_example =
    recent_reaped one_registered ((key, some 0) ∷ []) 700 (λ k. removed true) key 2 5 just_met
      500_000_000 has_octet has_time is_told (inr (500_000_000, half_a_second, omega arith))
      (omega arith) refl
