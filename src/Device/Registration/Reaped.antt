-- ===== src/Device/Registration/Reaped.antt =====
-- The reaper of protocol/boringtun/src/device/http_api.rs over what `api_get` of
-- protocol/boringtun/src/device/api.rs tells of a peer's last handshake.
use xelt_vpn.Prelude.{
  ℕ, ◌+◌, ◌/◌, ◌<◌, ◌≡◌, refl, sym, ap, ◌∙◌, ◌⊎◌, inl, inr, true, false, List, [], ◌∷◌, Option,
  none, some, if◌then◌else◌, bytes_eq, bytes_eq→eq, Bool-cases, arith,
}
use xelt_vpn.Prelude.Maps.{find, find-erase, erase-none}
use xelt_vpn.Noise.Errors.{Result, ok, err, panic}
use xelt_vpn.Noise.Handshake.Timestamp.{nanos_per_sec}
use xelt_vpn.Noise.Tunn.{Tunn}
use xelt_vpn.Noise.Tunn.Clock.{time_since_last_handshake}
use xelt_vpn.Device.Registration.{RegistrationInner, Peers, RemoveAnswer, removed, remove_failed}
use xelt_vpn.Device.Registration.Service.{
  stale_since, stale_by, stale_entries, reap_one, reap_entries, reap, stale_never_connected_secs,
}

-- The whole seconds since the last handshake, where there is a session; `none` where no line is written, as
-- where the difference of the times panics.
unfoldable pub told_handshake : Result (Option ℕ) → Option ℕ
told_handshake (ok (some d)) = some (d / nanos_per_sec)
told_handshake (ok none) = none
told_handshake (err e) = none
told_handshake panic = none

-- No current session, or a handshake less than a second ago.
abbrev pub LooksUnmet : Tunn → ℕ → Type 0
LooksUnmet t clock =
    (time_since_last_handshake t clock ≡ ok none)
    ⊎ ((d : ℕ) × (time_since_last_handshake t clock ≡ ok (some d)) × (d < nanos_per_sec))

module _ (answer : List ℕ → RemoveAnswer) (key : List ℕ) where
  stays_gone_one :
      (inner : RegistrationInner) (k : List ℕ) (octet : ℕ) (a : RemoveAnswer)
      → find key inner.peer_to_octet ≡ none
      → find key (reap_one inner k octet a).peer_to_octet ≡ none
  stays_gone_one inner k octet (removed true) gone = erase-none k key inner.peer_to_octet gone
  stays_gone_one inner k octet (removed false) gone = gone
  stays_gone_one inner k octet (remove_failed e) gone = gone

  stays_gone :
      (es : List (List ℕ × ℕ)) (inner : RegistrationInner)
      → find key inner.peer_to_octet ≡ none
      → find key (reap_entries answer es inner).peer_to_octet ≡ none
  unfolding reap_entries
  stays_gone [] inner gone = gone
  stays_gone ((k, octet) ∷ es) inner gone =
      stays_gone es (reap_one inner k octet (answer k))
        (stays_gone_one inner k octet (answer k) gone)

  module _ (peers : Peers) (registered : List (List ℕ × ℕ)) (now : ℕ)
      (lets_go : answer key ≡ removed true)
      (stale : stale_by (find key peers) (find key registered) now ≡ true) where
    goes :
        (m : List (List ℕ × ℕ)) (inner : RegistrationInner) {octet : ℕ}
        → find key m ≡ some octet
        → find key (reap_entries answer (stale_entries peers registered now m) inner).peer_to_octet
          ≡ none
    unfolding stale_entries reap_entries find
    goes [] inner e = cc
    goes ((k, o) ∷ m) inner e = elim (Bool-cases (bytes_eq k key)) [
      | inl q ↦
          let same : k ≡ key = bytes_eq→eq k key q in
          let its_stale : stale_by (find k peers) (find k registered) now ≡ true =
            ap (λ x. stale_by (find x peers) (find x registered) now) same ∙ stale in
          let let_go : answer k ≡ removed true = ap answer same ∙ lets_go in
          rw its_stale (
            stays_gone (stale_entries peers registered now m) (reap_one inner k o (answer k)) (
              ap (λ a. find key (reap_one inner k o a).peer_to_octet) let_go
              ∙ find-erase k key inner.peer_to_octet
              ∙ ap (λ b. if b then none else find key inner.peer_to_octet) q))
      | inr q ↦
          let before = sym (ap (λ b. if b then some o else find key m) q) ∙ e in
          elim (Bool-cases (stale_by (find k peers) (find k registered) now)) [
            | inl y ↦ rw y (goes m (reap_one inner k o (answer k)) before)
            | inr n ↦ rw n (goes m inner before)
          ]
    ]

told-unmet :
    (t : Tunn) (clock : ℕ)
    → LooksUnmet t clock
    → (r : Option ℕ) (now : ℕ)
    → stale_by (some (told_handshake (time_since_last_handshake t clock))) r now ≡ stale_since r now
unfolding told_handshake
told-unmet t clock (inl e) r now = rw e refl
told-unmet t clock (inr (d, e, lt)) r now =
    let zero_secs : d / nanos_per_sec ≡ 0 = omega (arith, lt) in rw (e, zero_secs) refl

-- A registered peer whose last handshake was less than a second ago, or that has no current session, is
-- dropped by the reaper once it has been registered for more than 600 seconds, whenever its last
-- handshake was, if the tunnel lets go of it. What is told of its handshake is what `api_get` writes.
pub recent_reaped :
    (inner : RegistrationInner) (peers : Peers) (now : ℕ) (answer : List ℕ → RemoveAnswer)
    (key : List ℕ) (octet registered_at : ℕ) (t : Tunn) (clock : ℕ)
    → find key inner.peer_to_octet ≡ some octet
    → find key inner.peer_registered_at ≡ some registered_at
    → find key peers ≡ some (told_handshake (time_since_last_handshake t clock))
    → LooksUnmet t clock
    → registered_at + stale_never_connected_secs < now
    → answer key ≡ removed true
    → find key (reap inner peers now answer).peer_to_octet ≡ none
unfolding reap
recent_reaped inner peers now answer key octet registered_at t clock has since tells unmet long
      lets_go =
    let old : stale_since (some registered_at) now ≡ true = ground (arith, long) in
    goes answer key peers inner.peer_registered_at now lets_go
      (ap (λ x. stale_by x (find key inner.peer_registered_at) now) tells
        ∙ told-unmet t clock unmet (find key inner.peer_registered_at) now
        ∙ ap (λ r. stale_since r now) since
        ∙ old)
      inner.peer_to_octet inner has
