-- ===== src/Noise/Session/Receive.antt =====
-- What `receive_packet_data` delivers, and when.
use xelt_vpn.Prelude.{
  ℕ, ◌+◌, ◌≤◌, ◌<◌, ◌≡◌, refl, ◌&&◌, inl, inr, true, false, List, [], ◌∷◌, Option, none, some, leb,
  ◌==◌, if◌then◌else◌, length, Bool-cases, Option-cases, ge→ltb, arith,
}
use xelt_vpn.Noise.Errors.{
  Result, ok, err, panic, WireGuardError, invalid_counter, duplicate_counter, invalid_aead_tag,
}
use xelt_vpn.Noise.Aead.{Aead}
use xelt_vpn.Noise.Packet.{PacketData}
use xelt_vpn.Noise.Session.Window.{ReceivingKeyCounterValidator, n_bits, u64_mod}
use xelt_vpn.Noise.Session.Window.History.{top, accepts, extend, Stands}
use xelt_vpn.Noise.Session.Window.Refine.{will_accept_refines, mark_refines}
use xelt_vpn.Noise.Session.{
  Session, count_if_ok, receive_packet_data, receiving_counter_quick_check, receiving_counter_mark,
  decrypt, open_and_mark, checked_open, deliver, nonce_of,
}

-- A session whose window stands for the counters accepted so far.
abbrev pub Holds : Session → List ℕ → Type 0
Holds s h = Stands s.receiving_key_counter h

count-Stands :
    (r : Result (Unit {0})) (w : ReceivingKeyCounterValidator) (h : List ℕ)
    → Stands w h
    → Stands (count_if_ok r w) h
count-Stands (ok _) w h v = record { len = v.len; next_top = v.next_top; bits = v.bits }
count-Stands (err e) w h v = v
count-Stands panic w h v = v

mark-Holds :
    (s : Session) (h : List ℕ) (c : ℕ)
    → Holds s h
    → c + n_bits < u64_mod
    → ((receiving_counter_mark s c).0 ≡ (if accepts h c then ok tt else err invalid_counter))
      × Holds (receiving_counter_mark s c).1 (extend h c)
unfolding receiving_counter_mark
mark-Holds s h c v small =
    let m = mark_refines s.receiving_key_counter h c v small in
    (m.0, count-Stands _ _ (extend h c) m.1)

mark-keys :
    (s : Session) (c : ℕ)
    → ((receiving_counter_mark s c).1.receiver ≡ s.receiver)
      × ((receiving_counter_mark s c).1.receiving_index ≡ s.receiving_index)
unfolding receiving_counter_mark
mark-keys s c = (refl, refl)

extend-eq-cons : (h : List ℕ) (c : ℕ) → accepts h c ≡ true → extend h c ≡ c ∷ h
unfolding extend
extend-eq-cons h c e = rw e

abbrev pub delivered : Result (List ℕ) → Option (List ℕ)
delivered (ok text) = some text
delivered (err e) = none
delivered panic = none

-- The history after a packet with that counter was delivered, or was not.
abbrev pub after : Option (List ℕ) → List ℕ → ℕ → List ℕ
after none h c = h
after (some text) h c = c ∷ h

deliver-ok :
    (aead : Aead) (text : List ℕ) (q : Result (Unit {0}) × Session)
    → q.0 ≡ ok tt
    → deliver aead text q ≡ (ok text, q.1)
unfolding deliver
deliver-ok aead text (ok _, s) e = refl
deliver-ok aead text (err x, s) e = cc
deliver-ok aead text (panic, s) e = cc

module _ (aead : Aead) where
  -- The independent description: a packet for this session, whose counter is acceptable and whose
  -- text is authentic, is delivered; nothing else is.
  abbrev pub delivers : Session → List ℕ → PacketData → Option (List ℕ)
  delivers s h p =
      if p.receiver_idx == s.receiving_index && accepts h p.counter
      then aead.unseal s.receiver (nonce_of p.counter) [] p.encrypted_encapsulated_packet
      else none

  -- The result and the session that a call leaves, against that description.
  abbrev pub Received : Session → List ℕ → PacketData → Result (List ℕ) × Session → Type 0
  Received s h p r =
      (delivered r.0 ≡ delivers s h p)
      × Holds r.1 (after (delivers s h p) h p.counter)
      × ((r.1.receiver ≡ s.receiver) × (r.1.receiving_index ≡ s.receiving_index))

  module _ (s : Session) (h : List ℕ) (p : PacketData) (v : Holds s h)
      (small : p.counter + n_bits < u64_mod)
      (own : (p.receiver_idx == s.receiving_index) ≡ true) where
    quick_ok : accepts h p.counter ≡ true → receiving_counter_quick_check s p.counter ≡ ok tt
    unfolding receiving_counter_quick_check
    quick_ok a = rw (will_accept_refines s.receiving_key_counter h p.counter v small, a)

    quick_err :
        accepts h p.counter ≡ false
        → (e : WireGuardError) × (receiving_counter_quick_check s p.counter ≡ err e)
    unfolding receiving_counter_quick_check
    quick_err a = (
      if leb (top h) (p.counter + n_bits) then duplicate_counter else invalid_counter,
      ground (arith, will_accept_refines s.receiving_key_counter h p.counter v small),
    )

    -- The three ways through, as values.
    opened :
        (text : List ℕ)
        → accepts h p.counter ≡ true
        → aead.unseal s.receiver (nonce_of p.counter) [] p.encrypted_encapsulated_packet ≡ some text
        → checked_open aead s p ≡ (ok text, (receiving_counter_mark s p.counter).1)
    unfolding checked_open open_and_mark decrypt
    opened text a e =
        rw (quick_ok a, checked_open)
          (rw (e, open_and_mark)
            (deliver-ok aead text (receiving_counter_mark s p.counter)
              (rw ((mark-Holds s h p.counter v small).0, a))))

    forged :
        accepts h p.counter ≡ true
        → aead.unseal s.receiver (nonce_of p.counter) [] p.encrypted_encapsulated_packet ≡ none
        → checked_open aead s p ≡ (err invalid_aead_tag, s)
    unfolding checked_open open_and_mark decrypt
    forged a e = rw (quick_ok a, checked_open) (rw (e, open_and_mark))

    refused :
        accepts h p.counter ≡ false → (e : WireGuardError) × (checked_open aead s p ≡ (err e, s))
    unfolding checked_open
    refused a = let (e, q) = quick_err a in (e, rw (q, checked_open))

    checked_open-Received : Received s h p (checked_open aead s p)
    checked_open-Received = elim (Bool-cases (accepts h p.counter)) [
      | inl a ↦
          elim (Option-cases
            (aead.unseal s.receiver (nonce_of p.counter) [] p.encrypted_encapsulated_packet)) [
              | inl e ↦ rw (forged a e, own, a, e) (refl, v, (refl, refl))
              | inr (text, e) ↦
                  rw (opened text a e, own, a, e)
                    (
                      refl,
                      rw (← extend-eq-cons h p.counter a) (mark-Holds s h p.counter v small).1,
                      mark-keys s p.counter,
                    )
            ]
      | inr a ↦ let (e, q) = refused a in rw (q, own, a) (refl, v, (refl, refl))
    ]

  -- `receive_packet_data`, given a buffer that holds the packet, whose counter and the 1024 of the
  -- window add up to less than 2^64: it delivers exactly what the
  -- description delivers, afterwards the window stands for the history with that counter added, or for
  -- the old one if nothing was delivered, and the key and index are as before.
  pub receive_refines :
      (s : Session) (h : List ℕ) (p : PacketData) (n : ℕ)
      → Holds s h
      → p.counter + n_bits < u64_mod
      → length p.encrypted_encapsulated_packet ≤ n
      → Received s h p (receive_packet_data aead s p n)
  unfolding receive_packet_data
  receive_refines s h p n v small fits = elim (Bool-cases (p.receiver_idx == s.receiving_index)) [
    | inl own ↦ rw (ge→ltb n _ fits, own) (rw own at (checked_open-Received s h p v small own))
    | inr other ↦ rw (ge→ltb n _ fits, other) (refl, v, (refl, refl))
  ]

  -- The counters of the packets that a session delivers, in order, each given a buffer of `n` bytes.
  unfoldable pub delivered_counters : ℕ → Session → List PacketData → List ℕ
  delivered_counters n s [] = []
  delivered_counters n s (p ∷ ps) =
      let (r, s') = receive_packet_data aead s p n in
      let rest = delivered_counters n s' ps in
      elim (delivered r) [ none ↦ rest | some text ↦ p.counter ∷ rest ]

-- Every packet of a list has a counter short of the wrap, and fits a buffer of `n` bytes.
abbrev pub AllFit : ℕ → List PacketData → Type 0
AllFit n [] = Unit
AllFit n (p ∷ ps) =
    (p.counter + n_bits < u64_mod) × (length p.encrypted_encapsulated_packet ≤ n) × AllFit n ps
