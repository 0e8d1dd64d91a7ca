-- ===== src/Noise/Tunn/Queue/Requeue.antt =====
-- What `send_queued_packet` does with a buffer that has no room for a handshake.
use xelt_vpn.Prelude.{
  ℕ, ◌<◌, ◌≡◌, refl, ap, ◌∙◌, inl, inr, false, List, [], ◌∷◌, ◌++◌, none, ltb, length,
  length-append, Bool-cases, lt→ltb, arith,
}
use xelt_vpn.Noise.Errors.{destination_buffer_too_small}
use xelt_vpn.Noise.Crypto.{Crypto}
use xelt_vpn.Noise.Outcome.{error}
use xelt_vpn.Noise.Handshake.{Env, is_in_progress, is_expired}
use xelt_vpn.Noise.Handshake.Initiate.{format_handshake_initiation}
use xelt_vpn.Noise.Timers.{clear}
use xelt_vpn.Noise.Tunn.{
  Tunn, session_at, queue_packet, requeue_packet, dequeue_packet, tunn_format_handshake_initiation,
  encapsulate, send_queued_packet,
}

module _ (crypto : Crypto) where
  short_buffer :
      (t : Tunn) (env : Env) (n : ℕ)
      → is_in_progress t.handshake ≡ false
      → n < 148
      → (r : Tunn) × (tunn_format_handshake_initiation crypto t env n false
          ≡ (error destination_buffer_too_small, r))
        × (r.packet_queue ≡ t.packet_queue)
  unfolding tunn_format_handshake_initiation format_handshake_initiation
  short_buffer t env n idle h = elim (Bool-cases (is_expired t.handshake)) [
    | inl q ↦
        (record t { timers = clear t.timers env.now }, rw (idle, lt→ltb n 148 h, q) refl, refl)
    | inr q ↦ (t, rw (idle, lt→ltb n 148 h, q) refl, refl)
  ]

  queued :
      (t : Tunn) (p : List ℕ)
      → length t.packet_queue < 256
      → (queue_packet t p).packet_queue ≡ t.packet_queue ++ (p ∷ [])
  unfolding queue_packet
  queued t p h = rw (lt→ltb (length t.packet_queue) 256 h) refl

  requeued :
      (t : Tunn) (p : List ℕ)
      → length t.packet_queue < 256
      → (requeue_packet t p).packet_queue ≡ p ∷ t.packet_queue
  unfolding requeue_packet
  requeued t p h = rw (lt→ltb (length t.packet_queue) 256 h) refl

  queue_packet-handshake : (t : Tunn) (p : List ℕ) → (queue_packet t p).handshake ≡ t.handshake
  unfolding queue_packet
  queue_packet-handshake t p = elim (Bool-cases (ltb (length t.packet_queue) 256)) [
    | inl q ↦ rw q refl
    | inr q ↦ rw q refl
  ]

  -- With no session, no handshake under way, a buffer of under 148 bytes, too small for an
  -- initiation, and at most 254 other packets waiting, `send_queued_packet` leaves the packet in the
  -- queue twice: in front, and behind the others.
  pub send_queued-Twice :
      (t : Tunn) (env : Env) (n : ℕ) (p : List ℕ) (rest : List (List ℕ))
      → t.packet_queue ≡ p ∷ rest
      → session_at t t.current ≡ none
      → is_in_progress t.handshake ≡ false
      → n < 148
      → length rest < 255
      → (send_queued_packet crypto t env n).1.packet_queue ≡ p ∷ (rest ++ (p ∷ []))
  unfolding send_queued_packet dequeue_packet encapsulate
  send_queued-Twice t env n p rest e gone idle h room =
      let t₁ : Tunn = record t { packet_queue = rest } in
      let (r, q, l) =
        short_buffer (queue_packet t₁ p) env n
          (ap is_in_progress (queue_packet-handshake t₁ p) ∙ idle) h in
      let w : r.packet_queue ≡ rest ++ (p ∷ []) = l ∙ queued t₁ p (omega arith) in
      rw (e, gone, q)
        (requeued r p (omega (arith, ap length w, length-append rest (p ∷ []))) ∙ ap (◌∷◌ p) w)
