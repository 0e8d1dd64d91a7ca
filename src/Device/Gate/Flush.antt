-- ===== src/Device/Gate/Flush.antt =====
-- The loop that flushes the queue ends.
use xelt_vpn.Prelude.{
  ℕ, suc, zero, ◌+◌, ◌≤◌, ◌<◌, ◌≡◌, refl, ap, subst, inl, inr, Bool, true, false, List, [], ◌∷◌,
  Option, none, some, if◌then◌else◌, ltb, length, length-append, Bool-cases, arith,
}
use xelt_vpn.Noise.Errors.{Result, ok, err, panic, WireGuardError, destination_buffer_too_small}
use xelt_vpn.Noise.Packet.{handshake_init_sz}
use xelt_vpn.Noise.Handshake.Timestamp.{stamp}
use xelt_vpn.Noise.Crypto.{Crypto}
use xelt_vpn.Noise.Outcome.{
  TunnResult, done, error, write_to_network, write_to_tunnel_v4, write_to_tunnel_v6, panicked,
  to_network,
}
use xelt_vpn.Noise.Session.{Session, format_packet_data}
use xelt_vpn.Noise.Handshake.{Handshake, Env, is_in_progress, is_expired}
use xelt_vpn.Noise.Handshake.Initiate.{
  append_mac1_and_mac2, format_handshake_initiation, send_init, seal_init, InitSeals,
}
use xelt_vpn.Noise.Timers.{Timers, clear}
use xelt_vpn.Noise.Tunn.{
  Tunn, session_at, put_session, queue_packet, dequeue_packet, initiation_sent, data_sent,
  tunn_format_handshake_initiation, encapsulate_by, encapsulate, back_on_error, send_queued_packet,
}
use xelt_vpn.Noise.Tunn.Inbound.{decapsulate}
use xelt_vpn.Payment.Wallet.{Secp}
use xelt_vpn.Device.Payments.{Out}
use xelt_vpn.Device.Gate.{flush_next, flush, flush_all}

-- Packets that wait, and one for a handshake that may start.
abbrev pending : Bool → ℕ
pending true = 0
pending false = 1

abbrev work : Tunn → ℕ
work t = length t.packet_queue + pending (is_in_progress t.handshake)

-- A round that sends leaves less work than `bound`.
abbrev Less : ℕ → TunnResult × Tunn → Type 0
Less bound (write_to_network packet, t) = work t < bound
Less bound (done, t) = Unit
Less bound (error e, t) = Unit
Less bound (write_to_tunnel_v4 b a, t) = Unit
Less bound (write_to_tunnel_v6 b a, t) = Unit
Less bound (panicked, t) = Unit

back_on_error-Less :
    (crypto : Crypto) (bound : ℕ) (p : List ℕ) (r : TunnResult × Tunn)
    → Less bound r
    → Less bound (back_on_error crypto p r)
back_on_error-Less crypto bound p (write_to_network packet, t) h = h
back_on_error-Less crypto bound p (done, t) h = tt
back_on_error-Less crypto bound p (error e, t) h = tt
back_on_error-Less crypto bound p (write_to_tunnel_v4 b a, t) h = tt
back_on_error-Less crypto bound p (write_to_tunnel_v6 b a, t) h = tt
back_on_error-Less crypto bound p (panicked, t) h = tt

length-queue_packet :
    (t : Tunn) (p : List ℕ)
    → (length (queue_packet t p).packet_queue ≤ length t.packet_queue + 1)
      × ((queue_packet t p).handshake ≡ t.handshake)
unfolding queue_packet
length-queue_packet t p = ground (arith, length-append t.packet_queue (p ∷ []))

module _ (crypto : Crypto) where
  -- A session sends the packet.
  session-Less :
      (r : Result (List ℕ)) (t : Tunn) (src : List ℕ)
      → Less (suc (work t)) (to_network r, data_sent crypto src r t)
  session-Less (ok packet) t [] = omega arith
  session-Less (ok packet) t (b ∷ bs) = omega arith
  session-Less (err e) t src = tt
  session-Less panic t src = tt

  -- Sending an initiation puts a handshake under way.
  abbrev Started : Result (List ℕ) × Handshake → Type 0
  Started (ok packet, h) = is_in_progress h ≡ true
  Started (err e, h) = Unit
  Started (panic, h) = Unit

  send_init-Started :
      (h : Handshake) (env : Env) (seals : Result InitSeals)
      → Started (send_init crypto h env seals)
  unfolding send_init append_mac1_and_mac2
  send_init-Started h env (ok seals) = refl
  send_init-Started h env (err e) = tt
  send_init-Started h env panic = tt

  if-Started :
      (b : Bool) (e : WireGuardError) (h : Handshake) (x : Result (List ℕ) × Handshake)
      → Started x
      → Started (if b then (err e, h) else x)
  if-Started true e h x s = tt
  if-Started false e h x s = s

  format-Started :
      (h : Handshake) (env : Env) (n : ℕ) → Started (format_handshake_initiation crypto h env n)
  unfolding format_handshake_initiation
  format-Started h env n =
      if-Started (ltb n handshake_init_sz) destination_buffer_too_small h _ (
        send_init-Started h env (seal_init crypto h.params env.ephemeral (stamp h.stamper env.now)))

  -- What `tunn_format_handshake_initiation` makes of the message and the handshake.
  sent-Less :
      (bound : ℕ) (starting : Bool) (x : Result (List ℕ) × Handshake) (t : Tunn)
      → length t.packet_queue < bound
      → Started x
      → Less bound
          (to_network x.0, initiation_sent crypto starting x.0 (record t { handshake = x.1 }))
  sent-Less bound true (ok packet, h) t l s = rw s (omega arith)
  sent-Less bound false (ok packet, h) t l s = rw s (omega arith)
  sent-Less bound starting (err e, h) t l s = tt
  sent-Less bound starting (panic, h) t l s = tt

  -- `t` with its timers cleared or not.
  length-cleared :
      (b : Bool) (t : Tunn) (v : Timers)
      → length (if b then record t { timers = v } else t).packet_queue ≡ length t.packet_queue
  length-cleared true t v = refl
  length-cleared false t v = refl

  initiation-Less :
      (bound : ℕ) (t : Tunn) (env : Env) (n : ℕ)
      → length t.packet_queue + pending (is_in_progress t.handshake) ≤ bound
      → Less bound (tunn_format_handshake_initiation crypto t env n false)
  unfolding tunn_format_handshake_initiation
  initiation-Less bound t env n l = elim (Bool-cases (is_in_progress t.handshake)) [
    | inl q ↦ rw q tt
    | inr q ↦
        let x = format_handshake_initiation crypto t.handshake env n in
        let cleared : Tunn =
          if is_expired t.handshake then record t { timers = clear t.timers env.now } else t in
        rw q (
          sent-Less bound true x cleared
            (omega (
              arith,
              l,
              ap pending q,
              length-cleared (is_expired t.handshake) t (clear t.timers env.now),
            ))
            (format-Started t.handshake env n))
  ]

  encapsulate_by-Less :
      (s : Option Session) (t : Tunn) (env : Env) (src : List ℕ) (n : ℕ)
      → Less (suc (work t)) (encapsulate_by crypto s t env src n)
  encapsulate_by-Less (some s) t env src n =
      let (r, s') = format_packet_data crypto.aead s src n in
      session-Less r (put_session t t.current s') src
  encapsulate_by-Less none t env src n =
      let (l, h) = length-queue_packet t src in
      initiation-Less (suc (work t)) (queue_packet t src) env n
        (omega (arith, l, ap (λ k. pending (is_in_progress k)) h))

  -- A round of the loop.
  round-Less :
      (queue : List (List ℕ)) (t : Tunn) (env : Env) (n bound : ℕ)
      → t.packet_queue ≡ queue
      → length queue + pending (is_in_progress t.handshake) ≡ bound
      → Less bound (send_queued_packet crypto t env n)
  unfolding send_queued_packet dequeue_packet encapsulate
  round-Less [] t env n bound e w = rw e tt
  round-Less (p ∷ ps) t env n bound e w =
      let t₁ : Tunn = record t { packet_queue = ps } in
      let same : suc (work t₁) ≡ bound = omega (arith, w) in
      rw e (
        subst
          (λ b.
            Less b (
              back_on_error crypto p (encapsulate_by crypto (session_at t₁ t₁.current) t₁ env p n)))
          same
          (back_on_error-Less crypto (suc (work t₁)) p _
            (encapsulate_by-Less (session_at t₁ t₁.current) t₁ env p n)))

  module _ (secp : Secp) (hex_encode : List ℕ → List ℕ) where
    -- The loop ended by its condition.
    abbrev pub Ended : List Out × (Tunn × Bool) → Type 0
    Ended r = r.1.1 ≡ true

    next-Ended :
        (bound : ℕ) (r : TunnResult) (t : Tunn) (rest : List Out × (Tunn × Bool))
        → Less bound (r, t)
        → (work t < bound → Ended rest)
        → Ended (flush_next crypto secp hex_encode r t rest)
    next-Ended bound (write_to_network packet) t rest l h = h l
    next-Ended bound done t rest l h = refl
    next-Ended bound (error e) t rest l h = refl
    next-Ended bound (write_to_tunnel_v4 b a) t rest l h = refl
    next-Ended bound (write_to_tunnel_v6 b a) t rest l h = refl
    next-Ended bound panicked t rest l h = refl

    flush-Ended :
        (fuel : ℕ) (envs : ℕ → Env) (t : Tunn) (n : ℕ)
        → work t < fuel
        → Ended (flush crypto secp hex_encode fuel envs t n)
    unfolding flush decapsulate
    flush-Ended zero envs t n h = absurd (omega arith)
    flush-Ended (suc fuel) envs t n h =
        let (r, t₁) = send_queued_packet crypto t (envs 0) n in
        next-Ended (work t) r t₁ _ (round-Less t.packet_queue t (envs 0) n (work t) refl refl)
          (λ l. flush-Ended fuel (λ i. envs (i + 1)) t₁ n (omega arith))

    pending-le : (b : Bool) → pending b ≤ 1
    pending-le true = omega arith
    pending-le false = omega arith

    -- The loop that flushes the queue ends by its own condition within as many rounds as packets wait
    -- and two more, whatever the clock and the buffer.
    pub flush_all-Ended :
        (envs : ℕ → Env) (t : Tunn) (n : ℕ) → Ended (flush_all crypto secp hex_encode envs t n)
    flush_all-Ended envs t n =
        flush-Ended (length t.packet_queue + 2) envs t n
          (omega (arith, pending-le (is_in_progress t.handshake)))
