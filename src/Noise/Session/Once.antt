-- ===== src/Noise/Session/Once.antt =====
-- No packet counter is delivered twice over the life of a session.
use mathlib.Core.Logic.Or
use mathlib.Core.HLevel.{⊥_prop}
use mathlib.Core.List.{Mem, Nodup, Nodup-nil, Nodup-cons, mem-cons, not-mem-nil}
use xelt_vpn.Prelude.{ℕ, ◌≡◌, inl, inr, true, false, List, [], ◌∷◌, some, Option-cases, arith}
use xelt_vpn.Noise.Aead.{Aead}
use xelt_vpn.Noise.Packet.{PacketData}
use xelt_vpn.Noise.Session.{Session, new, receive_packet_data}
use xelt_vpn.Noise.Session.Window.History.{accepts, seen}
use xelt_vpn.Noise.Session.Window.Refine.{fresh-Stands}
use xelt_vpn.Noise.Session.Receive.{Holds, delivers, receive_refines, delivered_counters, AllFit}

-- Each counter is new to the history that it extends.
abbrev AllNew : List ℕ → List ℕ → Type 0
AllNew h [] = Unit
AllNew h (c ∷ cs) = (seen h c ≡ false) × AllNew (c ∷ h) cs

not-mem_of_seen : (h cs : List ℕ) (c : ℕ) → AllNew h cs → seen h c ≡ true → ¬ Mem c cs
not-mem_of_seen h [] c a e m = not-mem-nil m
not-mem_of_seen h (d ∷ cs) c a e m =
    Or.elim ⊥_prop (mem-cons.0 m) (λ q. cc (rw (← q) at a.0))
      (not-mem_of_seen (d ∷ h) cs c a.1 later)
  where
    later : seen (d ∷ h) c ≡ true
    later = unfold seen in (ground arith)

AllNew-Nodup : (h cs : List ℕ) → AllNew h cs → Nodup cs
AllNew-Nodup h [] a = Nodup-nil
AllNew-Nodup h (c ∷ cs) a =
    Nodup-cons.1 (not-mem_of_seen (c ∷ h) cs c a.1 first, AllNew-Nodup (c ∷ h) cs a.1)
  where
    first : seen (c ∷ h) c ≡ true
    first = unfold seen in (ground arith)

module _ (aead : Aead) where
  -- What is delivered was acceptable, so it was new.
  delivers-new :
      (s : Session) (h : List ℕ) (p : PacketData) {text : List ℕ}
      → delivers aead s h p ≡ some text
      → seen h p.counter ≡ false
  unfolding accepts
  delivers-new s h p e = ground arith

  delivered_counters-AllNew :
      (n : ℕ) (s : Session) (h : List ℕ) (ps : List PacketData)
      → Holds s h
      → AllFit n ps
      → AllNew h (delivered_counters aead n s ps)
  unfolding delivered_counters
  delivered_counters-AllNew n s h [] v a = tt
  delivered_counters-AllNew n s h (p ∷ ps) v a =
      let r = receive_refines aead s h p n v a.0 a.1 in
      elim (Option-cases (delivers aead s h p)) [
        | inl e ↦
            rw (r.0, e, delivered_counters)
              (delivered_counters-AllNew n (receive_packet_data aead s p n).1 h ps (rw e at r.1)
                a.2)
        | inr (text, e) ↦
            rw (r.0, e, delivered_counters)
              (
                delivers-new s h p e,
                delivered_counters-AllNew n (receive_packet_data aead s p n).1 (p.counter ∷ h) ps
                    (rw e at r.1) a.2,
              )
      ]

  -- A new session delivers no counter twice, whatever packets it is given in whatever order, for
  -- counters at least 1024 below `2 ^ 64`.
  pub delivered_counters-Nodup :
      (n local_index peer_index : ℕ) (receiving_key sending_key : List ℕ) (ps : List PacketData)
      → AllFit n ps
      → Nodup (delivered_counters aead n (new local_index peer_index receiving_key sending_key) ps)
  unfolding new
  delivered_counters-Nodup n l q rk sk ps a =
      AllNew-Nodup [] _ (delivered_counters-AllNew n _ [] ps fresh-Stands a)
