-- ===== src/Device/Table/Add.antt =====
-- A peer that is added under a new key, a new index and a new reference.
use xelt_vpn.Prelude.{
  ℕ, ◌<◌, ◌≡◌, refl, sym, ap, subst, ◌∙◌, ◌⊎◌, inl, inr, ◌≢◌, true, List, [], ◌∷◌, none, some, ◌==◌,
  if◌then◌else◌, bytes_eq, bytes_eq→eq, bytes_eq_self, Bool-cases, ne→==, eq→==, ==→eq, arith,
}
use xelt_vpn.Prelude.Index.{find_at, put_at, has_value, find_at-put_at}
use xelt_vpn.Prelude.Maps.{find, find-put}
use xelt_vpn.Device.Api.{Section}
use xelt_vpn.Device.Index.{IndexLfsr}
use xelt_vpn.Device.Peer.{Peer, AllowedIp}
use xelt_vpn.Device.Table.{Table, InsertNetwork, insert_networks, add_peer}
use xelt_vpn.Device.Table.Linked.{Held, Indexed, Linked, some-inj}
use xelt_vpn.Device.Table.Remove.{bytes_ne}

-- `insert` adds no reference but the one that it is given.
abbrev pub AddsOne : InsertNetwork → Type 0
AddsOne insert =
    (ip : AllowedIp) (h w : ℕ) (m : List (AllowedIp × ℕ))
    → has_value w (insert ip h m) ≡ true
    → (h ≡ w) ⊎ (has_value w m ≡ true)

-- The entries of a map of indexes with one more are that one and those before.
pub found_index :
    (i h arc index : ℕ) (m : List (ℕ × ℕ))
    → find_at i (put_at index arc m) ≡ some h
    → ((index ≡ i) × (arc ≡ h)) ⊎ (find_at i m ≡ some h)
found_index i h arc index m e = elim (Bool-cases (index == i)) [
  | inl q ↦ inl (
    ==→eq index i q,
    some-inj
        (sym (find_at-put_at index i arc m ∙ ap (λ b. if b then some arc else find_at i m) q) ∙ e),
  )
  | inr q ↦
      inr (sym (find_at-put_at index i arc m ∙ ap (λ b. if b then some arc else find_at i m) q) ∙ e)
]

module _ (insert : InsertNetwork) (adds : AddsOne insert) where
  insert_networks-AddsOne :
      (ips : List AllowedIp) (h w : ℕ) (m : List (AllowedIp × ℕ))
      → has_value w (insert_networks insert ips h m) ≡ true
      → (h ≡ w) ⊎ (has_value w m ≡ true)
  unfolding insert_networks
  insert_networks-AddsOne [] h w m e = inr e
  insert_networks-AddsOne (ip ∷ ips) h w m e =
      elim (insert_networks-AddsOne ips h w (insert ip h m) e) [
        | inl same ↦ inl same
        | inr before ↦ adds ip h w m before
      ]

  module _ (t : Table) (s : Section) (index : ℕ) (g : IndexLfsr) (p : Peer) (l : Linked t)
      (new_key : find s.public_key t.peers ≡ none) (new_index : find_at index t.peers_by_idx ≡ none)
      (own : p.index ≡ index) where
    abbrev added : Table
    added = add_peer insert t s index g p

    -- The same of the keys.
    found_key :
        (k : List ℕ) (h : ℕ)
        → find k added.peers ≡ some h
        → ((s.public_key ≡ k) × (t.next_arc ≡ h)) ⊎ ((s.public_key ≢ k) × (find k t.peers ≡ some h))
    found_key k h e = elim (Bool-cases (bytes_eq s.public_key k)) [
      | inl q ↦ inl (
        bytes_eq→eq s.public_key k q,
        some-inj (
            sym (
              find-put s.public_key k t.next_arc t.peers
              ∙ ap (λ b. if b then some t.next_arc else find k t.peers) q)
            ∙ e),
      )
      | inr q ↦ inr (
        λ same. cc (bytes_eq_self k),
        sym (
              find-put s.public_key k t.next_arc t.peers
              ∙ ap (λ b. if b then some t.next_arc else find k t.peers) q)
            ∙ e,
      )
    ]

    own_key : find s.public_key added.peers ≡ some t.next_arc
    own_key =
        find-put s.public_key s.public_key t.next_arc t.peers
        ∙ ap (λ b. if b then some t.next_arc else find s.public_key t.peers)
            (bytes_eq_self s.public_key)

    own_arc : added.arcs t.next_arc ≡ some p
    own_arc = ap (λ b. if b then some p else t.arcs t.next_arc) (eq→== t.next_arc t.next_arc refl)

    old_arc : (h : ℕ) → h < t.next_arc → added.arcs h ≡ t.arcs h
    old_arc h lt =
        ap (λ b. if b then some p else t.arcs h)
          (ne→== t.next_arc h (λ e. absurd (omega (arith, e))))

    own_Indexed : Indexed added t.next_arc
    own_Indexed = (
      p,
      own_arc,
      find_at-put_at index p.index t.next_arc t.peers_by_idx
          ∙ ap (λ b. if b then some t.next_arc else find_at p.index t.peers_by_idx)
              (eq→== index p.index (sym own)),
    )

    old_Indexed : (k : List ℕ) (h : ℕ) → find k t.peers ≡ some h → Indexed added h
    old_Indexed k h e =
        let (q, at, found) = l.by_key k h e in
        let apart : index ≢ q.index =
          λ same. cc (new_index, ap (λ i. find_at i t.peers_by_idx) same) in
        (
          q,
          old_arc h (l.made k h e) ∙ at,
          find_at-put_at index q.index t.next_arc t.peers_by_idx
              ∙ ap (λ b. if b then some t.next_arc else find_at q.index t.peers_by_idx)
                  (ne→== index q.index apart)
              ∙ found,
        )

    stays-Held : (h : ℕ) → Held t h → Held added h
    stays-Held h (k, e) =
        let ne : s.public_key ≢ k = λ same. cc (new_key, ap (λ x. find x t.peers) same) in
        (
          k,
          find-put s.public_key k t.next_arc t.peers
              ∙ ap (λ b. if b then some t.next_arc else find k t.peers) (bytes_ne s.public_key k ne)
              ∙ e,
        )

    keys_apart :
        (j k : List ℕ) (h : ℕ) → find j added.peers ≡ some h → find k added.peers ≡ some h → j ≡ k
    keys_apart j k h e f = elim (found_key j h e) [
      | inl (a, b) ↦ elim (found_key k h f) [
        | inl (c, d) ↦ sym a ∙ c
        | inr (c, d) ↦ absurd (omega (arith, l.made k h d, b))
      ]
      | inr (a, b) ↦ elim (found_key k h f) [
        | inl (c, d) ↦ absurd (omega (arith, l.made j h b, d))
        | inr (c, d) ↦ l.one_key j k h b d
      ]
    ]

    pub add_peer-Linked : Linked (add_peer insert t s index g p)
    add_peer-Linked = record {
      by_key = λ k h e. elim (found_key k h e) [
        | inl (same, at) ↦ subst (Indexed added) at own_Indexed
        | inr (ne, before) ↦ old_Indexed k h before
      ];
      by_idx = λ i h e. elim (found_index i h t.next_arc index t.peers_by_idx e) [
        | inl (same, at) ↦ (
          (s.public_key, own_key ∙ ap some at),
          λ q atq.
              let whose : p ≡ q = some-inj (sym own_arc ∙ ap added.arcs at ∙ atq) in
              sym (ap (λ (x : Peer). x.index) whose) ∙ own ∙ same,
        )
        | inr before ↦
            let (held, index_of) = l.by_idx i h before in
            (
              stays-Held h held,
              λ q atq. index_of q (sym (old_arc h (l.made held.0 h held.1)) ∙ atq),
            )
      ];
      by_ip = λ h e. elim (insert_networks-AddsOne s.allowed_ips t.next_arc h t.peers_by_ip e) [
        | inl same ↦ (s.public_key, own_key ∙ ap some same)
        | inr before ↦ stays-Held h (l.by_ip h before)
      ];
      one_key = keys_apart;
      made = λ k h e. elim (found_key k h e) [
        | inl (same, at) ↦ omega (arith, at)
        | inr (ne, before) ↦ omega (arith, l.made k h before)
      ];
    }
