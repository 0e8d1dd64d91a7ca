-- ===== src/Device/Table/Remove.antt =====
-- A peer that is removed is in none of the maps, and they agree on those that are left.
use mathlib.Core.Option.{bind, bind-eq-some_iff}
use xelt_vpn.Prelude.{
  ℕ, ◌≡◌, refl, sym, ap, subst, ◌∙◌, inl, inr, ◌≢◌, true, false, List, Option, none, some, ◌==◌,
  if◌then◌else◌, bytes_eq, bytes_eq→eq, bytes_eq_self, Bool-cases, Option-cases, ne→==, eq→==,
  ==→ne,
}
use xelt_vpn.Prelude.Index.{
  find_at, erase_at, update, retain_others, has_value, find_at-erase_at, has_value-retain_others,
}
use xelt_vpn.Prelude.Maps.{find, erase, find-erase}
use xelt_vpn.Device.Peer.{Peer, Shutdown, is_shut, closed, shutdown_endpoint}
use xelt_vpn.Device.Table.{Table, remove_at, remove_peer, erase_index, shut}
use xelt_vpn.Device.Table.Linked.{Held, Indexed, Linked, some-inj, shutdown_endpoint_lem}

pub bytes_ne : (a b : List ℕ) → a ≢ b → bytes_eq a b ≡ false
bytes_ne a b ne = elim (Bool-cases (bytes_eq a b)) [
  | inl q ↦ absurd (ne (bytes_eq→eq a b q))
  | inr q ↦ q
]

module _ {ℓ} {V : Type ℓ} (k j : List ℕ) (m : List (List ℕ × V)) where
  left-by-erase : {v : V} → find j (erase k m) ≡ some v → (find j m ≡ some v) × (k ≢ j)
  left-by-erase e = elim (Bool-cases (bytes_eq k j)) [
    | inl q ↦ cc (find-erase k j m)
    | inr q ↦ (
      sym (find-erase k j m ∙ ap (λ b. if b then none else find j m) q) ∙ e,
      λ same. cc (bytes_eq_self j),
    )
  ]

  pub find-erase_ne : k ≢ j → find j (erase k m) ≡ find j m
  find-erase_ne ne = find-erase k j m ∙ ap (λ b. if b then none else find j m) (bytes_ne k j ne)

pub left-by-erase_at :
    (i j : ℕ) (m : List (ℕ × ℕ)) {v : ℕ}
    → find_at j (erase_at i m) ≡ some v
    → (find_at j m ≡ some v) × (i ≢ j)
left-by-erase_at i j m e = elim (Bool-cases (i == j)) [
  | inl q ↦ cc (find_at-erase_at i j m)
  | inr q ↦
      (sym (find_at-erase_at i j m ∙ ap (λ b. if b then none else find_at j m) q) ∙ e, ==→ne i j q)
]

update_ne : (a : ℕ → Option Peer) (h q : ℕ) (p : Peer) → h ≢ q → update a h p q ≡ a q
update_ne a h q p ne = ap (λ b. if b then some p else a q) (ne→== h q ne)

module _ (t : Table) (key : List ℕ) (h : ℕ) (p : Peer) (l : Linked t)
    (there : find key t.peers ≡ some h) (at : t.arcs h ≡ some p) where
  abbrev removed : Table
  removed = record t {
    peers = erase key t.peers;
    peers_by_idx = erase_at p.index t.peers_by_idx;
    peers_by_ip = retain_others h t.peers_by_ip;
    arcs = update t.arcs h (closed p);
  }

  other_arc : (k : List ℕ) (h' : ℕ) → find k t.peers ≡ some h' → key ≢ k → h ≢ h'
  other_arc k h' e ne = λ same. ne (l.one_key key k h' (there ∙ ap some same) e)

  own_index : find_at p.index t.peers_by_idx ≡ some h
  own_index = let (q, atq, found) = l.by_key key h there in cc

  -- A peer that is kept under another index than the removed one's.
  kept_key : (k : List ℕ) (h' : ℕ) → find k removed.peers ≡ some h' → Indexed removed h'
  kept_key k h' e =
      let (before, ne) = left-by-erase key k t.peers e in
      let (q, atq, found) = l.by_key k h' before in
      let other = other_arc k h' before ne in
      let apart : p.index ≢ q.index = λ same. other (cc (own_index)) in
      (
        q,
        update_ne t.arcs h h' (closed p) other ∙ atq,
        find_at-erase_at p.index q.index t.peers_by_idx
            ∙ ap (λ b. if b then none else find_at q.index t.peers_by_idx)
                (ne→== p.index q.index apart)
            ∙ found,
      )

  stays-Held : (h' : ℕ) → h ≢ h' → Held t h' → Held removed h'
  stays-Held h' ne (k, e) =
      let key_ne : key ≢ k = λ same. ne (cc (ap (λ x. find x t.peers) same)) in
      (k, find-erase_ne key k t.peers key_ne ∙ e)

  kept_index :
      (i h' : ℕ)
      → find_at i removed.peers_by_idx ≡ some h'
      → Held removed h' × ((q : Peer) → removed.arcs h' ≡ some q → q.index ≡ i)
  kept_index i h' e =
      let (before, ne) = left-by-erase_at p.index i t.peers_by_idx e in
      let (held, index) = l.by_idx i h' before in
      let other : h ≢ h' = λ same. ne (index p (ap t.arcs (sym same) ∙ at)) in
      (
        stays-Held h' other held,
        λ q atq. index q (sym (update_ne t.arcs h h' (closed p) other) ∙ atq),
      )

  kept_network : (h' : ℕ) → has_value h' removed.peers_by_ip ≡ true → Held removed h'
  kept_network h' e = elim (Bool-cases (h == h')) [
    | inl q ↦ cc (has_value-retain_others h h' t.peers_by_ip)
    | inr q ↦ stays-Held h' (==→ne h h' q) (
        l.by_ip h' (
          sym (
            has_value-retain_others h h' t.peers_by_ip
            ∙ ap (λ b. if b then false else has_value h' t.peers_by_ip) q)
          ∙ e))
  ]

  removed-Linked : Linked removed
  removed-Linked = record {
    by_key = kept_key;
    by_idx = kept_index;
    by_ip = kept_network;
    one_key = λ j k h' e f.
        l.one_key j k h' (left-by-erase key j t.peers e).0 (left-by-erase key k t.peers f).0;
    made = λ k h' e. l.made k h' (left-by-erase key k t.peers e).0;
  }

-- No map has the reference.
abbrev pub Absent : Table → ℕ → Type 0
Absent t h = ((i : ℕ) → find_at i t.peers_by_idx ≢ some h) × (has_value h t.peers_by_ip ≡ false)

-- What is left without the key: not the key, nor its peer in any map; the other keys as they were.
abbrev pub Forgets : Table → List ℕ → Table → Type 0
Forgets t key t' =
    (find key t'.peers ≡ none)
    × ((h : ℕ) → find key t.peers ≡ some h → Absent t' h)
    × ((k : List ℕ) → key ≢ k → find k t'.peers ≡ find k t.peers)

module _ (t : Table) (key : List ℕ) (l : Linked t) where
  removed-Forgets :
      (h : ℕ) (p : Peer) (there : find key t.peers ≡ some h) (at : t.arcs h ≡ some p)
      → Forgets t key (removed t key h p l there at)
  removed-Forgets h p there at = (
    find-erase key key t.peers ∙ ap (λ b. if b then none else find key t.peers) (bytes_eq_self key),
    λ h' e.
        let same : h ≡ h' = some-inj (sym there ∙ e) in
        subst (Absent (removed t key h p l there at)) same (
          λ i e'.
              let (before, ne) = left-by-erase_at p.index i t.peers_by_idx e' in
              ne ((l.by_idx i h before).1 p at),
          has_value-retain_others h h t.peers_by_ip
              ∙ ap (λ b. if b then false else has_value h t.peers_by_ip) (eq→== h h refl),
        ),
    λ k ne. find-erase_ne key k t.peers ne,
  )

  -- What is removed, where the peer's store is as given.
  abbrev without : ℕ → Option Peer → (ℕ → Option Peer) → Table
  without h o arcs = record t {
    peers = erase key t.peers;
    peers_by_idx = erase_index o t.peers_by_idx;
    peers_by_ip = retain_others h t.peers_by_ip;
    arcs = arcs;
  }

  module _ (shuts : Shutdown) where
    remove_with :
        (h : ℕ) (o : Option Peer) (there : find key t.peers ≡ some h)
        → t.arcs h ≡ o
        → {arcs : ℕ → Option Peer} → shut shuts t.arcs h o ≡ some arcs
        → Linked (without h o arcs) × Forgets t key (without h o arcs)
    remove_with h none there at e = cc ((l.by_key key h there).1)
    remove_with h (some p) there at e =
        let (p', done, e') = (bind-eq-some_iff (shutdown_endpoint shuts p) _).0 e in
        let same = ap (update t.arcs h) (shutdown_endpoint_lem shuts p done) ∙ some-inj e' in
        subst (λ arcs. Linked (without h (some p) arcs) × Forgets t key (without h (some p) arcs))
          same (removed-Linked t key h p l there at, removed-Forgets h p there at)

    remove_found :
        (o : Option ℕ)
        → find key t.peers ≡ o
        → {t' : Table} → remove_at shuts t key o ≡ some t'
        → Linked t' × Forgets t key t'
    remove_found none e e' =
        subst (λ x. Linked x × Forgets t key x) (some-inj e') (l, (e, λ h e''. cc, λ k ne. refl))
    remove_found (some h) e e' =
        let (arcs, done, e'') = (bind-eq-some_iff (shut shuts t.arcs h (t.arcs h)) _).0 e' in
        subst (λ x. Linked x × Forgets t key x) (some-inj e'')
          (remove_with h (t.arcs h) e refl done)

    -- `remove_peer` forgets the key and its peer, in all three maps, and nothing else; the maps still
    -- agree.
    pub remove_peer-Forgets :
        {t' : Table} → remove_peer shuts t key ≡ some t' → Linked t' × Forgets t key t'
    unfolding remove_peer
    remove_peer-Forgets e = remove_found (find key t.peers) refl e

    -- The peer of the key has a connected socket that does not shut down.
    abbrev pub Stuck : Type 0
    Stuck =
        (h : ℕ) × (p : Peer) × (conn : ℕ) × (find key t.peers ≡ some h)
        × (t.arcs h ≡ some p)
        × (p.endpoint.conn ≡ some conn)
        × (shuts conn ≡ false)

    stuck_conn :
        (h : ℕ) (p : Peer) (c : Option ℕ)
        → find key t.peers ≡ some h
        → t.arcs h ≡ some p
        → p.endpoint.conn ≡ c
        → is_shut shuts c ≡ false
        → Stuck
    stuck_conn h p none there at has stuck = cc
    stuck_conn h p (some conn) there at has stuck = (h, p, conn, there, at, has, stuck)

    stuck_at :
        (h : ℕ) (o : Option Peer)
        → find key t.peers ≡ some h
        → t.arcs h ≡ o
        → shut shuts t.arcs h o ≡ none
        → Stuck
    unfolding shutdown_endpoint bind
    stuck_at h none there at e = cc
    stuck_at h (some p) there at e = elim (Bool-cases (is_shut shuts p.endpoint.conn)) [
      | inl q ↦
          let x : some (update t.arcs h (closed p)) ≡ none =
            sym (
              ap (λ b. bind (if b then some (closed p) else none) (λ p'. some (update t.arcs h p')))
                q)
            ∙ e in
          cc x
      | inr q ↦ stuck_conn h p p.endpoint.conn there at refl q
    ]

    stuck_found : (o : Option ℕ) → find key t.peers ≡ o → remove_at shuts t key o ≡ none → Stuck
    unfolding bind
    stuck_found none there e = cc
    stuck_found (some h) there e = elim (Option-cases (shut shuts t.arcs h (t.arcs h))) [
      | inl q ↦ stuck_at h (t.arcs h) there refl q
      | inr (arcs, q) ↦
          let x : some (without h (t.arcs h) arcs) ≡ none =
            sym (ap (λ o. bind o (λ arcs. some (without h (t.arcs h) arcs))) q) ∙ e in
          cc x
    ]

    pub remove_peer-Stuck : remove_peer shuts t key ≡ none → Stuck
    unfolding remove_peer
    remove_peer-Stuck e = stuck_found (find key t.peers) refl e
