-- ===== src/Device/Table/Linked.antt =====
-- The three maps of a device agree, and stay so when peers come, go and change.
use xelt_vpn.Prelude.{
  ℕ, ◌<◌, ◌≡◌, refl, sym, ap, ◌∙◌, ◌⊎◌, inl, inr, Bool, true, false, if◌then◌else◌, List, some,
  ◌==◌, Bool-cases, ==→eq,
}
use xelt_vpn.Prelude.Index.{find_at, update, has_value}
use xelt_vpn.Prelude.Maps.{find}
use xelt_vpn.Device.Peer.{Peer, Shutdown, is_shut, closed, shutdown_endpoint}
use xelt_vpn.Device.Table.{Table, Store, with_arcs, remove_all}

-- Some key has the reference.
abbrev pub Held : Table → ℕ → Type 0
Held t h = (k : List ℕ) × (find k t.peers ≡ some h)

-- A reference is to a peer that the table of indexes has under the peer's own.
abbrev pub Indexed : Table → ℕ → Type 0
Indexed t h = (p : Peer) × (t.arcs h ≡ some p) × (find_at p.index t.peers_by_idx ≡ some h)

-- Each key's peer is found by its index, the tables of indexes and networks hold none but the keys'
-- peers, no two keys share a peer, and no reference is from the future.
pub record Linked (t : Table) : Type 0 where
  pub by_key : (k : List ℕ) (h : ℕ) → find k t.peers ≡ some h → Indexed t h
  pub by_idx :
      (i h : ℕ)
      → find_at i t.peers_by_idx ≡ some h
      → Held t h × ((p : Peer) → t.arcs h ≡ some p → p.index ≡ i)
  pub by_ip : (h : ℕ) → has_value h t.peers_by_ip ≡ true → Held t h
  pub one_key : (j k : List ℕ) (h : ℕ) → find j t.peers ≡ some h → find k t.peers ≡ some h → j ≡ k
  pub made : (k : List ℕ) (h : ℕ) → find k t.peers ≡ some h → h < t.next_arc

-- Peers change and keep their indexes.
abbrev pub KeepsIndexes : Store → Store → Type 0
KeepsIndexes a b =
    (h : ℕ) (p : Peer) → a h ≡ some p → (p' : Peer) × (b h ≡ some p') × (p'.index ≡ p.index)

pub some-inj {ℓ} : {A : Type ℓ} {a b : A} → some a ≡ some b → a ≡ b
some-inj e = cc

pub with_arcs-Linked :
    (t : Table) (b : Store) → Linked t → KeepsIndexes t.arcs b → Linked (with_arcs t b)
with_arcs-Linked t b l keep = record {
  by_key = λ k h e.
      let (p, at, found) = l.by_key k h e in
      let (p', at', same) = keep h p at in
      (p', at', ap (λ i. find_at i t.peers_by_idx) same ∙ found);
  by_idx = λ i h e.
      let (held, index) = l.by_idx i h e in
      let (p, at, found) = l.by_key held.0 h held.1 in
      let (p', at', same) = keep h p at in
      (held, λ q atq. ap (λ (x : Peer). x.index) (some-inj (sym atq ∙ at')) ∙ same ∙ index p at);
  by_ip = l.by_ip;
  one_key = l.one_key;
  made = l.made;
}

pub update-KeepsIndexes :
    (a : Store) (h : ℕ) (p p' : Peer)
    → a h ≡ some p
    → p'.index ≡ p.index
    → KeepsIndexes a (update a h p')
update-KeepsIndexes a h p p' at same q₀ q atq = elim (Bool-cases (h == q₀)) [
  | inl e ↦
      rw e (
        p',
        refl,
        same ∙ ap (λ (x : Peer). x.index) (some-inj (sym at ∙ ap a (==→eq h q₀ e) ∙ atq)),
      )
  | inr e ↦ rw e (q, atq, refl)
]

-- A device with no peers.
pub remove_all-Linked : (t : Table) → Linked (remove_all t)
unfolding remove_all find find_at has_value
remove_all-Linked t = record {
  by_key = λ k h e. cc;
  by_idx = λ i h e. cc;
  by_ip = λ h e. cc;
  one_key = λ j k h e f. cc;
  made = λ k h e. cc;
}

pub if-inv {ℓ} :
    {A : Type ℓ} (b : Bool) (x y z : A)
    → (if b then x else y) ≡ z
    → (x ≡ z) ⊎ ((b ≡ false) × (y ≡ z))
if-inv true x y z e = inl e
if-inv false x y z e = inr (refl, e)

pub shutdown_endpoint_lem :
    (shuts : Shutdown) (p : Peer) {p' : Peer} → shutdown_endpoint shuts p ≡ some p' → closed p ≡ p'
unfolding shutdown_endpoint
shutdown_endpoint_lem shuts p e = elim (if-inv (is_shut shuts p.endpoint.conn) _ _ _ e) [
  | inl done ↦ some-inj done
  | inr (stuck, e') ↦ cc
]
