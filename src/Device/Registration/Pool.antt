-- ===== src/Device/Registration/Pool.antt =====
-- The pool of addresses: each is free or one peer's.
use xelt_vpn.Prelude.{
  ℕ, zero, suc, ◌+◌, ◌≤◌, ◌≡◌, refl, ap, subst, ◌∙◌, inl, inr, Bool, true, false, ◌&&◌, ◌||◌, List,
  [], ◌∷◌, Option, none, some, ltb, leb, ◌==◌, if◌then◌else◌, ==→eq, length, bytes_eq, bytes_eq→eq,
  Bool-cases, arith,
}
use xelt_vpn.Prelude.Maps.{
  has_number, add_number, drop_number, has_key, find, erase, erase_absent, put, put-OnePerKey,
  erase-OnePerKey, find-put, find-erase, is_found, OnePerKey, has_key-add_key, has_key-drop_key,
  count, count-drop_number, count-add_number, has_number-count, length-add_number,
  length-drop_number, length-erase,
}
use xelt_vpn.Device.Registration.{RegistrationInner, insert_range, new_inner, assign, release}

abbrev pub octets : List (List ℕ × ℕ) → List ℕ
octets [] = []
octets ((k, o) ∷ m) = o ∷ octets m

-- 1 for the addresses of the pool, 0 for others.
abbrev pub in_pool : ℕ → ℕ
in_pool n = if leb 2 n && ltb n 255 then 1 else 0

pub record Valid (s : RegistrationInner) : Type 0 where
  -- No key has two addresses.
  pub one_per_key : OnePerKey s.peer_to_octet
  -- Each address of the pool is free or one peer's, and no other is either.
  pub partition : (n : ℕ) → count n s.available_ips + count n (octets s.peer_to_octet) ≡ in_pool n
  -- All addresses are there.
  pub whole : length s.available_ips + length s.peer_to_octet ≡ 253
  -- The registered peers are those with an address.
  pub same_peers : (k : List ℕ) → has_key k s.registered_peers ≡ is_found (find k s.peer_to_octet)

in_pool-le : (n : ℕ) → in_pool n ≤ 1
in_pool-le n = ground arith

count-insert_range :
    (k from : ℕ) (xs : List ℕ)
    → ((m : ℕ) → from ≤ m → count m xs ≡ 0)
    → (n : ℕ)
    → count n (insert_range k from xs)
      ≡ (if leb from n && ltb n (from + k) then 1 else 0) + count n xs
unfolding insert_range
count-insert_range zero from xs h n = ground arith
count-insert_range (suc k) from xs h n =
    let rest =
      count-insert_range k (from + 1) (add_number from xs)
        (λ m l.
          count-add_number m from xs (h from (omega arith)) ∙ ground (arith, h m (omega arith)))
        n in
    ground (arith, rest, count-add_number n from xs (h from (omega arith)))

length-insert_range :
    (k from : ℕ) (xs : List ℕ)
    → ((m : ℕ) → from ≤ m → count m xs ≡ 0)
    → length (insert_range k from xs) ≡ k + length xs
unfolding insert_range
length-insert_range zero from xs h = omega arith
length-insert_range (suc k) from xs h =
    let rest = length-insert_range k (from + 1) (add_number from xs) (λ m l.
      count-add_number m from xs (h from (omega arith)) ∙ ground (arith, h m (omega arith))) in
    omega (arith, rest, length-add_number from xs (h from (omega arith)))

pub new-Valid : Valid new_inner
unfolding new_inner count find has_key
new-Valid = record {
  one_per_key = tt;
  partition = λ n.
      let e : count n (insert_range 253 2 []) ≡ in_pool n + 0 =
        count-insert_range 253 2 [] (λ m l. refl) n in
      omega (arith, e);
  whole = omega (arith, length-insert_range 253 2 [] (λ m l. refl));
  same_peers = λ k. refl;
}

count-octets_erase :
    (n : ℕ) (k : List ℕ) (m : List (List ℕ × ℕ)) {o : ℕ}
    → OnePerKey m
    → find k m ≡ some o
    → count n (octets m) ≡ (if o == n then 1 else 0) + count n (octets (erase k m))
unfolding find erase count
count-octets_erase n k [] u e = cc
count-octets_erase n k ((j, v) ∷ m) {o} (h, u) e = elim (Bool-cases (bytes_eq j k)) [
  | inl q ↦
      let gone : find k m ≡ none = subst (λ x. find x m ≡ none) (bytes_eq→eq j k q) h in
      ground (arith, erase_absent k m gone)
  | inr q ↦
      let there : find k m ≡ some o = ground arith in
      ground (arith, count-octets_erase n k m u there)
]

-- A free address goes to a peer that has none.
pub assign-Valid :
    (s : RegistrationInner) (key : List ℕ) (octet now : ℕ)
    → Valid s
    → find key s.peer_to_octet ≡ none
    → has_number octet s.available_ips ≡ true
    → Valid (assign s key octet now)
unfolding put count
assign-Valid s key octet now v absent free = record {
  one_per_key = put-OnePerKey key octet s.peer_to_octet v.one_per_key;
  partition = part;
  whole = omega (
    arith,
    v.whole,
    length-drop_number octet s.available_ips,
    has_number-count octet s.available_ips free,
    v.partition octet,
    in_pool-le octet,
    ap length (erase_absent key s.peer_to_octet absent),
  );
  same_peers = λ k.
      rw
        (
          has_key-add_key key k s.registered_peers,
          find-put key k octet s.peer_to_octet,
          v.same_peers k,
        )
        (either (bytes_eq key k) (find k s.peer_to_octet));
}
  where
    either : (b : Bool) (o : Option ℕ) → (b || is_found o) ≡ is_found (if b then some octet else o)
    either true o = refl
    either false o = refl

    count-octets_put :
        (n : ℕ)
        → count n (octets (put key octet s.peer_to_octet))
          ≡ (if octet == n then 1 else 0) + count n (octets s.peer_to_octet)
    count-octets_put n = rw (erase_absent key s.peer_to_octet absent) refl

    same_count : (n : ℕ) → octet == n ≡ true → count octet s.available_ips ≡ count n s.available_ips
    same_count n e = ap (λ i. count i s.available_ips) (==→eq octet n e)

    part :
        (n : ℕ)
        → count n (drop_number octet s.available_ips)
            + count n (octets (put key octet s.peer_to_octet))
          ≡ in_pool n
    part n = ground (
      arith,
      v.partition n,
      in_pool-le octet,
      v.partition octet,
      has_number-count octet s.available_ips free,
      count-drop_number n octet s.available_ips,
      count-octets_put n,
      same_count n,
    )

-- A peer's address becomes free.
pub release-Valid :
    (s : RegistrationInner) (key : List ℕ) (octet : ℕ)
    → Valid s
    → find key s.peer_to_octet ≡ some octet
    → Valid (release s key octet)
release-Valid s key octet v has = record {
  one_per_key = erase-OnePerKey key s.peer_to_octet v.one_per_key;
  partition = part;
  whole = omega (
    arith,
    v.whole,
    length-add_number octet s.available_ips unassigned,
    length-erase key s.peer_to_octet v.one_per_key has,
  );
  same_peers = λ k.
      rw
        (
          has_key-drop_key key k s.registered_peers,
          find-erase key k s.peer_to_octet,
          v.same_peers k,
        )
        (either (bytes_eq key k) (find k s.peer_to_octet));
}
  where
    either :
        (b : Bool) (o : Option ℕ)
        → (if b then false else is_found o) ≡ is_found (if b then none else o)
    either true o = refl
    either false o = refl

    unassigned : count octet s.available_ips ≡ 0
    unassigned = ground (
      arith,
      v.partition octet,
      in_pool-le octet,
      count-octets_erase octet key s.peer_to_octet v.one_per_key has,
    )

    part :
        (n : ℕ)
        → count n (add_number octet s.available_ips) + count n (octets (erase key s.peer_to_octet))
          ≡ in_pool n
    part n = omega (
      arith,
      v.partition n,
      count-add_number n octet s.available_ips unassigned,
      count-octets_erase n key s.peer_to_octet v.one_per_key has,
    )
