-- ===== src/Repo/Sorted.antt =====
-- What the sort of the nodes by their peer IDs keeps, and the order that it brings about.
use crosshub.Prelude.{
  ℕ, suc, length, ◌+◌, ◌≡◌, ◌⊎◌, inl, inr, refl, sym, ap, ◌∙◌, Bool, true, false, Bytes, eq_bytes,
  eq_bytes_sound, List, [], ◌∷◌, map, Option, none, some, Run, ok, panic, ◌>>=◌, >>=-ok,
  ok-injective, or_else, Bool-cases, if◌then◌else◌, arith,
}
use crosshub.Repo.Order.{lt_bytes, lt_bytes_asymm, lt_bytes_antisymm, lt_bytes_trans, rank}
use crosshub.Repo.Addresses.{Multiaddrs, NetworkNode, ConfigError, first_addr, id_or_panic, less}
use crosshub.Repo.Network.{insert_node, sort_nodes}

-- How often a key is in a list.
unfoldable pub times : Bytes → List Bytes → ℕ
times a [] = 0
times a (k ∷ ks) = (if eq_bytes k a then 1 else 0) + times a ks

pub eq_bytes_refl : (a : Bytes) → eq_bytes a a ≡ true
unfolding eq_bytes
eq_bytes_refl [] = refl
eq_bytes_refl (x ∷ xs) = ground (arith, eq_bytes_refl xs)

-- No key of the list is less.
abbrev pub NoneBelow : Bytes → List Bytes → Type 0
NoneBelow k [] = Unit {0}
NoneBelow k (j ∷ ks) = (lt_bytes j k ≡ false) × NoneBelow k ks

abbrev pub IsAscending : List Bytes → Type 0
IsAscending [] = Unit {0}
IsAscending (k ∷ ks) = NoneBelow k ks × IsAscending ks

-- A key that the list has is not less than one below which it has none.
pub lt_bytes_of_times :
    (k a : Bytes) (ks : List Bytes) → NoneBelow k ks → (times a ks ≡ 0) ⊎ (lt_bytes a k ≡ false)
unfolding times
lt_bytes_of_times k a [] h = inl refl
lt_bytes_of_times k a (j ∷ ks) (n, h) =
    ground (arith, lt_bytes_of_times k a ks h, eq_bytes_sound j a)

-- Nothing but the key itself is no greater, where nothing is less.
pub rank_of_times : (k : Bytes) (ks : List Bytes) → NoneBelow k ks → times k ks ≡ 0 → rank k ks ≡ 0
unfolding times rank
rank_of_times k [] h t = refl
rank_of_times k (j ∷ ks) (n, h) t = elim (Bool-cases (lt_bytes k j)) [
  | inl less_k ↦ ground (arith, rank_of_times k ks h)
  | inr same ↦
      let e : j ≡ k = lt_bytes_antisymm j k n same in
      ground (arith, eq_bytes_refl k, ap (λ i. eq_bytes i k) e)
]

pub NoneBelow-trans :
    (k j : Bytes) (ks : List Bytes) → lt_bytes j k ≡ false → NoneBelow j ks → NoneBelow k ks
NoneBelow-trans k j [] h n = tt
NoneBelow-trans k j (i ∷ ks) h (p, n) = (lt_bytes_trans k j i p h, NoneBelow-trans k j ks h n)

module _ (m : Multiaddrs) where
  -- The ID in a parsed address, empty where there is none.
  unfoldable pub id_in : Option m.Multiaddr → Bytes
  id_in none = []
  id_in (some ma) = m.split_id ma

  -- The peer ID in the first address of a node.
  unfoldable pub id_of : List Bytes → Bytes
  id_of [] = []
  id_of (a ∷ rest) = id_in (m.new_multiaddr a)

  abbrev pub key : NetworkNode → Bytes
  key x = id_of x.addrs

  abbrev pub keys : List NetworkNode → List Bytes
  keys xs = map key xs

  id_or_panic-eq : (k : Bytes) {i : Bytes} → id_or_panic m k ≡ ok i → i ≡ k
  id_or_panic-eq [] h = absurd (cc)
  id_or_panic-eq (c ∷ cs) h = cc

  or_else-panic {ℓ} :
      {A : Type ℓ} (o : Option A) {a : A}
      → ◌≡◌ {A = Run ConfigError A} (or_else o panic) (ok a)
      → o ≡ some a
  or_else-panic none h = absurd (cc)
  or_else-panic (some b) h = cc

  id_of-eq :
      (addrs : List Bytes) {a i : Bytes} {ma : m.Multiaddr}
      → first_addr addrs ≡ ok a
      → ◌≡◌ {A = Run ConfigError m.Multiaddr} (or_else (m.new_multiaddr a) panic) (ok ma)
      → id_or_panic m (m.split_id ma) ≡ ok i
      → i ≡ id_of addrs
  unfolding id_of id_in
  id_of-eq [] e f g = absurd (cc)
  id_of-eq (b ∷ rest) {a} {i} {ma} e f g =
      let here : a ≡ b = sym (ok-injective e) in
      id_or_panic-eq (m.split_id ma) g
      ∙ sym (ap id_in (sym (ap m.new_multiaddr here) ∙ or_else-panic (m.new_multiaddr a) f))

  less-eq : (x y : NetworkNode) {b : Bool} → less m x y ≡ ok b → b ≡ lt_bytes (key x) (key y)
  unfolding less
  less-eq x y h = >>=-ok (first_addr x.addrs) _ h λ a ea h1.
      >>=-ok (first_addr y.addrs) _ h1 λ b eb h2.
        >>=-ok (or_else (m.new_multiaddr a) panic) _ h2 λ ma fa h3.
          >>=-ok (or_else (m.new_multiaddr b) panic) _ h3 λ mb fb h4.
            >>=-ok (id_or_panic m (m.split_id ma)) _ h4 λ i ga h5.
              >>=-ok (id_or_panic m (m.split_id mb)) _ h5
                λ j gb h6. ground (arith, id_of-eq x.addrs ea fa ga, id_of-eq y.addrs eb fb gb)

  -- What an insertion does to the keys: it adds one, among them in order.
  record Inserted (k : Bytes) (ks zs : List Bytes) : Type 0 where
    one_longer : length zs ≡ suc (length ks)
    rank_grows : (a : Bytes) → rank a zs ≡ rank a (k ∷ ks)
    times_grows : (a : Bytes) → times a zs ≡ times a (k ∷ ks)
    none_below : (j : Bytes) → lt_bytes k j ≡ false → NoneBelow j ks → NoneBelow j zs
    ascending : IsAscending ks → IsAscending zs

  Inserted-first :
      (k j : Bytes) (ks : List Bytes) → lt_bytes k j ≡ true → Inserted k (j ∷ ks) (k ∷ j ∷ ks)
  Inserted-first k j ks less = record {
    one_longer = refl;
    rank_grows = λ a. refl;
    times_grows = λ a. refl;
    none_below = λ i p n. (p, n);
    ascending =
        λ s. ((lt_bytes_asymm k j less, NoneBelow-trans k j ks (lt_bytes_asymm k j less) s.0), s);
  }

  Inserted-later :
      (k j : Bytes) (ks zs : List Bytes)
      → lt_bytes k j ≡ false
      → Inserted k ks zs
      → Inserted k (j ∷ ks) (j ∷ zs)
  unfolding rank times
  Inserted-later k j ks zs p i = record {
    one_longer = ap suc i.one_longer;
    rank_grows = λ a. omega (arith, i.rank_grows a);
    times_grows = λ a. omega (arith, i.times_grows a);
    none_below = λ l q n. (n.0, i.none_below l q n.1);
    ascending = λ s. (i.none_below j p s.0, i.ascending s.1);
  }

  Inserted-nil : (k : Bytes) → Inserted k [] (k ∷ [])
  Inserted-nil k = record {
    one_longer = refl;
    rank_grows = λ a. refl;
    times_grows = λ a. refl;
    none_below = λ j p n. (p, n);
    ascending = λ s. (tt, s);
  }

  Inserted-branch :
      (x y : NetworkNode) (ys : List NetworkNode) (b : Bool) {zs : List NetworkNode}
      → lt_bytes (key x) (key y) ≡ b
      → (if b then ok (x ∷ y ∷ ys) else insert_node m x ys >>= (λ ws. ok (y ∷ ws))) ≡ ok zs
      → ((ws : List NetworkNode)
          → insert_node m x ys ≡ ok ws
          → Inserted (key x) (keys ys) (keys ws))
      → Inserted (key x) (keys (y ∷ ys)) (keys zs)
  Inserted-branch x y ys true e h rest =
      rw (← ok-injective h) (Inserted-first (key x) (key y) (keys ys) e)
  Inserted-branch x y ys false e h rest = >>=-ok (insert_node m x ys) _ h λ ws ew h1.
      rw (← ok-injective h1) (Inserted-later (key x) (key y) (keys ys) (keys ws) e (rest ws ew))

  insert_node-Inserted :
      (x : NetworkNode) (ys : List NetworkNode) {zs : List NetworkNode}
      → insert_node m x ys ≡ ok zs
      → Inserted (key x) (keys ys) (keys zs)
  unfolding insert_node
  insert_node-Inserted x [] h = rw (← ok-injective h) (Inserted-nil (key x))
  insert_node-Inserted x (y ∷ ys) {zs} h = >>=-ok (less m x y) _ h λ b eb h1.
      Inserted-branch x y ys b (sym (less-eq x y eb)) h1 (λ ws. insert_node-Inserted x ys)

  -- What the sort keeps.
  pub record Sorted (xs done zs : List NetworkNode) : Type 0 where
    pub same_length : length (keys zs) ≡ length (keys xs) + length (keys done)
    pub same_rank : (a : Bytes) → rank a (keys zs) ≡ rank a (keys xs) + rank a (keys done)
    pub same_times : (a : Bytes) → times a (keys zs) ≡ times a (keys xs) + times a (keys done)
    pub ascending : IsAscending (keys done) → IsAscending (keys zs)

  pub sort_nodes-Sorted :
      (xs done : List NetworkNode) {zs : List NetworkNode}
      → sort_nodes m xs done ≡ ok zs
      → Sorted xs done zs
  unfolding sort_nodes rank times
  sort_nodes-Sorted [] done h = rw (← ok-injective h) (record {
    same_length = omega arith;
    same_rank = λ a. omega arith;
    same_times = λ a. omega arith;
    ascending = λ s. s;
  })
  sort_nodes-Sorted (x ∷ xs) done h = >>=-ok (insert_node m x done) _ h λ more e h1.
      let i = insert_node-Inserted x done e in
      let r = sort_nodes-Sorted xs more h1 in
      record {
        same_length = omega (arith, i.one_longer, r.same_length);
        same_rank = λ a. omega (arith, i.rank_grows a, r.same_rank a);
        same_times = λ a. omega (arith, i.times_grows a, r.same_times a);
        ascending = λ s. r.ascending (i.ascending s);
      }
