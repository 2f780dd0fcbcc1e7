-- ===== src/Repo/Agreement.antt =====
-- The numbers of loadNetworkConfig, from the file alone, and between two hubs.
use mathlib.Core.List.Perm
use mathlib.Core.List.{Perm, foldr}
use crosshub.Prelude.{
  ℕ, ◌+◌, ◌≤◌, ◌≡◌, ◌≢◌, inl, inr, refl, sym, ap, subst, ◌∙◌, ◌==◌, ltb, leb, not, ◌&&◌, true,
  Bytes, eq_bytes, eq_bytes_sound, List, [], ◌∷◌, map, length, none, some, ok, Bool-cases,
  if◌then◌else◌, arith,
}
use crosshub.Swarm.Peers.{AddrInfo}
use crosshub.Swarm.Messages.{peer_of}
use crosshub.Repo.Order.{
  rank, lt_bytes, lt_bytes_irrefl, lt_bytes_asymm, lt_bytes_trans, lt_bytes_antisymm,
}
use crosshub.Repo.Addresses.{Multiaddrs, IsMultiaddrs, addrs_to_peer_info}
use crosshub.Repo.Network.{NetworkConfig, load_network_config}
use crosshub.Repo.Sorted.{times, id_of, key, keys}
use crosshub.Repo.Members.{Among}
use crosshub.Repo.Numbers.{number_nodes-missing, number_nodes-found}
use crosshub.Repo.Others.{is_some, HasInfo, peer_of-others, number_nodes-HasInfo}
use crosshub.Repo.Loading.{with_default, Loaded, load_network_config-Loaded}

rank_step : Bytes → Bytes → ℕ → ℕ
rank_step a k n = (if lt_bytes a k then 0 else 1) + n

rank-foldr : (a : Bytes) (ks : List Bytes) → rank a ks ≡ foldr (rank_step a) 0 ks
unfolding rank rank_step
rank-foldr a [] = refl
rank-foldr a (k ∷ ks) = ap (rank_step a k) (rank-foldr a ks)

rank_step_comm :
    (a k j : Bytes) (n : ℕ) → rank_step a k (rank_step a j n) ≡ rank_step a j (rank_step a k n)
unfolding rank_step
rank_step_comm a k j n = omega arith

-- The order of the list does not matter for a rank.
rank-perm : (a : Bytes) {ks js : List Bytes} → Perm ks js → rank a ks ≡ rank a js
rank-perm a {ks} {js} p =
    rank-foldr a ks
    ∙ Perm.foldr-eq (hlevel) (rank_step a) (rank_step_comm a) p 0
    ∙ sym (rank-foldr a js)

rank_lt : (a b : Bytes) (ks : List Bytes) → lt_bytes a b ≡ true → rank a ks + times b ks ≤ rank b ks
unfolding rank times
rank_lt a b [] h = omega arith
rank_lt a b (k ∷ ks) h = elim (Bool-cases (eq_bytes k b)) [
  | inl same ↦
      let e : k ≡ b = eq_bytes_sound k b same in
      ground
        (arith, rank_lt a b ks h, ap (lt_bytes a) e, ap (lt_bytes b) e, lt_bytes_irrefl b, same)
  | inr other ↦ ground (arith, rank_lt a b ks h, lt_bytes_asymm a b h, lt_bytes_trans k a b, other)
]

rank-injective :
    (a b : Bytes) (ks : List Bytes)
    → times a ks ≢ 0
    → times b ks ≢ 0
    → rank a ks ≡ rank b ks
    → a ≡ b
rank-injective a b ks ta tb e = elim (Bool-cases (lt_bytes a b)) [
  | inl below ↦ absurd (tb (omega (arith, rank_lt a b ks below)))
  | inr no_less ↦ elim (Bool-cases (lt_bytes b a)) [
    | inl above ↦ absurd (ta (omega (arith, rank_lt b a ks above)))
    | inr no_more ↦ lt_bytes_antisymm a b no_less no_more
  ]
]

zero_add : (n : ℕ) → 0 + n ≡ n
zero_add n = omega arith

some-injective : {A : Type 0} {x y : A} → some x ≡ some y → x ≡ y
some-injective h = cc

module _ (m : Multiaddrs) (laws : IsMultiaddrs m) where
  has_own :
      {file : List (List Bytes)} {c : NetworkConfig} (o : Bytes)
      → o ≢ []
      → Loaded m file (m.id_string o) c
      → times o (map (id_of m) file) ≢ 0
  has_own o ne l z =
      let missing =
        number_nodes-missing m laws o ne 0 l.sorted none l.numbered (l.same_times o ∙ z) in
      absurd (cc)

  -- Where a configuration is loaded, the node's number is the number of nodes in the file whose peer IDs
  -- are not greater than its own.
  pub load_network_config-rank :
      (file : List (List Bytes)) (o : Bytes) {c : NetworkConfig}
      → o ≢ []
      → load_network_config m (ok file) (ok (m.id_string o)) ≡ ok c
      → c.id ≡ rank o (map (id_of m) file)
  load_network_config-rank file o {c} ne h =
      let l = load_network_config-Loaded m file (m.id_string o) h in
      let found =
        number_nodes-found m laws o ne 0 l.sorted none l.numbered l.ascending
          (λ z. has_own o ne l (sym (l.same_times o) ∙ z)) in
      some-injective found ∙ zero_add (rank o (keys m l.sorted)) ∙ l.same_rank o

  -- Two hubs load files that list the same nodes, in whatever order. A node whose peer ID stands once in
  -- the file has at the other hub, under the number that it gives itself, the AddrInfo of its addresses.
  pub numbers_agree :
      (file_a file_b : List (List Bytes)) (a b addr : Bytes) (addrs : List Bytes)
      {ca cb : NetworkConfig}
      → Perm file_a file_b
      → a ≢ []
      → b ≢ []
      → a ≢ b
      → load_network_config m (ok file_a) (ok (m.id_string a)) ≡ ok ca
      → load_network_config m (ok file_b) (ok (m.id_string b)) ≡ ok cb
      → Among (addr ∷ addrs) file_b
      → id_of m (addr ∷ addrs) ≡ a
      → times a (map (id_of m) file_b) ≡ 1
      → (info : AddrInfo) × (addrs_to_peer_info m (addr ∷ addrs) ≡ ok (info ∷ []))
        × (peer_of ca.id cb.other_nodes ≡ some info)
  numbers_agree file_a file_b a b addr addrs {ca} {cb} p na nb ne ha hb w e once =
      let l = load_network_config-Loaded m file_b (m.id_string b) hb in
      let x = with_default addr addrs in
      let n : ca.id ≡ rank a (map (id_of m) file_b) =
        load_network_config-rank file_a a na ha ∙ rank-perm a (Perm.map (id_of m) p) in
      let k : cb.id ≡ rank b (map (id_of m) file_b) = load_network_config-rank file_b b nb hb in
      let num : 0 + rank (key m x) (keys m l.sorted) ≡ ca.id =
        zero_add (rank (key m x) (keys m l.sorted))
        ∙ l.same_rank (key m x)
        ∙ ap (λ i. rank i (map (id_of m) file_b)) e
        ∙ sym n in
      let other : ca.id ≢ cb.id = λ z. ne (
        rank-injective a b (map (id_of m) file_b) (λ t. omega arith) (has_own b nb l)
          (sym n ∙ z ∙ k)) in
      subst (λ j. HasInfo m laws b nb cb.id j cb.other_nodes x) num
        (number_nodes-HasInfo m laws b nb cb.id 0 l.sorted none x l.numbered l.others l.ascending
          (l.there addr addrs w)
          (l.same_times (key m x) ∙ ap (λ i. times i (map (id_of m) file_b)) e ∙ once)
          (λ z. other (sym num ∙ z)))

  -- The map of the other nodes has an entry for each number from 1 to that of the nodes, but the node's
  -- own, and for no other.
  pub load_network_config-peer_of :
      (file : List (List Bytes)) (o : Bytes) {c : NetworkConfig} (j : ℕ)
      → o ≢ []
      → load_network_config m (ok file) (ok (m.id_string o)) ≡ ok c
      → is_some (peer_of j c.other_nodes) ≡ (ltb 0 j && leb j (length file) && not (j == c.id))
  load_network_config-peer_of file o {c} j ne h =
      let l = load_network_config-Loaded m file (m.id_string o) h in
      peer_of-others m laws o ne c.id 0 l.sorted none j l.numbered l.others
      ∙ ap (λ n. ltb 0 j && leb j n && not (j == c.id)) (zero_add (length l.sorted) ∙ l.same_length)
