-- ===== src/Repo/Others.antt =====
-- The other nodes of a network configuration, by their numbers.
use crosshub.Prelude.{
  ℕ, suc, ◌+◌, ◌<◌, ◌≡◌, ◌≢◌, inl, inr, sym, ap, subst, ◌∙◌, ◌==◌, ltb, leb, not, ◌&&◌, Bool, true,
  false, Bytes, eq_bytes, List, [], ◌∷◌, length, Option, none, some, ok, ◌>>=◌, >>=-ok,
  ok-injective, map_err, map_err-ok, Bool-cases, if◌then◌else◌, arith,
}
use crosshub.Swarm.Peers.{AddrInfo}
use crosshub.Swarm.Messages.{peer_of}
use crosshub.Repo.Order.{rank, lt_bytes, lt_bytes_irrefl}
use crosshub.Repo.Addresses.{
  Multiaddrs, IsMultiaddrs, NetworkNode, wrong_network_addr, addrs_to_peer_info,
}
use crosshub.Repo.Network.{number_nodes, other_nodes_of, only_info}
use crosshub.Repo.Sorted.{
  times, eq_bytes_refl, IsAscending, lt_bytes_of_times, rank_of_times, key, keys,
}
use crosshub.Repo.Numbers.{number_nodes-step}
use crosshub.Repo.Members.{Among}

abbrev pub is_some {ℓ} : {A : Type ℓ} → Option A → Bool
is_some none = false
is_some (some a) = true

module _ (m : Multiaddrs) where
  only_info-eq :
      (infos : List AddrInfo) {info : AddrInfo} → only_info m infos ≡ ok info → infos ≡ info ∷ []
  only_info-eq [] h = absurd (cc)
  only_info-eq (i ∷ []) h = cc
  only_info-eq (i ∷ j ∷ more) h = absurd (cc)

  -- A turn of the loop: the node is this one, or its one AddrInfo is kept under its number.
  other_nodes_of-step {ℓ} :
      {Q : Type ℓ} (id : ℕ) (x : NetworkNode) (xs : List NetworkNode) {others : List (ℕ × AddrInfo)}
      → other_nodes_of m id (x ∷ xs) ≡ ok others
      → ((x.id == id) ≡ true → other_nodes_of m id xs ≡ ok others → Q)
      → ((info : AddrInfo) (rest : List (ℕ × AddrInfo))
          → (x.id == id) ≡ false
          → addrs_to_peer_info m x.addrs ≡ ok (info ∷ [])
          → other_nodes_of m id xs ≡ ok rest
          → (x.id, info) ∷ rest ≡ others
          → Q)
      → Q
  unfolding other_nodes_of
  other_nodes_of-step id x xs h skip add = elim (Bool-cases (x.id == id)) [
    | inl self ↦ skip self (rw self at h)
    | inr other ↦
        let h0 : (map_err wrong_network_addr (addrs_to_peer_info m x.addrs) >>= λ infos.
        only_info m infos >>= λ info. other_nodes_of m id xs >>= λ rest. ok ((x.id, info) ∷ rest))
            ≡ ok _ =
          rw other at h in
        >>=-ok (map_err wrong_network_addr (addrs_to_peer_info m x.addrs)) _ h0 λ infos ei h1.
          >>=-ok (only_info m infos) _ h1 λ info eo h2.
            >>=-ok (other_nodes_of m id xs) _ h2 λ rest er h3.
              add info rest other
                (map_err-ok wrong_network_addr (addrs_to_peer_info m x.addrs) ei
                  ∙ ap ok (only_info-eq infos eo))
                er (ok-injective h3)
  ]

  module _ (laws : IsMultiaddrs m) (o : Bytes) (o-ne-nil : o ≢ []) (id : ℕ) where
    -- What the map has under each number.
    pub peer_of-others :
        (i : ℕ) (xs : List NetworkNode) (found : Option ℕ) {r : List NetworkNode × Option ℕ}
        {others : List (ℕ × AddrInfo)} (j : ℕ)
        → number_nodes m (m.id_string o) i xs found ≡ ok r
        → other_nodes_of m id r.0 ≡ ok others
        → is_some (peer_of j others) ≡ (ltb i j && leb j (i + length xs) && not (j == id))
    unfolding peer_of number_nodes other_nodes_of
    peer_of-others i [] found {r} {others} j h k =
        let at_end : other_nodes_of m id [] ≡ ok others =
          subst (λ q. other_nodes_of m id q.0 ≡ ok others) (sym (ok-injective h)) k in
        sym (ap (λ q. is_some (peer_of j q)) (ok-injective at_end)) ∙ ground arith
    peer_of-others i (x ∷ xs) found {r} {others} j h k =
        number_nodes-step m laws o o-ne-nil i x xs found h λ rest e er.
          let next = if eq_bytes (key m x) o then some (suc i) else found in
          other_nodes_of-step id (record x { id = suc i }) rest.0
            (subst (λ q. other_nodes_of m id q.0 ≡ ok others) (sym er) k)
            (λ self eo. ground (arith, peer_of-others (suc i) xs next j e eo))
            (λ info more other ea eo el.
              sym (ap (λ q. is_some (peer_of j q)) el)
              ∙ ground (arith, peer_of-others (suc i) xs next j e eo))

    -- The map has the AddrInfo of a node under a number.
    abbrev pub HasInfo : ℕ → List (ℕ × AddrInfo) → NetworkNode → Type 0
    HasInfo n others a =
        (info : AddrInfo) × (addrs_to_peer_info m a.addrs ≡ ok (info ∷ []))
        × (peer_of n others ≡ some info)

    HasInfo-first :
        (i : ℕ) (x : NetworkNode) (xs : List NetworkNode) (found : Option ℕ)
        {r : List NetworkNode × Option ℕ} {others : List (ℕ × AddrInfo)}
        → number_nodes m (m.id_string o) i (x ∷ xs) found ≡ ok r
        → other_nodes_of m id r.0 ≡ ok others
        → suc i ≢ id
        → HasInfo (suc i) others x
    unfolding peer_of
    HasInfo-first i x xs found {r} {others} h k ne =
        number_nodes-step m laws o o-ne-nil i x xs found h λ rest e er.
          other_nodes_of-step id (record x { id = suc i }) rest.0
            (subst (λ q. other_nodes_of m id q.0 ≡ ok others) (sym er) k)
            (λ self eo. absurd (ground arith))
            (λ info more other ea eo el. (info, ea, sym (ap (peer_of (suc i)) el) ∙ ground arith))

    times-rank_of_Among :
        (a : NetworkNode) (xs : List NetworkNode)
        → Among a xs
        → (0 < times (key m a) (keys m xs)) × (0 < rank (key m a) (keys m xs))
    unfolding times rank
    times-rank_of_Among a [] w = elim w [ ]
    times-rank_of_Among a (x ∷ xs) (inl e) =
        let same : key m x ≡ key m a = ap (key m) e in
        ground (
          arith,
          ap (λ k. eq_bytes k (key m a)) same,
          ap (λ k. lt_bytes (key m a) k) same,
          eq_bytes_refl (key m a),
          lt_bytes_irrefl (key m a),
        )
    times-rank_of_Among a (x ∷ xs) (inr w) = ground (arith, times-rank_of_Among a xs w)

    rank-first :
        (k : Bytes) (ks : List Bytes)
        → IsAscending (k ∷ ks)
        → times k (k ∷ ks) ≡ 1
        → rank k (k ∷ ks) ≡ 1
    unfolding times rank
    rank-first k ks s t = ground (arith, rank_of_times k ks s.0, eq_bytes_refl k, lt_bytes_irrefl k)

    rank-later :
        (a x : NetworkNode) (xs : List NetworkNode)
        → IsAscending (keys m (x ∷ xs))
        → Among a xs
        → times (key m a) (keys m (x ∷ xs)) ≡ 1
        → (rank (key m a) (keys m (x ∷ xs)) ≡ 1 + rank (key m a) (keys m xs))
          × (times (key m a) (keys m xs) ≡ 1)
    unfolding times rank
    rank-later a x xs s w t =
        ground
          (arith, times-rank_of_Among a xs w, lt_bytes_of_times (key m x) (key m a) (keys m xs) s.0)

    -- Where no other node has the ID of a node, the map has its AddrInfo under the number of nodes whose
    -- IDs are no greater.
    pub number_nodes-HasInfo :
        (i : ℕ) (xs : List NetworkNode) (found : Option ℕ) {r : List NetworkNode × Option ℕ}
        {others : List (ℕ × AddrInfo)} (a : NetworkNode)
        → number_nodes m (m.id_string o) i xs found ≡ ok r
        → other_nodes_of m id r.0 ≡ ok others
        → IsAscending (keys m xs)
        → Among a xs
        → times (key m a) (keys m xs) ≡ 1
        → i + rank (key m a) (keys m xs) ≢ id
        → HasInfo (i + rank (key m a) (keys m xs)) others a
    unfolding peer_of
    number_nodes-HasInfo i [] found a h k s w t ne = elim w [ ]
    number_nodes-HasInfo i (x ∷ xs) found {r} {others} a h k s (inl e) t ne =
        let t' : times (key m x) (keys m (x ∷ xs)) ≡ 1 =
          subst (λ b. times (key m b) (keys m (x ∷ xs)) ≡ 1) (sym e) t in
        let same : rank (key m a) (keys m (x ∷ xs)) ≡ 1 =
          ap (λ b. rank (key m b) (keys m (x ∷ xs))) (sym e)
          ∙ rank-first (key m x) (keys m xs) s t' in
        let n : suc i ≡ i + rank (key m a) (keys m (x ∷ xs)) = omega arith in
        subst (λ j. HasInfo j others a) n
          (subst (HasInfo (suc i) others) e (HasInfo-first i x xs found h k (λ z. ne (sym n ∙ z))))
    number_nodes-HasInfo i (x ∷ xs) found {r} {others} a h k s (inr w) t ne =
        let (later, t') = rank-later a x xs s w t in
        let n : suc i + rank (key m a) (keys m xs) ≡ i + rank (key m a) (keys m (x ∷ xs)) =
          omega arith in
        number_nodes-step m laws o o-ne-nil i x xs found h λ rest e er.
          let next = if eq_bytes (key m x) o then some (suc i) else found in
          other_nodes_of-step id (record x { id = suc i }) rest.0
            (subst (λ q. other_nodes_of m id q.0 ≡ ok others) (sym er) k)
            (λ self eo.
              subst (λ j. HasInfo j others a) n
                (number_nodes-HasInfo (suc i) xs next a e eo s.1 w t' (λ z. ne (sym n ∙ z))))
            (λ info more other ea eo el.
              let (own, eq, found_own) =
                number_nodes-HasInfo (suc i) xs next a e eo s.1 w t' (λ z. ne (sym n ∙ z)) in
              (
                own,
                eq,
                sym (ap (peer_of (i + rank (key m a) (keys m (x ∷ xs)))) el)
                    ∙ ground (arith, times-rank_of_Among a xs w, ap (λ j. peer_of j more) n),
              ))
