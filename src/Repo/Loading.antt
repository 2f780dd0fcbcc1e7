-- ===== src/Repo/Loading.antt =====
-- What loadNetworkConfig has done where it returns a configuration.
use crosshub.Prelude.{
  suc, ◌≡◌, inl, inr, refl, sym, ap, subst, ◌∙◌, ◌==◌, not, Bytes, List, [], ◌∷◌, map, length, none,
  some, ok, err, >>=-ok, ok-injective, or_else, or_else-eq-ok, if◌then◌else◌, arith,
}
use crosshub.Repo.Order.{rank}
use crosshub.Repo.Addresses.{Multiaddrs, NetworkNode, not_matched, wrong_nodes_number}
use crosshub.Repo.Network.{
  NetworkConfig, new_node, default_addrs, sort_nodes, number_nodes, local_of, other_nodes_of,
  cut_local, nodes_number, load_network_config,
}
use crosshub.Repo.Sorted.{times, IsAscending, id_of, key, keys, sort_nodes-Sorted}
use crosshub.Repo.Members.{Among, sort_nodes-there, sort_nodes-back}

length-map : {A B : Type 0} (f : A → B) (xs : List A) → length (map f xs) ≡ length xs
length-map f [] = refl
length-map f (x ∷ xs) = ap suc (length-map f xs)

-- A node of the file, with its default address.
abbrev pub with_default : Bytes → List Bytes → NetworkNode
with_default a rest = record { id = 0; addr = a; addrs = a ∷ rest }

default_addrs-keys :
    (m : Multiaddrs) (file : List (List Bytes)) {nodes : List NetworkNode}
    → default_addrs (map new_node file) ≡ ok nodes
    → keys m nodes ≡ map (id_of m) file
unfolding default_addrs
default_addrs-keys m [] h = ap (keys m) (sym (ok-injective h))
default_addrs-keys m ([] ∷ file) h = absurd (cc)
default_addrs-keys m ((a ∷ rest) ∷ file) h =
    >>=-ok (default_addrs (map new_node file)) _ h λ ys e h1.
      ap (keys m) (sym (ok-injective h1))
      ∙ ap (◌∷◌ (id_of m (a ∷ rest))) (default_addrs-keys m file e)

default_addrs-there :
    (file : List (List Bytes)) {nodes : List NetworkNode} (a : Bytes) (rest : List Bytes)
    → default_addrs (map new_node file) ≡ ok nodes
    → Among (a ∷ rest) file
    → Among (with_default a rest) nodes
unfolding default_addrs
default_addrs-there [] a rest h w = elim w [ ]
default_addrs-there ([] ∷ file) a rest h w = absurd (cc)
default_addrs-there ((b ∷ more) ∷ file) a rest h w =
    >>=-ok (default_addrs (map new_node file)) _ h λ ys e h1.
      subst (Among (with_default a rest)) (ok-injective h1)
        (elim w [ inl same ↦ inl (cc) | inr later ↦ inr (default_addrs-there file a rest e later) ])

default_addrs-back :
    (file : List (List Bytes)) {nodes : List NetworkNode} (x : NetworkNode)
    → default_addrs (map new_node file) ≡ ok nodes
    → Among x nodes
    → (a : Bytes) × (rest : List Bytes) × (x ≡ with_default a rest) × Among (a ∷ rest) file
unfolding default_addrs
default_addrs-back [] {nodes} x h w = absurd (subst (Among x) (sym (ok-injective h)) w)
default_addrs-back ([] ∷ file) x h w = absurd (cc)
default_addrs-back ((b ∷ more) ∷ file) x h w =
    >>=-ok (default_addrs (map new_node file)) _ h λ ys e h1.
      let v : Among x (with_default b more ∷ ys) = subst (Among x) (sym (ok-injective h1)) w in
      elim v [
        | inl same ↦ (b, more, sym same, inl refl)
        | inr later ↦
            let (a, rest, eq, there) = default_addrs-back file x e later in (a, rest, eq, inr there)
      ]

module _ (m : Multiaddrs) where
  -- The sorted nodes behind a configuration, and what was made of them.
  pub record Loaded (file : List (List Bytes)) (own : Bytes) (c : NetworkConfig) : Type 0 where
    pub sorted : List NetworkNode
    pub ascending : IsAscending (keys m sorted)
    pub same_rank : (a : Bytes) → rank a (keys m sorted) ≡ rank a (map (id_of m) file)
    pub same_times : (a : Bytes) → times a (keys m sorted) ≡ times a (map (id_of m) file)
    pub same_length : length sorted ≡ length file
    pub there :
        (a : Bytes) (rest : List Bytes) → Among (a ∷ rest) file → Among (with_default a rest) sorted
    pub back :
        (x : NetworkNode)
        → Among x sorted
        → (a : Bytes) × (rest : List Bytes) × (x ≡ with_default a rest) × Among (a ∷ rest) file
    pub numbered : number_nodes m own 0 sorted none ≡ ok (c.nodes, some c.id)
    pub cut : cut_local m (local_of m c.id c.nodes []) ≡ ok c.local_addr
    pub others : other_nodes_of m c.id c.nodes ≡ ok c.other_nodes

  sort_nodes_back_nil :
      (xs : List NetworkNode) {zs : List NetworkNode}
      → sort_nodes m xs [] ≡ ok zs
      → (x : NetworkNode) → Among x zs
      → Among x xs
  sort_nodes_back_nil xs e x w = elim (sort_nodes-back m xs [] e x w) [
    | inl v ↦ v
    | inr v ↦ absurd v
  ]

  pub load_network_config-Loaded :
      (file : List (List Bytes)) (own : Bytes) {c : NetworkConfig}
      → load_network_config m (ok file) (ok own) ≡ ok c
      → Loaded file own c
  unfolding load_network_config rank times
  load_network_config-Loaded file own h =
      >>=-ok
        (if not (length (map new_node file) == nodes_number m 0 (map new_node file))
          then err wrong_nodes_number
          else ok (tt {0}))
        _ h
        λ u eu h0. >>=-ok (default_addrs (map new_node file)) _ h0 λ nodes1 e1 h1.
          >>=-ok (sort_nodes m nodes1 []) _ h1 λ nodes2 e2 h2.
            >>=-ok (number_nodes m own 0 nodes2 none) _ h2 λ numbered e3 h3.
              >>=-ok (or_else numbered.1 (err not_matched)) _ h3 λ id e4 h4.
                >>=-ok (cut_local m (local_of m id numbered.0 [])) _ h4 λ local e5 h5.
                  >>=-ok (other_nodes_of m id numbered.0) _ h5 λ others e6 h6.
                    let r = sort_nodes-Sorted m nodes1 [] e2 in
                    let k = default_addrs-keys m file e1 in
                    let found = or_else-eq-ok numbered.1 not_matched e4 in
                    subst (Loaded file own) (ok-injective h6) (record {
                      sorted = nodes2;
                      ascending = r.ascending tt;
                      same_rank = λ a. omega (arith, r.same_rank a, ap (rank a) k);
                      same_times = λ a. omega (arith, r.same_times a, ap (times a) k);
                      same_length = omega (
                        arith,
                        r.same_length,
                        ap length k,
                        length-map (key m) nodes2,
                        length-map (id_of m) file,
                      );
                      there = λ a rest w.
                          sort_nodes-there m nodes1 [] e2 (with_default a rest)
                            (inl (default_addrs-there file a rest e1 w));
                      back =
                          λ x w. default_addrs-back file x e1 (sort_nodes_back_nil nodes1 e2 x w);
                      numbered = e3 ∙ ap ok (ap (λ f. (numbered.0, f)) found);
                      cut = e5;
                      others = e6;
                    })
