-- ===== src/Repo/Local.antt =====
-- The local address of a node: its own first address without the peer ID.
use crosshub.Prelude.{
  ℕ, zero, suc, ◌≤◌, ◌≡◌, ◌≢◌, inl, inr, refl, sym, ap, subst, ◌∙◌, ◌==◌, true, Bytes, eq_bytes,
  eq_bytes_sound, List, [], ◌∷◌, ◌++◌, take, drop, length, Option, none, some, ok, err, >>=-ok,
  ok-injective, or_else, or_else-eq-ok, Bool-cases, Option-cases, if◌then◌else◌, arith,
}
use crosshub.Repo.Addresses.{Multiaddrs, IsMultiaddrs, NetworkNode, no_pid_in_bootstrap}
use crosshub.Repo.Network.{
  NetworkConfig, p2p_part, has_prefix, last_index, number_nodes, local_of, cut_local,
  load_network_config,
}
use crosshub.Repo.Sorted.{times, id_of, key, keys}
use crosshub.Repo.Members.{Among}
use crosshub.Repo.Numbers.{number_nodes-step, number_nodes-missing}
use crosshub.Repo.Loading.{load_network_config-Loaded}

take-append-drop : (n : ℕ) (s : Bytes) → take n s ++ drop n s ≡ s
take-append-drop zero s = refl
take-append-drop (suc n) [] = refl
take-append-drop (suc n) (c ∷ cs) = ap (◌∷◌ c) (take-append-drop n cs)

-- Where a text is cut, and what stands behind: the first part of it begins no later place.
record Cut (s p : Bytes) (i : ℕ) : Type 0 where
  rest : Bytes
  place : length (take i s) ≡ i
  parts : s ≡ take i s ++ (p ++ rest)
  last : last_index (drop (suc i) s) p ≡ none

has_prefix-append : (p s : Bytes) → has_prefix p s ≡ true → s ≡ p ++ drop (length p) s
unfolding has_prefix
has_prefix-append p s h =
    sym (take-append-drop (length p) s)
    ∙ ap (λ q. q ++ drop (length p) s) (sym (eq_bytes_sound p (take (length p) s) h))

some-injective : {A : Type 0} {x y : A} → some x ≡ some y → x ≡ y
some-injective h = cc

Cut-later : (c : ℕ) (cs p : Bytes) (j : ℕ) → Cut cs p j → Cut (c ∷ cs) p (suc j)
Cut-later c cs p j k = record {
  rest = k.rest;
  place = ap suc k.place;
  parts = ap (◌∷◌ c) k.parts;
  last = k.last;
}

Cut-first :
    (c : ℕ) (cs p : Bytes)
    → last_index cs p ≡ none
    → has_prefix p (c ∷ cs) ≡ true
    → Cut (c ∷ cs) p 0
Cut-first c cs p e h = record {
  rest = drop (length p) (c ∷ cs);
  place = refl;
  parts = has_prefix-append p (c ∷ cs) h;
  last = e;
}

last_index-Cut : (s p : Bytes) {i : ℕ} → p ≢ [] → last_index s p ≡ some i → Cut s p i
unfolding last_index has_prefix eq_bytes
last_index-Cut [] [] ne h = absurd (ne refl)
last_index-Cut [] (q ∷ ps) ne h = absurd (cc)
last_index-Cut (c ∷ cs) p {i} ne h = elim (Option-cases (last_index cs p)) [
  | inl e ↦
      let h' : (if has_prefix p (c ∷ cs) then some 0 else none) ≡ some i = rw e at h in
      elim (Bool-cases (has_prefix p (c ∷ cs))) [
        | inl yes_prefix ↦
            let at0 : some 0 ≡ some i = rw yes_prefix at h' in
            subst (Cut (c ∷ cs) p) (some-injective at0) (Cut-first c cs p e yes_prefix)
        | inr no_prefix ↦ let nowhere : none ≡ some i = rw no_prefix at h' in absurd (cc)
      ]
  | inr (j, e) ↦
      let h' : some (suc j) ≡ some i = rw e at h in
      subst (Cut (c ∷ cs) p) (some-injective h') (Cut-later c cs p j (last_index-Cut cs p ne e))
]

-- What cut_local leaves.
cut_local-Cut :
    (m : Multiaddrs) (s : Bytes) {local : Bytes}
    → cut_local m s ≡ ok local
    → (i : ℕ) × Cut s p2p_part i × (local ≡ take i s)
cut_local-Cut m [] h = absurd (cc)
cut_local-Cut m (c ∷ cs) h =
    >>=-ok (or_else (last_index (c ∷ cs) p2p_part) (err no_pid_in_bootstrap)) _ h λ i e h1. (
      i,
      last_index-Cut (c ∷ cs) p2p_part (λ z. absurd (cc))
          (or_else-eq-ok (last_index (c ∷ cs) p2p_part) no_pid_in_bootstrap e),
      sym (ok-injective h1),
    )

module _ (m : Multiaddrs) (laws : IsMultiaddrs m) (o : Bytes) (o-ne-nil : o ≢ []) where
  -- The loop passes over the nodes with greater numbers.
  local_of-later :
      (i id : ℕ) (xs : List NetworkNode) (found : Option ℕ) {r : List NetworkNode × Option ℕ}
      (addr : Bytes)
      → number_nodes m (m.id_string o) i xs found ≡ ok r
      → id ≤ i
      → local_of m id r.0 addr ≡ addr
  unfolding local_of number_nodes
  local_of-later i id [] found addr h le = sym (ap (λ q. local_of m id q.0 addr) (ok-injective h))
  local_of-later i id (x ∷ xs) found addr h le =
      number_nodes-step m laws o o-ne-nil i x xs found h λ rest e er.
        let next = if eq_bytes (key m x) o then some (suc i) else found in
        sym (ap (λ q. local_of m id q.0 addr) er)
        ∙ ground (arith, local_of-later (suc i) id xs next addr e)

  -- The address is that of a node with the ID, where one has it.
  local_of-own :
      (i id : ℕ) (xs : List NetworkNode) (found : Option ℕ) {r : List NetworkNode × Option ℕ}
      (addr : Bytes)
      → number_nodes m (m.id_string o) i xs found ≡ ok r
      → r.1 ≡ some id
      → times o (keys m xs) ≢ 0
      → (x : NetworkNode) × Among x xs × (key m x ≡ o) × (local_of m id r.0 addr ≡ x.addr)
  unfolding local_of times
  local_of-own i id [] found addr h f t = absurd (t refl)
  local_of-own i id (x ∷ xs) found addr h f t =
      number_nodes-step m laws o o-ne-nil i x xs found h λ rest e er.
        let next = if eq_bytes (key m x) o then some (suc i) else found in
        let step = ap (λ (q : List NetworkNode × Option ℕ). local_of m id q.0 addr) er in
        elim (Bool-cases (times o (keys m xs) == 0)) [
          | inl last ↦
              let none_left : times o (keys m xs) ≡ 0 = ground arith in
              let here : eq_bytes (key m x) o ≡ true = ground arith in
              let number : suc i ≡ id =
                ground
                  (arith, number_nodes-missing m laws o o-ne-nil (suc i) xs next e none_left) in
              (
                x,
                inl refl,
                eq_bytes_sound (key m x) o here,
                sym step ∙ ground (arith, local_of-later (suc i) id xs next x.addr e),
              )
          | inr more ↦
              let some_left : times o (keys m xs) ≢ 0 = λ z. absurd (ground arith) in
              let (y, w, k, a) =
                local_of-own (suc i) id xs next (if suc i == id then x.addr else addr) e
                  (ground arith) some_left in
              (y, inr w, k, sym step ∙ a)
        ]

  -- Where a configuration is loaded, the first address of a node in the file that has the node's own peer
  -- ID is the local address, followed by "/p2p/" and a rest; and "/p2p/" does not stand again behind the
  -- beginning of that one.
  pub load_network_config-local_addr :
      (file : List (List Bytes)) {c : NetworkConfig}
      → load_network_config m (ok file) (ok (m.id_string o)) ≡ ok c
      → (addr : Bytes) × (addrs : List Bytes) × (rest : Bytes) × Among (addr ∷ addrs) file
        × (id_of m (addr ∷ addrs) ≡ o)
        × (addr ≡ c.local_addr ++ (p2p_part ++ rest))
        × (last_index (drop (suc (length c.local_addr)) addr) p2p_part ≡ none)
  load_network_config-local_addr file {c} h =
      let l = load_network_config-Loaded m file (m.id_string o) h in
      let t : times o (keys m l.sorted) ≢ 0 = λ z.
        let missing = number_nodes-missing m laws o o-ne-nil 0 l.sorted none l.numbered z in
        absurd (cc) in
      let (x, w, k, a) = local_of-own 0 c.id l.sorted none [] l.numbered refl t in
      let (addr, addrs, xe, there) = l.back x w in
      let (i, cut, local) = cut_local-Cut m (local_of m c.id c.nodes []) l.cut in
      let se : local_of m c.id c.nodes [] ≡ addr = a ∙ ap (λ (y : NetworkNode). y.addr) xe in
      let cut' : Cut addr p2p_part i = subst (λ q. Cut q p2p_part i) se cut in
      let le : c.local_addr ≡ take i addr = local ∙ ap (take i) se in
      (
        addr,
        addrs,
        cut'.rest,
        there,
        sym (ap (key m) xe) ∙ k,
        cut'.parts ∙ ap (λ q. q ++ (p2p_part ++ cut'.rest)) (sym le),
        subst (λ n. last_index (drop (suc n) addr) p2p_part ≡ none)
            (sym (ap length le ∙ cut'.place)) cut'.last,
      )
