-- ===== src/Repo/Numbers.antt =====
-- The numbers that loadNetworkConfig gives to the sorted nodes, and the one it finds for its own node.
use crosshub.Prelude.{
  ℕ, suc, ◌+◌, ◌≡◌, ◌≢◌, inl, inr, refl, sym, ap, subst, ◌∙◌, ◌==◌, false, Bytes, eq_bytes,
  eq_bytes_sound, List, [], ◌∷◌, Option, some, ok, >>=-ok, ok-injective, or_else-eq-ok, Bool-cases,
  if◌then◌else◌, arith,
}
use crosshub.Repo.Order.{lt_bytes, lt_bytes_irrefl, rank}
use crosshub.Repo.Addresses.{
  Multiaddrs, IsMultiaddrs, NetworkNode, bad_multiaddr, first_addr, string_of_id, parse_addr,
  multiaddr_to_peer_id,
}
use crosshub.Repo.Network.{number_nodes}
use crosshub.Repo.Sorted.{
  times, eq_bytes_refl, NoneBelow, IsAscending, lt_bytes_of_times, rank_of_times, id_in, id_of, key,
  keys,
}

module _ (m : Multiaddrs) (laws : IsMultiaddrs m) (o : Bytes) (o-ne-nil : o ≢ []) where
  eq_bytes-ne : (a b : Bytes) → a ≢ b → eq_bytes a b ≡ false
  eq_bytes-ne a b ne = elim (Bool-cases (eq_bytes a b)) [
    | inl e ↦ absurd (ne (eq_bytes_sound a b e))
    | inr e ↦ e
  ]

  -- The texts of two IDs are compared in place of the IDs.
  eq_string_of_id : (k : Bytes) → eq_bytes (string_of_id m k) (m.id_string o) ≡ eq_bytes k o
  eq_string_of_id [] =
      eq_bytes-ne [] (m.id_string o) (λ e. laws.id_string-ne-nil o o-ne-nil (sym e))
      ∙ sym (eq_bytes-ne [] o (λ e. o-ne-nil (sym e)))
  eq_string_of_id (c ∷ cs) = elim (Bool-cases (eq_bytes (c ∷ cs) o)) [
    | inl e ↦
        ap (λ k. eq_bytes (m.id_string k) (m.id_string o)) (eq_bytes_sound (c ∷ cs) o e)
        ∙ eq_bytes_refl (m.id_string o)
        ∙ sym e
    | inr n ↦
        eq_bytes-ne (m.id_string (c ∷ cs)) (m.id_string o)
          (λ e. absurd (ground (arith, laws.id_string_injective (c ∷ cs) o e, eq_bytes_refl o)))
        ∙ sym n
  ]

  pid-eq :
      (addrs : List Bytes) {a pid : Bytes}
      → first_addr addrs ≡ ok a
      → multiaddr_to_peer_id m a ≡ ok pid
      → pid ≡ string_of_id m (id_of m addrs)
  unfolding id_of id_in multiaddr_to_peer_id
  pid-eq [] e h = absurd (cc)
  pid-eq (b ∷ rest) {a} {pid} e h = >>=-ok (parse_addr m a) _ h λ ma f h1.
      let here : a ≡ b = sym (ok-injective e) in
      let parsed : m.new_multiaddr b ≡ some ma =
        sym (ap m.new_multiaddr here) ∙ or_else-eq-ok (m.new_multiaddr a) bad_multiaddr f in
      rw parsed (sym (ok-injective h1))

  abbrev Numbered : Type 0
  Numbered = List NetworkNode × Option ℕ

  -- One turn of the loop, with the IDs themselves compared.
  pub number_nodes-step {ℓ} :
      {Q : Type ℓ} (i : ℕ) (x : NetworkNode) (xs : List NetworkNode) (found : Option ℕ)
      {r : Numbered}
      → number_nodes m (m.id_string o) i (x ∷ xs) found ≡ ok r
      → ((rest : Numbered)
          → number_nodes m
              (m.id_string o)
              (suc i)
              xs
              (if eq_bytes (key m x) o then some (suc i) else found)
            ≡ ok rest
          → (record x { id = suc i } ∷ rest.0, rest.1) ≡ r
          → Q)
      → Q
  unfolding number_nodes
  number_nodes-step i x xs found h k = >>=-ok (first_addr x.addrs) _ h λ a ea h1.
      >>=-ok (multiaddr_to_peer_id m a) _ h1 λ pid ep h2.
        >>=-ok
          (number_nodes m (m.id_string o) (suc i) xs
            (if eq_bytes pid (m.id_string o) then some (suc i) else found))
          _ h2
          λ rest er h3.
            let test : eq_bytes pid (m.id_string o) ≡ eq_bytes (key m x) o =
              ap (λ p. eq_bytes p (m.id_string o)) (pid-eq x.addrs ea ep)
              ∙ eq_string_of_id (key m x) in
            k rest (rw test at er) (ok-injective h3)

  pub number_nodes-missing :
      (i : ℕ) (xs : List NetworkNode) (found : Option ℕ) {r : Numbered}
      → number_nodes m (m.id_string o) i xs found ≡ ok r
      → times o (keys m xs) ≡ 0
      → r.1 ≡ found
  unfolding times number_nodes
  number_nodes-missing i [] found h t = cc
  number_nodes-missing i (x ∷ xs) found {r} h t = number_nodes-step i x xs found h λ rest e er.
      ground (
        arith,
        number_nodes-missing (suc i) xs (if eq_bytes (key m x) o then some (suc i) else found) e,
      )

  -- The number that is found is that of the last node with the ID: how many nodes have no greater one.
  pub number_nodes-found :
      (i : ℕ) (xs : List NetworkNode) (found : Option ℕ) {r : Numbered}
      → number_nodes m (m.id_string o) i xs found ≡ ok r
      → IsAscending (keys m xs)
      → times o (keys m xs) ≢ 0
      → r.1 ≡ some (i + rank o (keys m xs))
  unfolding times rank
  number_nodes-found i [] found h s t = absurd (t refl)
  number_nodes-found i (x ∷ xs) found {r} h s t = number_nodes-step i x xs found h λ rest e er.
      let next = if eq_bytes (key m x) o then some (suc i) else found in
      elim (Bool-cases (times o (keys m xs) == 0)) [
        | inl last ↦
            let none_left : times o (keys m xs) ≡ 0 = ground arith in
            let here : key m x ≡ o = ground (arith, eq_bytes_sound (key m x) o) in
            let above : NoneBelow o (keys m xs) = subst (λ k. NoneBelow k (keys m xs)) here s.0 in
            ground (
              arith,
              number_nodes-missing (suc i) xs next e none_left,
              rank_of_times o (keys m xs) above none_left,
              ap (λ k. lt_bytes o k) here,
              lt_bytes_irrefl o,
            )
        | inr more ↦
            let some_left : times o (keys m xs) ≢ 0 = λ z. absurd (ground arith) in
            ground (
              arith,
              number_nodes-found (suc i) xs next e s.1 some_left,
              lt_bytes_of_times (key m x) o (keys m xs) s.0,
            )
      ]
