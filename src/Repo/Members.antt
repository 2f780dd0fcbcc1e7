-- ===== src/Repo/Members.antt =====
-- The sort of the nodes keeps the nodes.
use crosshub.Prelude.{
  ◌≡◌, ◌⊎◌, inl, inr, sym, subst, Bool, true, false, List, [], ◌∷◌, ok, ◌>>=◌, >>=-ok, ok-injective,
  if◌then◌else◌,
}
use crosshub.Repo.Addresses.{Multiaddrs, NetworkNode, less}
use crosshub.Repo.Network.{insert_node, sort_nodes}

abbrev pub Among : {A : Type 0} → A → List A → Type 0
Among a [] = ⊥
Among a (x ∷ xs) = (x ≡ a) ⊎ Among a xs

-- Two lists have the same members.
pub record Same {A : Type 0} (xs zs : List A) : Type 0 where
  pub there : (a : A) → Among a xs → Among a zs
  pub back : (a : A) → Among a zs → Among a xs

module _ (m : Multiaddrs) where
  Same-swap :
      (x y : NetworkNode) {ys zs : List NetworkNode} → Same (x ∷ ys) zs → Same (x ∷ y ∷ ys) (y ∷ zs)
  Same-swap x y {ys} {zs} k = record { there = there; back = back }
    where
      there : (a : NetworkNode) → Among a (x ∷ y ∷ ys) → Among a (y ∷ zs)
      there a (inl e) = inr (k.there a (inl e))
      there a (inr (inl e)) = inl e
      there a (inr (inr h)) = inr (k.there a (inr h))

      back : (a : NetworkNode) → Among a (y ∷ zs) → Among a (x ∷ y ∷ ys)
      back a (inl e) = inr (inl e)
      back a (inr h) = elim (k.back a h) [ inl e ↦ inl e | inr g ↦ inr (inr g) ]

  insert_branch-Same :
      (x y : NetworkNode) (ys : List NetworkNode) (b : Bool) {zs : List NetworkNode}
      → (if b then ok (x ∷ y ∷ ys) else insert_node m x ys >>= (λ ws. ok (y ∷ ws))) ≡ ok zs
      → ((ws : List NetworkNode) → insert_node m x ys ≡ ok ws → Same (x ∷ ys) ws)
      → Same (x ∷ y ∷ ys) zs
  insert_branch-Same x y ys true h rest =
      rw (← ok-injective h) (record { there = λ a p. p; back = λ a p. p })
  insert_branch-Same x y ys false h rest =
      >>=-ok (insert_node m x ys) _ h
        λ ws ew h1. rw (← ok-injective h1) (Same-swap x y (rest ws ew))

  insert_node-Same :
      (x : NetworkNode) (ys : List NetworkNode) {zs : List NetworkNode}
      → insert_node m x ys ≡ ok zs
      → Same (x ∷ ys) zs
  unfolding insert_node
  insert_node-Same x [] h = rw (← ok-injective h) (record { there = λ a p. p; back = λ a p. p })
  insert_node-Same x (y ∷ ys) h =
      >>=-ok (less m x y) _ h
        λ b eb h1. insert_branch-Same x y ys b h1 (λ ws. insert_node-Same x ys)

  pub sort_nodes-there :
      (xs done : List NetworkNode) {zs : List NetworkNode}
      → sort_nodes m xs done ≡ ok zs
      → (a : NetworkNode) → Among a xs ⊎ Among a done
      → Among a zs
  unfolding sort_nodes
  sort_nodes-there [] done h a (inl p) = elim p [ ]
  sort_nodes-there [] done h a (inr p) = rw (← ok-injective h) p
  sort_nodes-there (x ∷ xs) done h a p = >>=-ok (insert_node m x done) _ h λ more e h1.
      let k = insert_node-Same x done e in
      sort_nodes-there xs more h1 a (elim p [
        | inl (inl q) ↦ inr (k.there a (inl q))
        | inl (inr q) ↦ inl q
        | inr q ↦ inr (k.there a (inr q))
      ])

  pub sort_nodes-back :
      (xs done : List NetworkNode) {zs : List NetworkNode}
      → sort_nodes m xs done ≡ ok zs
      → (a : NetworkNode) → Among a zs
      → Among a xs ⊎ Among a done
  unfolding sort_nodes
  sort_nodes-back [] done h a p = inr (subst (Among a) (sym (ok-injective h)) p)
  sort_nodes-back (x ∷ xs) done h a p = >>=-ok (insert_node m x done) _ h λ more e h1.
      let k = insert_node-Same x done e in
      elim (sort_nodes-back xs more h1 a p) [
        | inl q ↦ inl (inr q)
        | inr q ↦ elim (k.back a q) [ inl r ↦ inl (inl r) | inr r ↦ inr r ]
      ]
