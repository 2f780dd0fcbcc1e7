-- ===== src/Courier/Queue.antt =====
-- The priority queue of the transaction manager (utils/prque), a copy of another project's and so a
-- parameter, with the loop that empties it.
use crosshub.Prelude.{
  ℕ, zero, suc, ◌≡◌, refl, ap, ◌∙◌, List, [], ◌∷◌, get_elem?, Option, none, some, ℤ, Option-cases,
  ◌⊎◌, inl, inr, arith,
}

-- Push with a priority and Pop; an empty queue has nothing to pop.
pub record Prque (A : Type 0) : Type 1 where
  pub Queue : Type 0
  pub push : A → ℤ → Queue → Queue
  pub pop : Queue → Option (A × Queue)
  pub size : Queue → ℕ

-- A queue holds what was pushed and not popped, each pop takes one entry off its size, and an entry
-- that is held is popped or stays.
pub record IsPrque {A : Type 0} (pq : Prque A) : Type 1 where
  pub Holds : pq.Queue → A → Type 0
  pub push-Holds : (q : pq.Queue) (a : A) (p : ℤ) → Holds (pq.push a p q) a
  pub push_keeps : (q : pq.Queue) (a : A) (p : ℤ) (b : A) → Holds q b → Holds (pq.push a p q) b
  pub pop-size : (q q' : pq.Queue) (a : A) → pq.pop q ≡ some (a, q') → pq.size q ≡ suc (pq.size q')
  pub pop_empty : (q : pq.Queue) → pq.size q ≡ 0 → pq.pop q ≡ none
  pub not_empty : (q : pq.Queue) (a : A) → Holds q a → pq.size q ≡ 0 → ⊥
  pub pop_held : (q : pq.Queue) (a : A) → Holds q a → pq.pop q ≡ none → ⊥
  pub pop_stays :
      (q q' : pq.Queue) (a b : A) → pq.pop q ≡ some (a, q') → Holds q b → (a ≡ b) ⊎ Holds q' b

module _ {A : Type 0} (pq : Prque A) where
  -- `for !prq.Empty() { prq.Pop() }` on fuel.
  unfoldable pub drain_from : ℕ → pq.Queue → List A × pq.Queue
  drain_from zero q = ([], q)
  drain_from (suc fuel) q = elim (pq.pop q) [
    | none ↦ ([], q)
    | some (a, q') ↦ let (rest, q'') = drain_from fuel q' in (a ∷ rest, q'')
  ]

  -- One unit of fuel for each entry.
  unfoldable pub drain : pq.Queue → List A × pq.Queue
  unfolding drain_from
  drain q = drain_from (pq.size q) q

module _ {A : Type 0} (pq : Prque A) (lawful : IsPrque pq) where
  -- What the loop gives from the queue that is left after a pop.
  drain_from-pop :
      (fuel : ℕ) (q q' : pq.Queue) (a : A)
      → pq.pop q ≡ some (a, q')
      → drain_from pq (suc fuel) q ≡ (a ∷ (drain_from pq fuel q').0, (drain_from pq fuel q').1)
  unfolding drain_from
  drain_from-pop fuel q q' a e = ground (arith, e)

  drain_from-empties :
      (fuel : ℕ) (q : pq.Queue) → pq.size q ≡ fuel → pq.pop ((drain_from pq fuel q).1) ≡ none
  unfolding drain_from
  drain_from-empties zero q e = lawful.pop_empty q e
  drain_from-empties (suc fuel) q e = elim (Option-cases (pq.pop q)) [
    | inl n ↦
        let r : drain_from pq (suc fuel) q ≡ ([], q) = ground (arith, n) in
        ap (λ x. pq.pop (x.1)) r ∙ n
    | inr ((a, q'), s) ↦
        ap (λ r. pq.pop (r.1)) (drain_from-pop fuel q q' a s)
        ∙ drain_from-empties fuel q' (omega (arith, lawful.pop-size q q' a s))
  ]

  drain_from-all :
      (fuel : ℕ) (q : pq.Queue) (b : A)
      → pq.size q ≡ fuel
      → lawful.Holds q b
      → (n : ℕ) × (get_elem? ((drain_from pq fuel q).0) n ≡ some b)
  unfolding drain_from
  drain_from-all zero q b e h = absurd (lawful.not_empty q b h e)
  drain_from-all (suc fuel) q b e h = elim (Option-cases (pq.pop q)) [
    | inl n ↦ absurd (lawful.pop_held q b h n)
    | inr ((a, q'), s) ↦ elim (lawful.pop_stays q q' a b s h) [
      | inl ab ↦ (0, ap (λ r. get_elem? (r.0) 0) (drain_from-pop fuel q q' a s) ∙ ap some ab)
      | inr held ↦
          let (n, at) = drain_from-all fuel q' b (omega (arith, lawful.pop-size q q' a s)) held in
          (suc n, ap (λ r. get_elem? (r.0) (suc n)) (drain_from-pop fuel q q' a s) ∙ at)
    ]
  ]

  pub pop-drain : (q : pq.Queue) → pq.pop ((drain pq q).1) ≡ none
  unfolding drain
  pop-drain q = drain_from-empties (pq.size q) q refl

  -- The loop that empties a queue takes as many turns as the queue has entries; it ends with an empty
  -- queue, and every entry that the queue held has been popped.
  pub drain-empties :
      (q : pq.Queue) (b : A)
      → lawful.Holds q b
      → (pq.pop ((drain pq q).1) ≡ none) × ((n : ℕ) × (get_elem? ((drain pq q).0) n ≡ some b))
  unfolding drain
  drain-empties q b h = (pop-drain q, drain_from-all (pq.size q) q b refl h)
