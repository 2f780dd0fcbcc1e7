-- ===== src/Courier/Sync/Order.antt =====
-- The order in which the loop of syncBlock passes the blocks.
use crosshub.Prelude.{
  ◌+◌, ◌%◌, ◌^◌, ◌≡◌, refl, sym, ap, subst, Bool, true, false, List, ◌∷◌, inl, inr, String, Run, ok,
  err, panic, Run-cases, Bool-cases, arith,
}
use crosshub.Courier.Sync.Filter.{Block, Protos, PrepareCrossTx, contains, get_prepare_cross_txs}
use crosshub.Courier.Sync.Blocks.{
  Source, BlockSync, apply, after_filter, after_query, after_set, sync_block, Step, tick, failed,
}

module _ {D : Type 0} (protos : Protos D) (source : Source) (accept : String → Bool) where
  abbrev S : Type 0
  S = BlockSync protos source accept

  -- What a turn does to the number: nothing; or it goes on by one, with the batch that was sent for the
  -- block, or with the error that was ignored.
  pub data Turn (s t : S) : Type 0 where
    stays : t.block_num ≡ s.block_num → t.sent ≡ s.sent → t.ignored ≡ s.ignored → Turn s t
    sends :
        (block : Block) (txs : List (PrepareCrossTx D)) (state : source.State)
        → (source.query_block s.block_num state).1 ≡ ok block
        → get_prepare_cross_txs protos block accept ≡ ok txs
        → t.block_num ≡ (s.block_num + 1) % 2 ^ 64
        → t.sent ≡ txs ∷ s.sent
        → t.ignored ≡ s.ignored
        → Turn s t
    ignores :
        (e : String)
        → contains e "ignore" ≡ true
        → t.block_num ≡ (s.block_num + 1) % 2 ^ 64
        → t.sent ≡ s.sent
        → t.ignored ≡ (s.block_num, e) ∷ s.ignored
        → Turn s t

  -- The fields that a turn changes come from another state.
  abbrev Same : S → S → Type 0
  Same s t = (t.block_num ≡ s.block_num) × (t.sent ≡ s.sent) × (t.ignored ≡ s.ignored)

  apply-Turn : (e : String) (s t : S) → Same s t → Turn s (apply protos source accept e t)
  unfolding apply
  apply-Turn e s t (n, b, i) = elim (Bool-cases (contains e "Entry not found in index")) [
    | inl found ↦ stays (ground (arith, found)) (ground (arith, found)) (ground (arith, found))
    | inr other ↦ elim (Bool-cases (contains e "ignore")) [
      | inl ign ↦
          ignores e ign (ground (arith, other, ign)) (ground (arith, other, ign))
            (ground (arith, other, ign))
      | inr stop ↦
          stays (ground (arith, other, stop)) (ground (arith, other, stop))
            (ground (arith, other, stop))
    ]
  ]

  after_query-Turn :
      (r : Run String Block) (state : source.State) (s t u : S)
      → (source.query_block s.block_num state).1 ≡ r
      → Same s t
      → after_query protos source accept r t ≡ (u, ok tt)
      → Turn s u
  unfolding after_query after_filter
  after_query-Turn (ok block) state s t u q (n, b, i) h =
      Run-cases (get_prepare_cross_txs protos block accept)
        (λ txs e.
          sends block txs state q e (ground (arith, e)) (ground (arith, e)) (ground (arith, e)))
        (λ x e.
          let same : apply protos source accept x t ≡ u = ground (arith, e) in
          subst (Turn s) same (apply-Turn x s t (n, b, i)))
        (λ e. absurd (ground (arith, e)))
  after_query-Turn (err x) state s t u q same h =
      let done : apply protos source accept x t ≡ u = ground arith in
      subst (Turn s) done (apply-Turn x s t same)
  after_query-Turn panic state s t u q same h = absurd (ground arith)

  after_set-Turn :
      (r : Run String (Unit {0})) (s t u : S)
      → Same s t
      → after_set protos source accept r t ≡ (u, ok tt)
      → Turn s u
  unfolding after_set
  after_set-Turn (ok x) s t u (n, b, i) h =
      let (state, block) = source.query_block t.block_num t.state in
      after_query-Turn ((source.query_block t.block_num t.state).1) t.state s
        (record t { state = (source.query_block t.block_num t.state).0 }) u
        (ap (λ m. (source.query_block m t.state).1) (sym n)) (n, b, i) h
  after_set-Turn (err x) s t u same h =
      let done : apply protos source accept x t ≡ u = ground arith in
      subst (Turn s) done (apply-Turn x s t same)
  after_set-Turn panic s t u same h = absurd (ground arith)

  pub Step-Turn : {s t : S} → Step protos source accept s t → Turn s t
  unfolding sync_block
  Step-Turn (tick s t armed h) =
      after_set-Turn ((source.set_number s.block_num s.state).1) s
        (record s { armed = false; state = (source.set_number s.block_num s.state).0 }) t
        (refl, refl, refl) h
  Step-Turn (failed s e) = apply-Turn e s s (refl, refl, refl)
