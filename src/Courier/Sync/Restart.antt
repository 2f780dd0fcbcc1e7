-- ===== src/Courier/Sync/Restart.antt =====
-- What a restart of the courier takes up: the number that syncBlock keeps in the database.
use crosshub.Prelude.{
  ℕ, zero, suc, ◌+◌, ◌^◌, ◌≤◌, ◌<◌, ◌≡◌, sym, ap, ◌∙◌, Bool, false, ◌⊎◌, inl, inr, String, Run, ok,
  err, panic, Run-cases, Bool-cases, tests, ◌==◌, arith,
}
use crosshub.Courier.Sync.Filter.{Block, Protos, contains, get_prepare_cross_txs}
use crosshub.Courier.Sync.Blocks.{
  Source, BlockSync, new_block_sync, apply, after_filter, after_query, after_set, sync_block, Step,
  tick, failed, Reach, here, next,
}
use crosshub.Courier.Sync.Order.{stays, sends, ignores, Step-Turn}
use crosshub.Courier.Sync.Passed.{IsSent, IsIgnored, Reach-Passed}

-- A number that was set is the one that is read, and nothing else changes it.
pub record IsSource (source : Source) : Type 0 where
  pub set_ok :
      (n : ℕ) (s : source.State)
      → (source.set_number n s).1 ≡ ok tt
      → source.get_number (source.set_number n s).0 ≡ n
  pub set_err :
      (n : ℕ) (s : source.State) (e : String)
      → (source.set_number n s).1 ≡ err e
      → source.get_number (source.set_number n s).0 ≡ source.get_number s
  pub query_keeps :
      (n : ℕ) (s : source.State)
      → source.get_number (source.query_block n s).0 ≡ source.get_number s

module _ {D : Type 0} (protos : Protos D) (source : Source) (lawful : IsSource source)
    (accept : String → Bool) where
  abbrev S : Type 0
  S = BlockSync protos source accept

  apply_state : (e : String) (t : S) → (apply protos source accept e t).state ≡ t.state
  unfolding apply
  apply_state e t = elim (Bool-cases (contains e "Entry not found in index")) [
    | inl found ↦ ground (arith, found)
    | inr other ↦ elim (Bool-cases (contains e "ignore")) [
      | inl ign ↦ ground (arith, other, ign)
      | inr stop ↦ ground (arith, other, stop)
    ]
  ]

  after_query_state :
      (r : Run String Block) (t u : S)
      → after_query protos source accept r t ≡ (u, ok tt)
      → u.state ≡ t.state
  unfolding after_query after_filter
  after_query_state (ok block) t u h =
      Run-cases (get_prepare_cross_txs protos block accept) (λ txs e. ground (arith, e))
        (λ x e.
          let same : apply protos source accept x t ≡ u = ground (arith, e) in
          ap (λ v. v.state) (sym same) ∙ apply_state x t)
        (λ e. absurd (ground (arith, e)))
  after_query_state (err x) t u h =
      let same : apply protos source accept x t ≡ u = ground arith in
      ap (λ v. v.state) (sym same) ∙ apply_state x t
  after_query_state panic t u h = absurd (ground arith)

  after_set_number :
      (r : Run String (Unit {0})) (t u : S)
      → after_set protos source accept r t ≡ (u, ok tt)
      → source.get_number u.state ≡ source.get_number t.state
  unfolding after_set
  after_set_number (ok x) t u h =
      ap source.get_number (
        after_query_state ((source.query_block t.block_num t.state).1)
          (record t { state = (source.query_block t.block_num t.state).0 }) u h)
      ∙ lawful.query_keeps t.block_num t.state
  after_set_number (err x) t u h =
      let same : apply protos source accept x t ≡ u = ground arith in
      ap (λ v. source.get_number v.state) (sym same) ∙ ap source.get_number (apply_state x t)
  after_set_number panic t u h = absurd (ground arith)

  -- A turn keeps the number of its block in the database, or leaves the number there as it is.
  Step-number :
      {s t : S}
      → Step protos source accept s t
      → (source.get_number t.state ≡ s.block_num)
        ⊎ (source.get_number t.state ≡ source.get_number s.state)
  unfolding sync_block after_set
  Step-number (tick s t armed h) =
      let kept =
        after_set_number ((source.set_number s.block_num s.state).1)
          (record s { armed = false; state = (source.set_number s.block_num s.state).0 }) t h in
      Run-cases ((source.set_number s.block_num s.state).1)
        (λ x e. inl (kept ∙ lawful.set_ok s.block_num s.state e))
        (λ x e. inr (kept ∙ lawful.set_err s.block_num s.state x e))
        (λ e. absurd (ground (arith, e)))
  Step-number (failed s e) = inr (ap source.get_number (apply_state e s))

  abbrev first : source.State → ℕ
  first state = (new_block_sync protos source accept state).block_num

  -- The first number is the one of the database, or 1 where that is 0.
  first_cases :
      (state : source.State)
      → ((source.get_number state ≡ 0) × (first state ≡ 1))
        ⊎ ((1 ≤ source.get_number state) × (first state ≡ source.get_number state))
  unfolding new_block_sync
  first_cases state = elim (Bool-cases (source.get_number state == 0)) [
    | inl e ↦ inl (grind tests, ground (arith, e))
    | inr e ↦ inr (grind tests, ground (arith, e))
  ]

  start_number : (state : source.State) → source.get_number state ≤ first state
  start_number state = elim (first_cases state) [
    | inl (a, b) ↦ omega arith
    | inr (a, b) ↦ omega arith
  ]

  first-pos : (state : source.State) → 1 ≤ first state
  first-pos state = elim (first_cases state) [ inl (a, b) ↦ omega arith | inr (a, b) ↦ omega arith ]

  -- The number of the loop does not fall.
  forward :
      (state : source.State) (n : ℕ) (t u : S)
      → first state + suc n < 2 ^ 64
      → Reach protos source accept (new_block_sync protos source accept state) n t
      → Step protos source accept t u
      → t.block_num ≤ u.block_num
  forward state n t u h r st = elim (Step-Turn protos source accept st) [
    | stays num sent ign ↦ omega arith
    | sends block txs s q f num sent ign ↦
        omega (arith, num, (Reach-Passed protos source accept state n t (omega arith) r).bounded)
    | ignores e c num sent ign ↦
        omega (arith, num, (Reach-Passed protos source accept state n t (omega arith) r).bounded)
  ]

  Reach-number :
      (state : source.State) (n : ℕ) (t : S)
      → (new_block_sync protos source accept state).block_num + n < 2 ^ 64
      → Reach protos source accept (new_block_sync protos source accept state) n t
      → source.get_number t.state ≤ t.block_num
  unfolding new_block_sync
  Reach-number state zero _ h here = start_number state
  Reach-number state (suc n) u h (next {t = t} r st) = elim (Step-number st) [
    | inl e ↦ omega (arith, e, forward state n t u h r st)
    | inr e ↦ omega (arith, e, forward state n t u h r st, Reach-number state n t (omega arith) r)
  ]

  -- A block sync that starts again, from the database that a run of the loop left, with fewer turns than a
  -- uint64 has numbers left, skips no block: for each block from the first one of that run to its own
  -- first one a batch was sent or an error was ignored.
  pub restart_covered :
      (state : source.State) (n : ℕ) (t : S) (k : ℕ)
      → (new_block_sync protos source accept state).block_num + n < 2 ^ 64
      → Reach protos source accept (new_block_sync protos source accept state) n t
      → (new_block_sync protos source accept state).block_num ≤ k
      → k < (new_block_sync protos source accept t.state).block_num
      → IsSent protos source accept t.sent k ⊎ IsIgnored protos source accept t.ignored k
  restart_covered state n t k h r lo hi =
      let p = Reach-Passed protos source accept state n t h r in
      p.covered k lo (elim (first_cases t.state) [
        | inl (a, b) ↦ omega (arith, hi, p.started, first-pos state)
        | inr (a, b) ↦ omega (arith, hi, Reach-number state n t h r)
      ])
