-- ===== src/Courier/Sync/Passed.antt =====
-- Every run of the loop of syncBlock: no block is passed in silence, and the batches keep their order.
use crosshub.Prelude.{
  ℕ, zero, suc, ◌+◌, ◌%◌, ◌^◌, ◌≤◌, ◌<◌, ◌≡◌, refl, sym, ap, ◌∙◌, subst, Bool, true, List, [], ◌∷◌,
  get_elem?, ◌⊎◌, inl, inr, String, some, ok, Bool-cases, ltb, ltb→lt, tests, arith,
}
use crosshub.Courier.Sync.Filter.{Block, Protos, PrepareCrossTx, contains, get_prepare_cross_txs}
use crosshub.Courier.Sync.Blocks.{Source, BlockSync, new_block_sync, Reach, here, next}
use crosshub.Courier.Sync.Order.{Turn, stays, sends, ignores, Step-Turn}

compare_lt : (a b : ℕ) → (a < b) ⊎ (b ≤ a)
compare_lt a b = elim (Bool-cases (ltb a b)) [
  | inl e ↦ inl (ltb→lt a b e)
  | inr e ↦ inr (grind tests)
]

small : (b : ℕ) → b + 1 < 2 ^ 64 → (b + 1) % 2 ^ 64 ≡ b + 1
small b h = omega arith

module _ {D : Type 0} (protos : Protos D) (source : Source) (accept : String → Bool) where
  abbrev S : Type 0
  S = BlockSync protos source accept

  -- What the filter makes of an answer to the query for the number.
  pub record IsBatch (k : ℕ) (txs : List (PrepareCrossTx D)) : Type 0 where
    pub block : Block
    pub state : source.State
    pub queried : (source.query_block k state).1 ≡ ok block
    pub filtered : get_prepare_cross_txs protos block accept ≡ ok txs

  -- The batches, the last one first, are of falling numbers below a bound.
  abbrev pub IsOrdered : ℕ → List (List (PrepareCrossTx D)) → Type 0
  IsOrdered bound [] = Unit {0}
  IsOrdered bound (txs ∷ rest) = (k : ℕ) × (k < bound) × IsBatch k txs × IsOrdered k rest

  -- A batch of the number was sent, or an error was ignored at the number.
  abbrev pub IsSent : List (List (PrepareCrossTx D)) → ℕ → Type 0
  IsSent sent k =
      (i : ℕ) × (txs : List (PrepareCrossTx D)) × (get_elem? sent i ≡ some txs) × IsBatch k txs

  abbrev pub IsIgnored : List (ℕ × String) → ℕ → Type 0
  IsIgnored ignored k =
      (i : ℕ) × (e : String) × (get_elem? ignored i ≡ some (k, e)) × (contains e "ignore" ≡ true)

  pub record Passed (start n : ℕ) (t : S) : Type 0 where
    pub started : start ≤ t.block_num
    pub bounded : t.block_num ≤ start + n
    pub ordered : IsOrdered t.block_num t.sent
    pub covered : (k : ℕ) → start ≤ k → k < t.block_num → IsSent t.sent k ⊎ IsIgnored t.ignored k

  weaken :
      (b c : ℕ) (sent : List (List (PrepareCrossTx D)))
      → b ≤ c
      → IsOrdered b sent
      → IsOrdered c sent
  weaken b c [] h o = tt
  weaken b c (txs ∷ rest) h (k, lt, batch, more) = (k, omega arith, batch, more)

  IsSent-cons :
      (txs : List (PrepareCrossTx D)) (sent : List (List (PrepareCrossTx D)))
      (ignored : List (ℕ × String)) (k : ℕ)
      → IsSent sent k ⊎ IsIgnored ignored k
      → IsSent (txs ∷ sent) k ⊎ IsIgnored ignored k
  IsSent-cons txs sent ignored k (inl (i, x, e, batch)) = inl (suc i, x, e, batch)
  IsSent-cons txs sent ignored k (inr ign) = inr ign

  IsIgnored-cons :
      (entry : ℕ × String) (sent : List (List (PrepareCrossTx D))) (ignored : List (ℕ × String))
      (k : ℕ)
      → IsSent sent k ⊎ IsIgnored ignored k
      → IsSent sent k ⊎ IsIgnored (entry ∷ ignored) k
  IsIgnored-cons entry sent ignored k (inl s) = inl s
  IsIgnored-cons entry sent ignored k (inr (i, e, at, ign)) = inr (suc i, e, at, ign)

  below_next : (k b : ℕ) → k < b + 1 → (k < b) ⊎ (k ≡ b)
  below_next k b h = elim (compare_lt k b) [ inl lt ↦ inl lt | inr ge ↦ inr (omega arith) ]

  Turn-Passed :
      (start n : ℕ) (s t : S)
      → start + suc n < 2 ^ 64
      → Turn protos source accept s t
      → Passed start n s
      → Passed start (suc n) t
  Turn-Passed start n s t h (stays num sent ign) p = record {
    started = omega (arith, num, p.started);
    bounded = omega (arith, num, p.bounded);
    ordered =
        subst (λ b. IsOrdered b t.sent) (sym num)
          (subst (IsOrdered s.block_num) (sym sent) p.ordered);
    covered = λ k lo hi.
        subst (λ l. IsSent l k ⊎ IsIgnored t.ignored k) (sym sent)
          (subst (λ l. IsSent s.sent k ⊎ IsIgnored l k) (sym ign)
            (p.covered k lo (omega (arith, num, hi))));
  }
  Turn-Passed start n s t h (sends block txs state q f num sent ign) p =
      let up : t.block_num ≡ s.block_num + 1 = num ∙ small s.block_num (omega (arith, p.bounded)) in
      let batch : IsBatch s.block_num txs = record {
        block = block;
        state = state;
        queried = q;
        filtered = f;
      } in
      record {
        started = omega (arith, up, p.started);
        bounded = omega (arith, up, p.bounded);
        ordered =
            subst (IsOrdered t.block_num) (sym sent)
              (s.block_num, omega (arith, up), batch, p.ordered);
        covered = λ k lo hi.
            subst (λ l. IsSent l k ⊎ IsIgnored t.ignored k) (sym sent)
              (subst (λ l. IsSent (txs ∷ s.sent) k ⊎ IsIgnored l k) (sym ign)
                (elim (below_next k s.block_num (omega (arith, up, hi))) [
                  | inl lt ↦ IsSent-cons txs s.sent s.ignored k (p.covered k lo lt)
                  | inr e ↦ inl (0, txs, refl, subst (λ x. IsBatch x txs) (sym e) batch)
                ]));
      }
  Turn-Passed start n s t h (ignores e c num sent ign) p =
      let up : t.block_num ≡ s.block_num + 1 = num ∙ small s.block_num (omega (arith, p.bounded)) in
      record {
        started = omega (arith, up, p.started);
        bounded = omega (arith, up, p.bounded);
        ordered =
            subst (IsOrdered t.block_num) (sym sent)
              (weaken s.block_num t.block_num s.sent (omega (arith, up)) p.ordered);
        covered = λ k lo hi.
            subst (λ l. IsSent l k ⊎ IsIgnored t.ignored k) (sym sent)
              (subst (λ l. IsSent s.sent k ⊎ IsIgnored l k) (sym ign)
                (elim (below_next k s.block_num (omega (arith, up, hi))) [
                  | inl lt ↦ IsIgnored-cons (s.block_num, e) s.sent s.ignored k (p.covered k lo lt)
                  | inr same ↦ inr (0, e, ap (λ x. some (x, e)) (sym same), c)
                ]));
      }

  -- In every run of the loop from its start, with fewer turns than a uint64 has numbers left, the block
  -- number is between the first one and that plus the turns, the batches were sent in the order of their
  -- blocks, each is what GetPrepareCrossTxs makes of the block of its number, and for each block between a
  -- batch was sent or an error was ignored.
  pub Reach-Passed :
      (state : source.State) (n : ℕ) (t : S)
      → (new_block_sync protos source accept state).block_num + n < 2 ^ 64
      → Reach protos source accept (new_block_sync protos source accept state) n t
      → Passed (new_block_sync protos source accept state).block_num n t
  unfolding new_block_sync
  Reach-Passed state zero _ h here = record {
    started = omega arith;
    bounded = omega arith;
    ordered = tt;
    covered = λ k lo hi. absurd (omega arith);
  }
  Reach-Passed state (suc n) u h (next {t = t} r st) =
      Turn-Passed _ n t u h (Step-Turn protos source accept st)
        (Reach-Passed state n t (omega arith) r)
