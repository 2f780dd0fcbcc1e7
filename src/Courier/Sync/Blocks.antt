-- ===== src/Courier/Sync/Blocks.antt =====
-- syncer.go: NewBlockSync and the loop of syncBlock, a turn for each tick of its timer.
use crosshub.Prelude.{
  ℕ, suc, ◌+◌, ◌%◌, ◌^◌, ◌≡◌, Bool, true, false, ◌||◌, List, [], ◌∷◌, String, str_eq, none, some,
  Run, ok, err, panic, if◌then◌else◌, ◌==◌,
}
use crosshub.Prelude.Action.{Action}
use crosshub.Courier.Sync.Filter.{Block, Protos, PrepareCrossTx, contains, get_prepare_cross_txs}

-- The number in the bucket config of the courier's database, and QueryBlockByNum of the Fabric client.
pub record Source : Type 1 where
  pub State : Type 0
  pub get_number : State → ℕ
  pub set_number : ℕ → State → State × Run String (Unit {0})
  pub query_block : ℕ → State → State × Run String Block

-- The filter of syncBlock: the events that NewBlockSync takes into filterEvents.
abbrev pub is_supported : String → Bool
is_supported ev = str_eq ev "precommit" || str_eq ev "commit"

module _ {D : Type 0} (protos : Protos D) (source : Source) (accept : String → Bool) where
  -- `armed` is whether the timer is set; `stopping` whether Stop was called; `sent` is what was sent on
  -- preTxsCh, the last batch first, and `ignored` the lines "handle ignore" of the log.
  pub record BlockSync : Type 0 where
    pub block_num : ℕ
    pub armed : Bool
    pub stopping : Bool
    pub sent : List (List (PrepareCrossTx D))
    pub ignored : List (ℕ × String)
    pub state : source.State

  -- NewBlockSync with the timer that syncBlock makes.
  unfoldable pub new_block_sync : source.State → BlockSync
  new_block_sync state = record {
    block_num = (if source.get_number state == 0 then 1 else source.get_number state);
    armed = true;
    stopping = false;
    sent = [];
    ignored = [];
    state = state;
  }

  -- `s.blockNum++`
  abbrev pub next_num : ℕ → ℕ
  next_num n = (n + 1) % 2 ^ 64

  unfoldable pub apply : String → BlockSync → BlockSync
  apply e s =
      if contains e "Entry not found in index"
      then record s { armed = true }
      else if contains e "ignore"
      then record s {
        armed = true;
        block_num = next_num s.block_num;
        ignored = (s.block_num, e) ∷ s.ignored;
      }
      else record s { stopping = true }

  -- `preCrossTxs[0].TimeStamp.Seconds`, behind the send and the step to the next block.
  unfoldable pub timed : List (PrepareCrossTx D) → Run String (Unit {0})
  timed [] = panic
  timed (tx ∷ txs) = elim tx.time_stamp [ none ↦ panic | some t ↦ ok tt ]

  unfoldable pub after_filter :
      Run String (List (PrepareCrossTx D)) → Action BlockSync String (Unit {0})
  after_filter (ok txs) s =
      (record s { armed = true; block_num = next_num s.block_num; sent = txs ∷ s.sent }, timed txs)
  after_filter (err e) s = (apply e s, ok tt)
  after_filter panic s = (s, panic)

  unfoldable pub after_query : Run String Block → Action BlockSync String (Unit {0})
  after_query (ok block) s = after_filter (get_prepare_cross_txs protos block accept) s
  after_query (err e) s = (apply e s, ok tt)
  after_query panic s = (s, panic)

  unfoldable pub after_set : Run String (Unit {0}) → Action BlockSync String (Unit {0})
  after_set (ok u) s =
      let (state, block) = source.query_block s.block_num s.state in
      after_query block (record s { state = state })
  after_set (err e) s = (apply e s, ok tt)
  after_set panic s = (s, panic)

  -- What the loop does on a tick.
  unfoldable pub sync_block : Action BlockSync String (Unit {0})
  sync_block s =
      let (state, r) = source.set_number s.block_num s.state in
      after_set r (record s { armed = false; state = state })

  -- The loop: a tick of a timer that is set, or an error from processPreTxs.
  pub data Step : BlockSync → BlockSync → Type 0 where
    tick : (s t : BlockSync) → s.armed ≡ true → sync_block s ≡ (t, ok tt) → Step s t
    failed : (s : BlockSync) (e : String) → Step s (apply e s)

  -- A run of the loop, with its number of turns.
  pub data Reach (s : BlockSync) : ℕ → BlockSync → Type 0 where
    here : Reach s 0 s
    next : {n : ℕ} {t u : BlockSync} → Reach s n t → Step t u → Reach s (suc n) u
