-- ===== src/Viewer/Window.antt =====
-- chainview.go: GetEvents, the window of blocks that it scans and the height that it keeps.
use crosshub.Prelude.{
  ℕ, zero, suc, ◌+◌, ◌-◌, ◌%◌, ◌^◌, ◌≤◌, ◌<◌, ◌≡◌, ◌⊎◌, inl, inr, ltb, ltb→lt, tests, ℤ, pos,
  negsuc, Bytes, Bool-cases, List, [], Option, none, some, Run, ok, err, panic, if◌then◌else◌,
  arith,
}
use crosshub.Prelude.Action.{Action, and_then}
use crosshub.Transaction.Crypto.{Hash, Address, Crypto}
use crosshub.Viewer.Logs.{CtxStore, Log, Abi, Hub, event_log}

-- `result.ToInt().Uint64()`; the number is 0 after an error of CallContext.
abbrev pub head_of : Option ℕ → ℕ
head_of none = 0
head_of (some n) = n % 2 ^ 64

-- Subtraction on uint64.
abbrev pub minus64 : ℕ → ℕ → ℕ
minus64 a b = (a + 2 ^ 64 - b) % 2 ^ 64

unfoldable pub to_block : ℕ → ℕ → ℕ
to_block height head =
    if ltb height (minus64 head 99) then (height + 99) % 2 ^ 64 else minus64 head 1

abbrev pub next_height : ℕ → ℕ → ℕ
next_height height head = (to_block height head + 1) % 2 ^ 64

-- `int64(x)`
abbrev pub int64 : ℕ → ℤ
int64 n = if ltb n (2 ^ 63) then pos n else negsuc (2 ^ 64 - n - 1)

-- FilterLogs; an error leaves no logs.
abbrev pub logs_of : Option (List Log) → List Log
logs_of none = []
logs_of (some logs) = logs

module _ (abi : Abi) (crypto : Crypto) (sign_hash : Hash → Option Bytes) (db : CtxStore) where
  pub record Viewer : Type 0 where
    pub current_height : ℕ
    pub hub : Hub abi crypto sign_hash db
    pub anchors : List Address

  -- `this.currentHeight = toBlock + 1`, behind EventLog.
  unfoldable pub scanned :
      ℕ
      → Viewer
      → Hub abi crypto sign_hash db × Run db.Error (Unit {0})
      → Viewer × Run db.Error (Unit {0})
  scanned next v (h, ok u) = (record v { hub = h; current_height = next }, ok tt)
  scanned next v (h, err e) = (record v { hub = h }, err e)
  scanned next v (h, panic) = (record v { hub = h }, panic)

  -- GetEvents, with the answers of the node: eth_blockNumber and FilterLogs.
  unfoldable pub get_events :
      Option ℕ → (ℤ → ℤ → Option (List Log)) → Action Viewer db.Error (Unit {0})
  get_events number filter_logs v =
      let head = head_of number in
      let to = to_block v.current_height head in
      scanned (next_height v.current_height head) v (
        event_log abi crypto sign_hash db
          (logs_of (filter_logs (int64 v.current_height) (int64 to))) v.hub)

  -- The ticks of the loop, while the node stays as it is.
  unfoldable pub polls :
      ℕ → Option ℕ → (ℤ → ℤ → Option (List Log)) → Action Viewer db.Error (Unit {0})
  polls zero number filter_logs v = (v, ok tt)
  polls (suc n) number filter_logs v =
      and_then (get_events number filter_logs v) (λ u. polls n number filter_logs)

-- From the head on back to 99 blocks a window ends behind the head, or 99 blocks on.
pub next_height_cases :
    (height head : ℕ)
    → 99 ≤ head
    → head < 2 ^ 64
    → height ≤ head
    → ((to_block height head ≡ height + 99)
        × (next_height height head ≡ height + 100)
        × (height + 100 ≤ head))
      ⊎ ((to_block height head ≡ head - 1)
          × (next_height height head ≡ head)
          × (head ≤ height + 99))
unfolding to_block
next_height_cases height head a b c = elim (Bool-cases (ltb height (minus64 head 99))) [
  | inl e ↦
      let lt : height < minus64 head 99 = ltb→lt height (minus64 head 99) e in
      let far : height + 99 < head = omega arith in
      let at : to_block height head ≡ height + 99 = grind arith in
      inl (at, omega (arith, at), omega arith)
  | inr e ↦
      let near : head ≤ height + 99 = grind tests in
      let at : to_block height head ≡ head - 1 = grind arith in inr (at, omega (arith, at), near)
]
