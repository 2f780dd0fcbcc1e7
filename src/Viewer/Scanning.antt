-- ===== src/Viewer/Scanning.antt =====
-- What repeated polls of a node scan.
use crosshub.Prelude.{
  ℕ, zero, suc, ◌+◌, ◌-◌, ◌*◌, ◌%◌, ◌^◌, ◌≤◌, ◌<◌, ◌≡◌, refl, sym, ap, ◌∙◌, inl, inr, true, ltb,
  lt→ltb, ℤ, pos, List, [], ◌∷◌, ◌++◌, append_assoc, Option, some, Run, ok, Bytes, arith,
}
use crosshub.Prelude.Action.{and_then, and_then-ok}
use crosshub.Transaction.Crypto.{Hash, Crypto}
use crosshub.Viewer.Logs.{CtxStore, Log, Abi, Hub, one_log, event_log}
use crosshub.Viewer.Window.{
  to_block, next_height, next_height_cases, int64, logs_of, Viewer, scanned, get_events, polls,
}

-- The logs of `n` blocks from one on.
abbrev pub range_logs : (ℕ → List Log) → ℕ → ℕ → List Log
range_logs logs from zero = []
range_logs logs from (suc n) = logs from ++ range_logs logs (suc from) n

-- A node with these blocks below a head, and their logs: FilterLogs takes both ends of the range.
pub record IsFilter (filter_logs : ℤ → ℤ → Option (List Log)) (logs : ℕ → List Log) (head : ℕ)
    : Type 0 where
  pub filters :
      (from to : ℕ)
      → to < head
      → filter_logs (pos from) (pos to) ≡ some (range_logs logs from (to + 1 - from))

range_logs-append :
    (logs : ℕ → List Log) (from m n : ℕ)
    → range_logs logs from (m + n) ≡ range_logs logs from m ++ range_logs logs (from + m) n
range_logs-append logs from zero n =
    ap (range_logs logs from) (omega arith) ∙ ap (λ f. range_logs logs f n) (omega arith)
range_logs-append logs from (suc m) n =
    let count : suc m + n ≡ suc (m + n) = omega arith in
    let start : suc from + m ≡ from + suc m = omega arith in
    ap (range_logs logs from) count
    ∙ ap (λ l. logs from ++ l) (range_logs-append logs (suc from) m n)
    ∙ sym
        (append_assoc (logs from) (range_logs logs (suc from) m) (range_logs logs (suc from + m) n))
    ∙ ap (λ f. (logs from ++ range_logs logs (suc from) m) ++ range_logs logs f n) start

int64_small : (n : ℕ) → n < 2 ^ 63 → int64 n ≡ pos n
int64_small n h = let lt : ltb n (2 ^ 63) ≡ true = lt→ltb n (2 ^ 63) h in ground (arith, lt)

module _ (abi : Abi) (crypto : Crypto) (sign_hash : Hash → Option Bytes) (db : CtxStore) where
  abbrev H : Type 0
  H = Hub abi crypto sign_hash db

  abbrev V : Type 0
  V = Viewer abi crypto sign_hash db

  abbrev run : List Log → H → H × Run db.Error (Unit {0})
  run = event_log abi crypto sign_hash db

  -- EventLog on two lists, one after the other.
  event_log-append :
      (xs ys : List Log) (h h' : H)
      → run (xs ++ ys) h ≡ (h', ok tt)
      → (h1 : H) × (run xs h ≡ (h1, ok tt)) × (run ys h1 ≡ (h', ok tt))
  unfolding event_log
  event_log-append [] ys h h' e = (h, refl, e)
  event_log-append (x ∷ xs) ys h h' e =
      and_then-ok (one_log abi crypto sign_hash db x h) _ e (λ h1 u f e1.
        let (h2, a, b) = event_log-append xs ys h1 h' e1 in
        (h2, ap (λ r. and_then r (λ v. run xs)) f ∙ a, b))

  module _ (filter_logs : ℤ → ℤ → Option (List Log)) (logs : ℕ → List Log) (head : ℕ)
      (filter : IsFilter filter_logs logs head) (least : 99 ≤ head) (most : head < 2 ^ 63) where
    -- A poll scans the blocks below its next height, and no block twice.
    get_events_window :
        (v : V) (h1 : H) (next : ℕ)
        → v.current_height ≤ head
        → v.current_height ≤ next
        → next ≤ head
        → to_block v.current_height head ≡ next - 1
        → next_height v.current_height head ≡ next
        → 0 < next
        → run (range_logs logs v.current_height (next - v.current_height)) v.hub ≡ (h1, ok tt)
        → get_events abi crypto sign_hash db (some head) filter_logs v
          ≡ (record v { hub = h1; current_height = next }, ok tt)
    unfolding get_events scanned
    get_events_window v h1 next le lo hi to num pos_next e =
        let small : head % 2 ^ 64 ≡ head = omega arith in
        let from : int64 v.current_height ≡ pos v.current_height =
          int64_small v.current_height (omega arith) in
        let last : int64 (to_block v.current_height (head % 2 ^ 64)) ≡ pos (next - 1) =
          ap (λ x. int64 (to_block v.current_height x)) small
          ∙ ap int64 to
          ∙ int64_small (next - 1) (omega arith) in
        let found : filter_logs (int64 v.current_height)
              (int64 (to_block v.current_height (head % 2 ^ 64)))
            ≡ some (range_logs logs v.current_height (next - v.current_height)) =
          ap (λ x. filter_logs x (int64 (to_block v.current_height (head % 2 ^ 64)))) from
          ∙ ap (filter_logs (pos v.current_height)) last
          ∙ filter.filters v.current_height (next - 1) (omega arith)
          ∙ ap (λ n. some (range_logs logs v.current_height n)) (omega arith) in
        let at : next_height v.current_height (head % 2 ^ 64) ≡ next =
          ap (next_height v.current_height) small ∙ num in
        let scan : run
              (logs_of (
                filter_logs (int64 v.current_height)
                  (int64 (to_block v.current_height (head % 2 ^ 64)))))
              v.hub
            ≡ (h1, ok tt) =
          ap (λ o. run (logs_of o) v.hub) found ∙ e in
        ap (scanned abi crypto sign_hash db (next_height v.current_height (head % 2 ^ 64)) v) scan
        ∙ ap (λ n. (record v { hub = h1; current_height = n }, ok tt)) at

    -- One poll, and the rest from its next height.
    polls-suc :
        (n : ℕ) (v : V) (h' : H) (next : ℕ)
        → v.current_height ≤ next
        → next ≤ head
        → 0 < next
        → to_block v.current_height head ≡ next - 1
        → next_height v.current_height head ≡ next
        → run (range_logs logs v.current_height (head - v.current_height)) v.hub ≡ (h', ok tt)
        → ((w : V)
            → w.current_height ≡ next
            → run (range_logs logs w.current_height (head - w.current_height)) w.hub ≡ (h', ok tt)
            → polls abi crypto sign_hash db n (some head) filter_logs w
              ≡ (record w { hub = h'; current_height = head }, ok tt))
        → polls abi crypto sign_hash db (suc n) (some head) filter_logs v
          ≡ (record v { hub = h'; current_height = head }, ok tt)
    unfolding polls
    polls-suc n v h' next lo hi pos_next to num e rest =
        let split : range_logs logs v.current_height (head - v.current_height)
            ≡ range_logs logs v.current_height (next - v.current_height)
              ++ range_logs logs next (head - next) =
          ap (range_logs logs v.current_height) (omega arith)
          ∙ range_logs-append logs v.current_height (next - v.current_height) (head - next)
          ∙ ap
              (λ f.
                range_logs logs v.current_height (next - v.current_height)
                ++ range_logs logs f (head - next))
              (omega arith) in
        let (h1, a, b) =
          event_log-append (range_logs logs v.current_height (next - v.current_height))
            (range_logs logs next (head - next)) v.hub h' (ap (λ l. run l v.hub) (sym split) ∙ e) in
        let first = get_events_window v h1 next (omega arith) lo hi to num pos_next a in
        ap (λ r. and_then r (λ u. polls abi crypto sign_hash db n (some head) filter_logs)) first
        ∙ rest (record v { hub = h1; current_height = next }) refl b

    at_head :
        (v : V) (h' : H)
        → v.current_height ≡ head
        → run (range_logs logs v.current_height (head - v.current_height)) v.hub ≡ (h', ok tt)
        → ◌≡◌ {A = V × Run db.Error (Unit {0})}
            (v, ok tt)
            (record v { hub = h'; current_height = head }, ok tt)
    unfolding event_log
    at_head v h' e r =
        let none_left : head - v.current_height ≡ 0 = omega arith in
        let same : v.hub ≡ h' =
          ap (λ x. x.0)
            (ap (λ n. run (range_logs logs v.current_height n) v.hub) (sym none_left) ∙ r) in
        ap (λ h. (record v { hub = h }, ok tt)) same
        ∙ ap (λ n. (record v { hub = h'; current_height = n }, ok tt)) e

    -- Polls of a node that stays as it is, with its head at 99 or more and below 2 ^ 63: one poll for each
    -- 100 blocks that are left brings the height to the head, and together the polls do what one EventLog
    -- does on the logs of all blocks from the first height up to the head, where that ends.
    pub polls-event_log :
        (n : ℕ) (v : V) (h' : H)
        → v.current_height ≤ head
        → head ≤ v.current_height + 100 * n
        → event_log abi crypto sign_hash db
            (range_logs logs v.current_height (head - v.current_height))
            v.hub
          ≡ (h', ok tt)
        → polls abi crypto sign_hash db n (some head) filter_logs v
          ≡ (record v { hub = h'; current_height = head }, ok tt)
    unfolding polls
    polls-event_log zero v h' le enough e = at_head v h' (omega arith) e
    polls-event_log (suc n) v h' le enough e =
        elim (next_height_cases v.current_height head least (omega arith) le) [
          | inl (to, num, fits) ↦
              polls-suc n v h' (v.current_height + 100) (omega arith) fits (omega arith)
                (to ∙ omega arith) num e
                (λ w at r. polls-event_log n w h' (omega arith) (omega arith) r)
          | inr (to, num, near) ↦
              polls-suc n v h' head le (omega arith) (omega arith) to num e
                (λ w at r. polls-event_log n w h' (omega arith) (omega arith) r)
        ]
