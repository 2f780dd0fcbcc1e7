-- ===== src/Courier/Manager.antt =====
-- txmanager.go: the rounds of TxManager. A round is what a goroutine does on one signal, the goroutine it
-- starts included; the channels of signals only say when a round runs.
use crosshub.Prelude.{
  Bool, false, Bytes, List, [], ◌∷◌, map, String, Option, pos, ◌-ℤ◌, Run, ok, err, panic,
  if◌then◌else◌,
}
use crosshub.Prelude.Action.{Action}
use crosshub.Contract.Status.{CStatus}
use crosshub.Contract.Status
use crosshub.Transaction.Crypto.{Hash, Crypto}
use crosshub.Transaction.Ctx.{CrossTransaction}
use crosshub.Courier.Tx.{CrossTx, CrossTxReceipt, TxJson}
use crosshub.Courier.Store.{StoreError, is_not_found, Node, updates, save}
use crosshub.Courier.Query.{Finder, query_txs}
use crosshub.Courier.Queue.{Prque, drain}
use crosshub.Courier.Receipts.{set_status, update_cross_tx}
use crosshub.Courier.Kinds.{push_txs, queue_all, store_txs, out_txs}
use crosshub.Courier.Relay.{Encoders, Outside, relay_all}

-- What the executed queue holds: a receipt, or the *CrossTx that reload pushes.
pub data Executed : Type 0 where
  receipt : CrossTxReceipt → Executed
  stored : CrossTx → Executed

-- The client of the other chain, and InvokeChainCode of the Fabric client with whether it succeeded.
pub record Clients : Type 1 where
  pub Out : Type 0
  pub send : CrossTransaction → Out → Out × Bool
  pub Fab : Type 0
  pub invoke : String → List String → Fab → Fab × Bool

-- The pending queue with the client, as the sending loop uses them.
abbrev pub outside_of : Prque CrossTx → Clients → Outside
outside_of pq clients = record {
  Queue = pq.Queue;
  push = pq.push;
  Client = clients.Out;
  send = clients.send;
}

-- How a round of receipts ended.
pub data Ended : Type 0 where
  discarded kept committed : Ended

-- `item.(CrossTxReceipt)`, which panics on anything else.
unfoldable pub assert_receipts : List Executed → Run StoreError (List CrossTxReceipt)
assert_receipts [] = ok []
assert_receipts (receipt r ∷ rest) = elim (assert_receipts rest) [
  | ok rs ↦ ok (r ∷ rs)
  | err e ↦ err e
  | panic ↦ panic
]
assert_receipts (stored tx ∷ rest) = panic

module _ {D : Type 0} (json : TxJson D) (node : Node D) (pq : Prque CrossTx) (eq : Prque Executed)
    (clients : Clients) where
  pub record TxManager : Type 0 where
    pub db : node.Db
    pub pending : pq.Queue
    pub executed : eq.Queue
    pub out : clients.Out
    pub fab : clients.Fab

  -- `prq.Push(ctr, -ctr.Sequence)` for each receipt.
  unfoldable pub push_receipts : List CrossTxReceipt → eq.Queue → eq.Queue
  push_receipts [] q = q
  push_receipts (r ∷ rs) q = push_receipts rs (eq.push (receipt r) (pos 0 -ℤ r.sequence) q)

  -- The goroutine of ProcessCrossTxReceipts: an error of InvokeChainCode is logged, and the receipt is
  -- pushed again whether there was one or not.
  unfoldable pub commit_receipts :
      List CrossTxReceipt → clients.Fab × eq.Queue → clients.Fab × eq.Queue
  commit_receipts [] s = s
  commit_receipts (r ∷ rs) (f, q) = commit_receipts rs (
    (clients.invoke "commit" (r.cross_id ∷ r.receipt ∷ []) f).0,
    eq.push (receipt r) (pos 0 -ℤ r.sequence) q,
  )

  -- The three ways on from UpdateCrossTx, on the queue that was emptied.
  unfoldable pub after_update :
      List CrossTxReceipt
      → TxManager
      → node.Db × Run StoreError (Unit {0})
      → TxManager × Run StoreError Ended
  after_update rs t (db, ok u) =
      let (fab, executed) = commit_receipts rs (t.fab, t.executed) in
      (record t { db = db; fab = fab; executed = executed }, ok committed)
  after_update rs t (db, err e) =
      if is_not_found e
      then (record t { db = db }, ok discarded)
      else (record t { db = db; executed = push_receipts rs t.executed }, ok kept)
  after_update rs t (db, panic) = (record t { db = db }, panic)

  unfoldable pub handle_receipts :
      Run StoreError (List CrossTxReceipt) → Action TxManager StoreError Ended
  unfolding after_update
  handle_receipts (ok rs) t = after_update rs t (update_cross_tx json node rs t.db)
  handle_receipts (err e) t = (t, err e)
  handle_receipts panic t = (t, panic)

  -- A round of ProcessCrossTxReceipts.
  unfoldable pub process_cross_tx_receipts : Action TxManager StoreError Ended
  process_cross_tx_receipts t =
      let (items, q) = drain eq t.executed in
      handle_receipts (assert_receipts items) (record t { executed = q })

  -- AddCrossTxReceipt
  abbrev pub add_cross_tx_receipt : CrossTxReceipt → TxManager → TxManager
  add_cross_tx_receipt r t = record t {
    executed = eq.push (receipt r) (pos 0 -ℤ r.sequence) t.executed;
  }

  -- The store of AddCrossTxs, behind its goroutines.
  unfoldable pub add_stored : List CrossTx → Action TxManager StoreError (List CrossTx)
  add_stored txs t =
      let (db, r) = save json node (store_txs txs) t.db in
      (record t { db = db }, elim r [ ok u ↦ ok (out_txs txs) | err e ↦ err e | panic ↦ panic ])

  -- AddCrossTxs: it pushes before it stores. Its result here are the transactions that it starts
  -- processOutChainCtxResp for; the closures share the loop's variable, so which of them a goroutine
  -- reads is the scheduler's choice.
  unfoldable pub add_cross_txs : List CrossTx → Action TxManager StoreError (List CrossTx)
  unfolding add_stored
  add_cross_txs txs t = elim (queue_all pq txs t.pending) [
    | ok q ↦ add_stored txs (record t { pending = q })
    | err e ↦ (t, err e)
    | panic ↦ (t, panic)
  ]

  -- The rows that reload asks for.
  abbrev pub rows_of : Finder node → CStatus → node.Db → List CrossTx
  rows_of finder s =
      query_txs finder (pos 0) (pos 0) ("Timestamp" ∷ []) false
        (record { field = "Status"; status = s } ∷ [])

  -- reload
  unfoldable pub reload : Finder node → Action TxManager StoreError (Unit {0})
  reload finder t = elim (push_txs pq.push (λ x. x) (rows_of finder Status.init t.db) t.pending) [
    | ok p ↦ elim (push_txs eq.push stored (rows_of finder Status.executed t.db) t.executed) [
      | ok e ↦ (record t { pending = p; executed = e }, ok tt)
      | err x ↦ (t, err x)
      | panic ↦ (t, panic)
    ]
    | err x ↦ (t, err x)
    | panic ↦ (t, panic)
  ]

  module _ (enc : Encoders) (crypto : Crypto) (sign_hash : Hash → Option Bytes) where
    -- The goroutine of ProcessCrossTxs: an error of Updates is a panic.
    unfoldable pub mark_pending : List String → Action TxManager StoreError (List String)
    mark_pending ids t =
        elim ((updates json node ids (map (λ _. set_status Status.pending) ids) t.db).1) [
          | ok u ↦ (
            record t {
              db = (updates json node ids (map (λ _. set_status Status.pending) ids) t.db).0;
            },
            ok ids,
          )
          | err e ↦ (t, panic)
          | panic ↦ (t, panic)
        ]

    unfoldable pub mark_sent :
        Run StoreError (List String) → Action TxManager StoreError (List String)
    mark_sent (ok ids) t = mark_pending ids t
    mark_sent (err e) t = (t, err e)
    mark_sent panic t = (t, panic)

    -- A round of ProcessCrossTxs, which gives its success list.
    unfoldable pub process_cross_txs : Action TxManager StoreError (List String)
    process_cross_txs t =
        let (txs, q) = drain pq t.pending in
        let (r, sent) =
          relay_all enc (outside_of pq clients) crypto sign_hash txs
            (record { queue = q; client = t.out }) in
        mark_sent sent (record t { pending = r.queue; out = r.client })
