-- ===== src/Courier/Kinds.antt =====
-- txmanager.go: what AddCrossTxs and reload push, and how AddCrossTxs splits its transactions.
use crosshub.Prelude.{
  List, [], ◌∷◌, Option, none, some, ℤ, pos, ◌-ℤ◌, Run, ok, panic, ◌>>=◌, if◌then◌else◌,
}
use mathlib.Core.Option
use crosshub.Contract.Defs.{IContract, is_finished, is_out_once_completed}
use crosshub.Courier.Tx.{CrossTx}
use crosshub.Courier.Store.{StoreError}
use crosshub.Courier.Queue.{Prque}

-- The three cases of the switch of AddCrossTxs.
pub data Kind : Type 0 where
  to_store to_out to_both : Kind

abbrev pub kind_of : IContract → Kind
kind_of k = if is_finished k then to_store else if is_out_once_completed k then to_out else to_both

-- `q.Push(tx, -tx.TimeStamp.Seconds)`; a nil timestamp panics.
unfoldable pub push_tx {ℓ} :
    {A : Type 0} {Q : Type ℓ} → (A → ℤ → Q → Q) → (CrossTx → A) → CrossTx → Q → Run StoreError Q
push_tx push item tx q = elim tx.time_stamp [
  | none ↦ panic
  | some t ↦ ok (push (item tx) (pos 0 -ℤ t.seconds) q)
]

unfoldable pub push_txs {ℓ} :
    {A : Type 0} {Q : Type ℓ}
    → (A → ℤ → Q → Q)
    → (CrossTx → A)
    → List CrossTx
    → Q
    → Run StoreError Q
push_txs push item [] q = ok q
push_txs push item (tx ∷ rest) q = push_tx push item tx q >>= push_txs push item rest

module _ (pq : Prque CrossTx) where
  -- The queue after one turn of the switch.
  unfoldable pub queue_kind : Kind → CrossTx → pq.Queue → Run StoreError pq.Queue
  queue_kind to_store tx q = ok q
  queue_kind to_out tx q = ok q
  queue_kind to_both tx q = push_tx pq.push (λ x. x) tx q

  unfoldable pub queue_one : CrossTx → pq.Queue → Run StoreError pq.Queue
  queue_one tx q = elim tx.contract [ none ↦ panic | some k ↦ queue_kind (kind_of k) tx q ]

  unfoldable pub queue_all : List CrossTx → pq.Queue → Run StoreError pq.Queue
  queue_all [] q = ok q
  queue_all (tx ∷ rest) q = queue_one tx q >>= queue_all rest

-- storeTxs and outTxs.
abbrev pub kind_of_tx : CrossTx → Option Kind
kind_of_tx tx = Option.map kind_of tx.contract

unfoldable pub store_txs : List CrossTx → List CrossTx
store_txs [] = []
store_txs (tx ∷ rest) =
    let more = store_txs rest in
    elim (kind_of_tx tx) [ some to_out ↦ more | some _ ↦ tx ∷ more | none ↦ more ]

unfoldable pub out_txs : List CrossTx → List CrossTx
out_txs [] = []
out_txs (tx ∷ rest) =
    let more = out_txs rest in
    elim (kind_of_tx tx) [ some to_out ↦ tx ∷ more | some _ ↦ more | none ↦ more ]
