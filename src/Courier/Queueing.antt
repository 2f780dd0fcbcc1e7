-- ===== src/Courier/Queueing.antt =====
-- What AddCrossTxs puts into the pending queue.
use crosshub.Prelude.{
  ℕ, zero, suc, ◌≡◌, ◌≢◌, sym, ap, ◌∙◌, subst, List, [], ◌∷◌, get_elem?, inl, inr, some, Run, ok,
  err, panic, ok-injective, >>=-ok, Run-cases, Option-cases, arith,
}
use crosshub.Contract.Defs.{IContract}
use crosshub.Courier.Tx.{CrossTx, TxJson}
use crosshub.Courier.Store.{StoreError, Node}
use crosshub.Courier.Queue.{Prque, IsPrque}
use crosshub.Courier.Kinds.{
  push_tx, Kind, to_store, to_out, to_both, kind_of, queue_kind, queue_one, queue_all,
}
use crosshub.Courier.Manager.{Executed, Clients, TxManager, add_stored, add_cross_txs}
use crosshub.Courier.Sending.{push_tx-pushed}

module _ (pq : Prque CrossTx) (lawful : IsPrque pq) where
  queue_kind_keeps :
      (kind : Kind) (tx a : CrossTx) (q q' : pq.Queue)
      → queue_kind pq kind tx q ≡ ok q'
      → lawful.Holds q a
      → lawful.Holds q' a
  unfolding queue_kind
  queue_kind_keeps to_store tx a q q' h held = subst (λ x. lawful.Holds x a) (ok-injective h) held
  queue_kind_keeps to_out tx a q q' h held = subst (λ x. lawful.Holds x a) (ok-injective h) held
  queue_kind_keeps to_both tx a q q' h held = (push_tx-pushed pq lawful (λ x. x) tx q q' h).1 a held

  queue_one-Holds :
      (tx : CrossTx) (k : IContract) (q q' : pq.Queue)
      → queue_one pq tx q ≡ ok q'
      → tx.contract ≡ some k
      → kind_of k ≡ to_both
      → lawful.Holds q' tx
  unfolding queue_one queue_kind
  queue_one-Holds tx k q q' h e f =
      (push_tx-pushed pq lawful (λ x. x) tx q q' (ground (arith, e, f))).0

  queue_all_keeps :
      (txs : List CrossTx) (a : CrossTx) (q q' : pq.Queue)
      → queue_all pq txs q ≡ ok q'
      → lawful.Holds q a
      → lawful.Holds q' a
  unfolding queue_all queue_one
  queue_all_keeps [] a q q' h held = subst (λ x. lawful.Holds x a) (ok-injective h) held
  queue_all_keeps (tx ∷ txs) a q q' h held = >>=-ok (queue_one pq tx q) _ h (λ q1 e h1.
      queue_all_keeps txs a q1 q' h1 (elim (Option-cases tx.contract) [
        | inl n ↦ absurd (ground (arith, n, e))
        | inr (k, c) ↦ queue_kind_keeps (kind_of k) tx a q q1 (ground (arith, c, e)) held
      ]))

  -- The loop fails by a panic only.
  queue_kind_err :
      (kind : Kind) (tx : CrossTx) (q : pq.Queue) (x : StoreError)
      → queue_kind pq kind tx q ≡ err x
      → ⊥
  unfolding queue_kind push_tx
  queue_kind_err to_store tx q x h = cc
  queue_kind_err to_out tx q x h = cc
  queue_kind_err to_both tx q x h = elim (Option-cases tx.time_stamp) [
    | inl e ↦ ground (arith, e)
    | inr (t, e) ↦ ground (arith, e)
  ]

  queue_all_err :
      (txs : List CrossTx) (q : pq.Queue) (x : StoreError) → queue_all pq txs q ≡ err x → ⊥
  unfolding queue_all queue_one
  queue_all_err [] q x h = cc
  queue_all_err (tx ∷ txs) q x h =
      Run-cases (queue_one pq tx q) (λ q1 e. queue_all_err txs q1 x (ground (arith, e)))
        (λ y e. elim (Option-cases tx.contract) [
          | inl n ↦ ground (arith, n, e)
          | inr (k, c) ↦ queue_kind_err (kind_of k) tx q y (ground (arith, c, e))
        ])
        (λ e. ground (arith, e))

  queue_all-Holds :
      (txs : List CrossTx) (n : ℕ) (tx : CrossTx) (k : IContract) (q q' : pq.Queue)
      → queue_all pq txs q ≡ ok q'
      → get_elem? txs n ≡ some tx
      → tx.contract ≡ some k
      → kind_of k ≡ to_both
      → lawful.Holds q' tx
  unfolding queue_all
  queue_all-Holds [] n tx k q q' h at c f = absurd (cc)
  queue_all-Holds (x ∷ txs) zero tx k q q' h at c f = >>=-ok (queue_one pq x q) _ h (λ q1 e h1.
      let same : x ≡ tx = ground arith in
      queue_all_keeps txs tx q1 q' h1
        (queue_one-Holds tx k q q1 (ap (λ y. queue_one pq y q) (sym same) ∙ e) c f))
  queue_all-Holds (x ∷ txs) (suc n) tx k q q' h at c f =
      >>=-ok (queue_one pq x q) _ h (λ q1 e h1. queue_all-Holds txs n tx k q1 q' h1 at c f)

module _ {D : Type 0} (json : TxJson D) (node : Node D) (pq : Prque CrossTx) (eq : Prque Executed)
    (clients : Clients) (lawful : IsPrque pq) where
  abbrev M : Type 0
  M = TxManager json node pq eq clients

  -- When AddCrossTxs ends without a panic, also when it fails to store them, each transaction that is
  -- neither Finished nor OutOnceCompleted is in the pending queue.
  pub add_cross_txs-Holds :
      (txs : List CrossTx) (t t' : M) (r : Run StoreError (List CrossTx)) (n : ℕ) (tx : CrossTx)
      (k : IContract)
      → add_cross_txs json node pq eq clients txs t ≡ (t', r)
      → r ≢ panic
      → get_elem? txs n ≡ some tx
      → tx.contract ≡ some k
      → kind_of k ≡ to_both
      → lawful.Holds t'.pending tx
  unfolding add_cross_txs add_stored
  add_cross_txs-Holds txs t t' r n tx k h np at c f =
      Run-cases (queue_all pq txs t.pending)
        (λ q e.
          let same : q ≡ t'.pending = ground (arith, e) in
          subst (λ x. lawful.Holds x tx) same
            (queue_all-Holds pq lawful txs n tx k t.pending q e at c f))
        (λ x e. absurd (queue_all_err pq lawful txs t.pending x e))
        (λ e. absurd (np (ground (arith, e))))
