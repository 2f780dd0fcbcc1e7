-- ===== src/Courier/Sending.antt =====
-- What reload, AddCrossTxs and a round of ProcessCrossTxs do to the queues and the database.
use crosshub.Prelude.{
  refl, none, false, ℕ, zero, suc, ◌≡◌, subst, List, [], ◌∷◌, get_elem?, inl, inr, some, pos, ◌-ℤ◌,
  ok, >>=-ok, Option-cases, arith,
}
use crosshub.Contract.Status.{CStatus}
use crosshub.Contract.Status
use crosshub.Courier.Tx.{CrossTx, TxJson}
use crosshub.Courier.Store.{Node}
use crosshub.Courier.Queue.{Prque, IsPrque}
use crosshub.Courier.Kinds.{push_txs, push_tx}
use crosshub.Courier.Manager.{Executed, Clients, TxManager, reload}
use crosshub.Courier.Query.{Finder, IsFinder, query_txs}

module _ {A : Type 0} (pq : Prque A) (lawful : IsPrque pq) (item : CrossTx → A) where
  pub push_tx-pushed :
      (tx : CrossTx) (q q' : pq.Queue)
      → push_tx pq.push item tx q ≡ ok q'
      → lawful.Holds q' (item tx) × ((a : A) → lawful.Holds q a → lawful.Holds q' a)
  unfolding push_tx
  push_tx-pushed tx q q' h = elim (Option-cases tx.time_stamp) [
    | inl e ↦ absurd (ground (arith, e))
    | inr (t, e) ↦
        let same : pq.push (item tx) (pos 0 -ℤ t.seconds) q ≡ q' = ground (arith, e) in
        (
          subst (λ x. lawful.Holds x (item tx)) same (lawful.push-Holds q (item tx) _),
          λ a held. subst (λ x. lawful.Holds x a) same (lawful.push_keeps q (item tx) _ a held),
        )
  ]

  push_txs_keeps :
      (txs : List CrossTx) (q q' : pq.Queue) (a : A)
      → push_txs pq.push item txs q ≡ ok q'
      → lawful.Holds q a
      → lawful.Holds q' a
  unfolding push_txs
  push_txs_keeps [] q q' a h held = subst (λ x. lawful.Holds x a) (ground arith) held
  push_txs_keeps (tx ∷ txs) q q' a h held =
      >>=-ok (push_tx pq.push item tx q) _ h
        (λ q1 e h1. push_txs_keeps txs q1 q' a h1 ((push_tx-pushed tx q q1 e).1 a held))

  pub push_txs-Holds :
      (txs : List CrossTx) (q q' : pq.Queue) (n : ℕ) (tx : CrossTx)
      → push_txs pq.push item txs q ≡ ok q'
      → get_elem? txs n ≡ some tx
      → lawful.Holds q' (item tx)
  unfolding push_txs
  push_txs-Holds [] q q' n tx h e = absurd (cc)
  push_txs-Holds (x ∷ txs) q q' zero tx h e = >>=-ok (push_tx pq.push item x q) _ h (λ q1 f h1.
      let same : x ≡ tx = ground arith in
      push_txs_keeps txs q1 q' (item tx) h1
        (subst (λ y. lawful.Holds q1 (item y)) same (push_tx-pushed x q q1 f).0))
  push_txs-Holds (x ∷ txs) q q' (suc n) tx h e =
      >>=-ok (push_tx pq.push item x q) _ h (λ q1 f h1. push_txs-Holds txs q1 q' n tx h1 e)

module _ {D : Type 0} (json : TxJson D) (node : Node D) (pq : Prque CrossTx) (eq : Prque Executed)
    (clients : Clients) where
  -- After a start, no transaction and no receipt that the database holds is in a queue again: reload asks for
  -- the rows by a field that a CrossTx does not have, and leaves the transaction manager as it was.
  pub reload_finds_nothing :
      (finder : Finder node)
      → IsFinder finder
      → (t : TxManager json node pq eq clients)
      → reload json node pq eq clients finder t ≡ (t, ok tt)
  unfolding reload query_txs push_txs
  reload_finds_nothing finder laws t =
      let none_of = λ (s : CStatus).
        laws.unknown_field t.db
          (record {
            filter = record { field = "Status"; status = s } ∷ [];
            order_by = "Timestamp" ∷ [];
            reversed = false;
            limit = none;
            skip = none;
          })
          (record { field = "Status"; status = s }) refl refl in
      rw (none_of Status.init, none_of Status.executed) refl
