-- ===== src/Courier/Rounds.antt =====
-- What a round of receipts does to the executed queue.
use crosshub.Prelude.{
  ℕ, zero, suc, ◌≡◌, ◌≢◌, refl, sym, ap, ◌∙◌, subst, List, [], ◌∷◌, map, get_elem?, inl, inr, none,
  some, pos, ◌-ℤ◌, Run, ok, err, panic, Run-cases, Bool-cases, arith,
}
use crosshub.Courier.Tx.{CrossTx, CrossTxReceipt, TxJson, IsTxJson}
use crosshub.Courier.Store.{StoreError, not_found, is_not_found, Node}
use crosshub.Courier.Laws.{IsNode, updates_atomic}
use crosshub.Courier.Receipts.{receipt_id, update_cross_tx, update_cross_tx_found}
use crosshub.Courier.Queue.{Prque, IsPrque, drain, pop-drain, drain-empties}
use crosshub.Courier.Manager.{
  Executed, receipt, stored, Clients, Ended, discarded, committed, assert_receipts, TxManager,
  push_receipts, commit_receipts, after_update, handle_receipts, process_cross_tx_receipts,
}

-- The type assertions keep the receipts in their places, and panic on any other entry.
assert_receipts-receipt :
    (items : List Executed) (rs : List CrossTxReceipt) (n : ℕ) (r : CrossTxReceipt)
    → assert_receipts items ≡ ok rs
    → get_elem? items n ≡ some (receipt r)
    → get_elem? rs n ≡ some r
unfolding assert_receipts
assert_receipts-receipt [] rs n r h e = absurd (cc)
assert_receipts-receipt (stored tx ∷ items) rs n r h e = absurd (cc)
assert_receipts-receipt (receipt x ∷ items) rs zero r h e =
    Run-cases (assert_receipts items)
      (λ ys f.
        let cons : x ∷ ys ≡ rs = ground (arith, f) in
        let same : x ≡ r = ground arith in ap (λ z. get_elem? z 0) (sym cons) ∙ ap some same)
      (λ y f. absurd (ground (arith, f))) (λ f. absurd (ground (arith, f)))
assert_receipts-receipt (receipt x ∷ items) rs (suc n) r h e =
    Run-cases (assert_receipts items)
      (λ ys f.
        let cons : x ∷ ys ≡ rs = ground (arith, f) in
        ap (λ z. get_elem? z (suc n)) (sym cons) ∙ assert_receipts-receipt items ys n r f e)
      (λ y f. absurd (ground (arith, f))) (λ f. absurd (ground (arith, f)))

assert_receipts-stored :
    (items : List Executed) (n : ℕ) (tx : CrossTx)
    → get_elem? items n ≡ some (stored tx)
    → assert_receipts items ≡ panic
unfolding assert_receipts
assert_receipts-stored [] n tx e = absurd (cc)
assert_receipts-stored (stored x ∷ items) n tx e = refl
assert_receipts-stored (receipt x ∷ items) zero tx e = absurd (cc)
assert_receipts-stored (receipt x ∷ items) (suc n) tx e =
    ground (arith, assert_receipts-stored items n tx e)

module _ {D : Type 0} (json : TxJson D) (node : Node D) (pq : Prque CrossTx) (eq : Prque Executed)
    (clients : Clients) (lawful : IsPrque eq) where
  push_receipts_keeps :
      (rs : List CrossTxReceipt) (q : eq.Queue) (a : Executed)
      → lawful.Holds q a
      → lawful.Holds (push_receipts json node pq eq clients rs q) a
  unfolding push_receipts
  push_receipts_keeps [] q a h = h
  push_receipts_keeps (r ∷ rs) q a h =
      push_receipts_keeps rs _ a (lawful.push_keeps q (receipt r) _ a h)

  push_receipts-Holds :
      (rs : List CrossTxReceipt) (q : eq.Queue) (n : ℕ) (r : CrossTxReceipt)
      → get_elem? rs n ≡ some r
      → lawful.Holds (push_receipts json node pq eq clients rs q) (receipt r)
  unfolding push_receipts
  push_receipts-Holds [] q n r e = absurd (cc)
  push_receipts-Holds (x ∷ rs) q zero r e =
      let same : x ≡ r = ground arith in
      push_receipts_keeps rs _ (receipt r) (
        subst (λ y. lawful.Holds (eq.push (receipt x) (pos 0 -ℤ x.sequence) q) (receipt y)) same
          (lawful.push-Holds q (receipt x) (pos 0 -ℤ x.sequence)))
  push_receipts-Holds (x ∷ rs) q (suc n) r e = push_receipts-Holds rs _ n r e

  -- The queue of the goroutine is the one that pushing all receipts gives.
  commit_receipts-push_receipts :
      (rs : List CrossTxReceipt) (f : clients.Fab) (q : eq.Queue)
      → (commit_receipts json node pq eq clients rs (f, q)).1
        ≡ push_receipts json node pq eq clients rs q
  unfolding commit_receipts push_receipts
  commit_receipts-push_receipts [] f q = refl
  commit_receipts-push_receipts (r ∷ rs) f q = commit_receipts-push_receipts rs _ _

  abbrev M : Type 0
  M = TxManager json node pq eq clients

  abbrev updated :
      List CrossTxReceipt → M → node.Db × Run StoreError (Unit {0}) → M × Run StoreError Ended
  updated = after_update json node pq eq clients

  after_update-Holds :
      (rs : List CrossTxReceipt) (t t' : M) (u : node.Db × Run StoreError (Unit {0}))
      (ended : Ended) (n : ℕ) (r : CrossTxReceipt)
      → updated rs t u ≡ (t', ok ended)
      → ended ≢ discarded
      → get_elem? rs n ≡ some r
      → lawful.Holds t'.executed (receipt r)
  unfolding after_update
  after_update-Holds rs t t' (db, ok x) ended n r h ne e =
      subst (λ q. lawful.Holds q (receipt r))
        (sym (commit_receipts-push_receipts rs t.fab t.executed) ∙ ap (λ p. (p.0).executed) h)
        (push_receipts-Holds rs t.executed n r e)
  after_update-Holds rs t t' (db, err x) ended n r h ne e = elim (Bool-cases (is_not_found x)) [
    | inl b ↦ absurd (ne (ground (arith, b)))
    | inr b ↦
        let q : push_receipts json node pq eq clients rs t.executed ≡ t'.executed =
          ground (arith, b) in
        subst (λ y. lawful.Holds y (receipt r)) q (push_receipts-Holds rs t.executed n r e)
  ]
  after_update-Holds rs t t' (db, panic) ended n r h ne e = absurd (ground arith)

  -- A round of receipts that ends, and not by discarding them, leaves each receipt of the executed queue
  -- in the queue again, after a commit too.
  pub receipts_return :
      (t t' : M) (ended : Ended) (r : CrossTxReceipt)
      → process_cross_tx_receipts json node pq eq clients t ≡ (t', ok ended)
      → ended ≢ discarded
      → lawful.Holds t.executed (receipt r)
      → lawful.Holds t'.executed (receipt r)
  unfolding process_cross_tx_receipts handle_receipts
  receipts_return t t' ended r h ne held =
      let (n, at) = (drain-empties eq lawful t.executed (receipt r) held).1 in
      Run-cases (assert_receipts ((drain eq t.executed).0))
        (λ rs e.
          let t1 : M = record t { executed = (drain eq t.executed).1 } in
          after_update-Holds rs t1 t' (update_cross_tx json node rs t.db) ended n r
            (ground (arith, e)) ne (assert_receipts-receipt ((drain eq t.executed).0) rs n r e at))
        (λ x e. absurd (ground (arith, e))) (λ e. absurd (ground (arith, e)))

module _ {D : Type 0} (json : TxJson D) (json_lawful : IsTxJson json) (node : Node D)
    (node_lawful : IsNode json node) (pq : Prque CrossTx) (eq : Prque Executed) (clients : Clients)
    (lawful : IsPrque eq) where
  -- What a failed update leaves.
  record Unmarked (t t' : TxManager json node pq eq clients) (ended : Ended) : Type 0 where
    not_committed : ended ≢ committed
    same_fab : t'.fab ≡ t.fab
    emptied : ended ≡ discarded → t'.executed ≡ t.executed

  after_update-Unmarked :
      (rs : List CrossTxReceipt) (t t' : TxManager json node pq eq clients)
      (u : node.Db × Run StoreError (Unit {0})) (ended : Ended)
      → (u.1 ≡ ok tt → ⊥)
      → after_update json node pq eq clients rs t u ≡ (t', ok ended)
      → (t'.db ≡ u.0) × Unmarked t t' ended
  unfolding after_update
  after_update-Unmarked rs t t' (db, ok x) ended failed h = absurd (failed refl)
  after_update-Unmarked rs t t' (db, err x) ended failed h = elim (Bool-cases (is_not_found x)) [
    | inl b ↦ (
      ground (arith, b),
      record {
        not_committed = λ e. ground (arith, b);
        same_fab = ground (arith, b);
        emptied = λ e. ground (arith, b);
      },
    )
    | inr b ↦ (
      ground (arith, b),
      record {
        not_committed = λ e. ground (arith, b);
        same_fab = ground (arith, b);
        emptied = λ e. absurd (ground (arith, b));
      },
    )
  ]
  after_update-Unmarked rs t t' (db, panic) ended failed h = absurd (ground arith)

  elem-map-receipt_id :
      (rs : List CrossTxReceipt) (n : ℕ) (r : CrossTxReceipt)
      → get_elem? rs n ≡ some r
      → get_elem? (map receipt_id rs) n ≡ some r.cross_id
  elem-map-receipt_id [] n r e = absurd (cc)
  elem-map-receipt_id (x ∷ rs) zero r e = ground arith
  elem-map-receipt_id (x ∷ rs) (suc n) r e = elem-map-receipt_id rs n r e

  -- Where one receipt of the executed queue is of a transaction that the database does not have, a round that
  -- ends commits none of the receipts: it leaves the database as it was and invokes nothing; and where it
  -- discards the receipts, the queue is empty after it.
  pub unknown_receipt :
      (t t' : TxManager json node pq eq clients) (ended : Ended) (r : CrossTxReceipt)
      → process_cross_tx_receipts json node pq eq clients t ≡ (t', ok ended)
      → lawful.Holds t.executed (receipt r)
      → node.find t.db r.cross_id ≡ err not_found
      → (ended ≢ committed)
        × (t'.db ≡ t.db)
        × (t'.fab ≡ t.fab)
        × (ended ≡ discarded → eq.pop t'.executed ≡ none)
  unfolding process_cross_tx_receipts handle_receipts update_cross_tx
  unknown_receipt t t' ended r h held unknown =
      let (n, at) = (drain-empties eq lawful t.executed (receipt r) held).1 in
      Run-cases (assert_receipts ((drain eq t.executed).0))
        (λ rs e.
          let t1 : TxManager json node pq eq clients = record t {
            executed = (drain eq t.executed).1;
          } in
          let id_at =
            elem-map-receipt_id rs n r
              (assert_receipts-receipt ((drain eq t.executed).0) rs n r e at) in
          let failed : (update_cross_tx json node rs t.db).1 ≡ ok tt → ⊥ = λ y.
            let (d, found) =
              update_cross_tx_found json json_lawful node node_lawful rs t.db
                ((update_cross_tx json node rs t.db).0)
                (ap (λ x. ((update_cross_tx json node rs t.db).0, x)) y) n r.cross_id id_at in
            ground (arith, found, unknown) in
          let (db, u) =
            after_update-Unmarked rs t1 t' (update_cross_tx json node rs t.db) ended failed
              (ground (arith, e)) in
          (
            u.not_committed,
            db ∙ updates_atomic json node _ _ t.db failed,
            u.same_fab,
            λ x. ap eq.pop (u.emptied x) ∙ pop-drain eq lawful t.executed,
          ))
        (λ x e. absurd (ground (arith, e))) (λ e. absurd (ground (arith, e)))
