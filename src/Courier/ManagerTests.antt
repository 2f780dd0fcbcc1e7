-- ===== src/Courier/ManagerTests.antt =====
-- Rounds of the transaction manager over queues that are lists.
use crosshub.Prelude.{
  err, if◌then◌else◌, ℕ, zero, suc, ◌≡◌, ◌≢◌, refl, sym, ap, ◌∙◌, true, List, [], ◌∷◌, length,
  get_elem?, ◌⊎◌, inl, inr, Option, none, some, Run, ok, panic, arith,
}
use crosshub.Contract.Status.{to_string, parse, unmarshal_text}
use crosshub.Contract.Json.{rebuild_as, rebuild_icontract}
use crosshub.Contract.Sample
use crosshub.Courier.Tx.{CrossTx, unmarshal_tx, unmarshal_fields, rebuilt}
use crosshub.Courier.Store.{
  not_found, StoreError, updates, with_transaction, update_rows, one_tx, finish, is_not_found, save,
  save_txs, save_new, save_known,
}
use crosshub.Courier.Step.{HasRow}
use crosshub.Courier.Receipts.{
  set_status, last_of, receipt_updater, receipt_updaters, update_cross_tx,
}
use crosshub.Courier.Queue.{Prque, IsPrque, drain_from, drain, drain-empties}
use crosshub.Courier.Relay.{
  to_cross_hub_tx, convert, push_back, send_signed, sign_and_send, relay_one, relay_all,
}
use crosshub.Courier.Accounted.{Accounted}
use crosshub.Courier.Kinds.{push_tx, queue_kind, queue_one, queue_all, store_txs, out_txs}
use crosshub.Courier.Manager.{
  Executed, receipt, Clients, outside_of, discarded, committed, assert_receipts, TxManager,
  push_receipts, commit_receipts, after_update, handle_receipts, process_cross_tx_receipts,
  add_stored, add_cross_txs, reload, mark_pending, mark_sent, process_cross_txs,
}
use crosshub.Courier.Rounds.{receipts_return, unknown_receipt}
use crosshub.Courier.Sending.{reload_finds_nothing}
use crosshub.Courier.Query.{EqStatus, among, cross_tx_fields, Finder, IsFinder}
use crosshub.Courier.Queueing.{add_cross_txs-Holds}
use crosshub.Courier.Marking.{
  IsPending, outside_of-IsOutside, process_cross_txs-IsPending, process_cross_txs-Accounted,
}
use crosshub.Courier.Sample.{
  tx_json, tx_json-IsTxJson, list_find, list_node, list_node-IsNode, object_of, row_field,
  contract_doc, as_doc, as_int64, as_uint64, as_timestamp,
}
use crosshub.Courier.Tests.{two_sent, two_sent-Rows, arrived}
use crosshub.Courier.RelayTests.{flat, sign_flat, encoders, fresh}
use crosshub.Transaction.Ctx.{
  sign_ctx, ctx_signer_hash, ctx_preimage, ctx_with_signature, ctx_signature_values, new_ctx_signer,
  new_cross_transaction,
}

unfoldable pub list_pop : {A : Type 0} → List A → Option (A × List A)
list_pop [] = none
list_pop (x ∷ xs) = some (x, xs)

abbrev pub list_prque : (A : Type 0) → Prque A
list_prque A = record { Queue = List A; push = λ a p q. a ∷ q; pop = list_pop; size = length }

abbrev Within : {A : Type 0} → List A → A → Type 0
Within q a = (n : ℕ) × (get_elem? q n ≡ some a)

list_pop_size :
    {A : Type 0} (q q' : List A) (a : A) → list_pop q ≡ some (a, q') → length q ≡ suc (length q')
unfolding list_pop
list_pop_size [] q' a h = absurd (cc)
list_pop_size (x ∷ xs) q' a h = ground arith

list_pop_stays :
    {A : Type 0} (q q' : List A) (a b : A)
    → list_pop q ≡ some (a, q')
    → Within q b
    → (a ≡ b) ⊎ Within q' b
unfolding list_pop
list_pop_stays [] q' a b h (n, e) = absurd (cc)
list_pop_stays (x ∷ xs) q' a b h (zero, e) = inl (ground arith)
list_pop_stays (x ∷ xs) q' a b h (suc n, e) =
    let same : xs ≡ q' = ground arith in inr (n, ap (λ l. get_elem? l n) (sym same) ∙ e)

list_pop_empty : {A : Type 0} (q : List A) → length q ≡ 0 → list_pop q ≡ none
unfolding list_pop
list_pop_empty [] e = refl
list_pop_empty (x ∷ xs) e = absurd (omega arith)

empty_holds_none : {A : Type 0} (q : List A) (a : A) → Within q a → length q ≡ 0 → ⊥
empty_holds_none [] a (n, e) h = cc
empty_holds_none (x ∷ xs) a (n, e) h = omega arith

popped_none_held : {A : Type 0} (q : List A) (a : A) → Within q a → list_pop q ≡ none → ⊥
unfolding list_pop
popped_none_held [] a (n, e) h = cc
popped_none_held (x ∷ xs) a (n, e) h = cc

list_prque-IsPrque : (A : Type 0) → IsPrque (list_prque A)
list_prque-IsPrque A = record {
  Holds = Within;
  push-Holds = λ q a p. (0, refl);
  push_keeps = λ q a p b h. (suc (h.0), h.1);
  pop-size = list_pop_size;
  pop_empty = list_pop_empty;
  not_empty = empty_holds_none;
  pop_held = popped_none_held;
  pop_stays = list_pop_stays;
}

drain-empties_example :
    (list_pop ((drain (list_prque ℕ) (4 ∷ 7 ∷ [])).1) ≡ none)
    × ((n : ℕ) × (get_elem? ((drain (list_prque ℕ) (4 ∷ 7 ∷ [])).0) n ≡ some 7))
unfolding list_prque-IsPrque
drain-empties_example = drain-empties (list_prque ℕ) (list_prque-IsPrque ℕ) (4 ∷ 7 ∷ []) 7 (1, refl)

-- Send and InvokeChainCode succeed each time.
abbrev pub counting : Clients
counting = record {
  Out = ℕ;
  send = λ ctx n. (suc n, true);
  Fab = ℕ;
  invoke = λ f args n. (suc n, true);
}

abbrev pub Manager : Type 0
Manager = TxManager tx_json list_node (list_prque CrossTx) (list_prque Executed) counting

abbrev pub manager : List CrossTx → List Executed → Manager
manager p e = record { db = two_sent; pending = p; executed = e; out = 0; fab = 0 }

abbrev round : Manager → Manager
round t =
    (process_cross_tx_receipts tx_json list_node (list_prque CrossTx) (list_prque Executed) counting
      t).0

abbrev one_receipt : Manager
one_receipt = manager [] (receipt (arrived "a" "ra") ∷ [])

one_receipt_runs :
    process_cross_tx_receipts tx_json list_node
      (list_prque CrossTx)
      (list_prque Executed)
      counting
      one_receipt
    ≡ (round one_receipt, ok committed)
unfolding process_cross_tx_receipts handle_receipts after_update commit_receipts push_receipts
    assert_receipts drain drain_from list_pop update_cross_tx receipt_updaters receipt_updater
    last_of is_not_found updates with_transaction update_rows one_tx list_find unmarshal_tx
    object_of unmarshal_fields row_field rebuilt rebuild_icontract Sample.doc_object contract_doc
    Sample.doc_string as_doc to_string rebuild_as Sample.doc_commit Sample.doc_marshal
    Sample.doc_precommit parse unmarshal_text finish as_int64 as_uint64 as_timestamp
one_receipt_runs = refl

committed_ne_discarded : committed ≢ discarded
committed_ne_discarded h = cc

receipts_return_example : Within (round one_receipt).executed (receipt (arrived "a" "ra"))
unfolding list_prque-IsPrque
receipts_return_example =
    receipts_return tx_json list_node (list_prque CrossTx) (list_prque Executed) counting
      (list_prque-IsPrque Executed) one_receipt (round one_receipt) committed (arrived "a" "ra")
      one_receipt_runs committed_ne_discarded (0, refl)

abbrev unknown_round : Manager
unknown_round = manager [] (receipt (arrived "a" "ra") ∷ receipt (arrived "zz" "rz") ∷ [])

unknown_round_runs :
    process_cross_tx_receipts tx_json list_node
      (list_prque CrossTx)
      (list_prque Executed)
      counting
      unknown_round
    ≡ (round unknown_round, ok discarded)
unfolding process_cross_tx_receipts handle_receipts after_update commit_receipts push_receipts
    assert_receipts drain drain_from list_pop update_cross_tx receipt_updaters receipt_updater
    last_of is_not_found updates with_transaction update_rows one_tx list_find unmarshal_tx
    object_of unmarshal_fields row_field rebuilt rebuild_icontract Sample.doc_object contract_doc
    Sample.doc_string as_doc to_string rebuild_as Sample.doc_commit Sample.doc_marshal
    Sample.doc_precommit parse unmarshal_text finish as_int64 as_uint64 as_timestamp
unknown_round_runs = refl

zz_missing : list_find two_sent "zz" ≡ err not_found
unfolding list_find
zz_missing = refl

unknown_receipt_example :
    (discarded ≢ committed)
    × ((round unknown_round).db ≡ two_sent)
    × ((round unknown_round).fab ≡ unknown_round.fab)
    × (discarded ≡ discarded → list_pop (round unknown_round).executed ≡ none)
unfolding list_prque-IsPrque
unknown_receipt_example =
    unknown_receipt tx_json tx_json-IsTxJson list_node list_node-IsNode (list_prque CrossTx)
      (list_prque Executed) counting (list_prque-IsPrque Executed) unknown_round
      (round unknown_round) discarded (arrived "zz" "rz") unknown_round_runs (1, refl) zz_missing

-- All rows, unless the query is for a field that they do not have.
abbrev rows_for : List CrossTx → List EqStatus → List CrossTx
rows_for db [] = db
rows_for db (e ∷ es) = if among e.field cross_tx_fields then db else []

abbrev by_field : Finder list_node
by_field = record { find = λ db args. rows_for db args.filter }

by_field-IsFinder : IsFinder by_field
by_field-IsFinder = record { unknown_field = λ db args e f g. rw (f, g) refl }

reload_finds_nothing_example :
    reload tx_json list_node
      (list_prque CrossTx)
      (list_prque Executed)
      counting
      by_field
      (manager [] [])
    ≡ (manager [] [], ok tt)
reload_finds_nothing_example =
    reload_finds_nothing tx_json list_node (list_prque CrossTx) (list_prque Executed) counting
      by_field by_field-IsFinder (manager [] [])

abbrev refilled : Manager
refilled =
    (add_cross_txs tx_json list_node (list_prque CrossTx) (list_prque Executed) counting
      (fresh "c" ∷ []) (manager [] [])).0

refilled_runs :
    add_cross_txs tx_json list_node
      (list_prque CrossTx)
      (list_prque Executed)
      counting
      (fresh "c" ∷ [])
      (manager [] [])
    ≡ (refilled, ok [])
unfolding add_cross_txs add_stored store_txs out_txs queue_all queue_one queue_kind push_tx save
    save_txs save_new save_known with_transaction one_tx list_find unmarshal_tx object_of
    unmarshal_fields row_field rebuilt rebuild_icontract Sample.doc_object contract_doc
    Sample.doc_string as_doc to_string rebuild_as Sample.doc_commit Sample.doc_marshal
    Sample.doc_precommit parse unmarshal_text finish as_int64 as_uint64 as_timestamp
refilled_runs = refl

ok_ne_panic : ◌≡◌ {A = Run StoreError (List CrossTx)} (ok []) panic → ⊥
ok_ne_panic h = cc

add_cross_txs-Holds_example : Within refilled.pending (fresh "c")
unfolding list_prque-IsPrque
add_cross_txs-Holds_example =
    add_cross_txs-Holds tx_json list_node (list_prque CrossTx) (list_prque Executed) counting
      (list_prque-IsPrque CrossTx) (fresh "c" ∷ []) (manager [] []) refilled (ok []) 0 (fresh "c") _
      refilled_runs ok_ne_panic refl refl refl

abbrev waiting_one : Manager
waiting_one = manager (fresh "a" ∷ []) []

abbrev after_round : Manager
after_round =
    (process_cross_txs tx_json list_node (list_prque CrossTx) (list_prque Executed) counting
      encoders flat sign_flat waiting_one).0

after_round_runs :
    process_cross_txs tx_json list_node
      (list_prque CrossTx)
      (list_prque Executed)
      counting
      encoders
      flat
      sign_flat
      waiting_one
    ≡ (after_round, ok ("a" ∷ []))
unfolding process_cross_txs mark_sent mark_pending set_status drain drain_from list_pop relay_all
    relay_one to_cross_hub_tx convert sign_and_send send_signed push_back sign_ctx ctx_signer_hash
    ctx_preimage ctx_with_signature ctx_signature_values new_ctx_signer new_cross_transaction
    updates with_transaction update_rows one_tx list_find unmarshal_tx object_of unmarshal_fields
    row_field rebuilt rebuild_icontract Sample.doc_object contract_doc Sample.doc_string as_doc
    to_string rebuild_as Sample.doc_commit Sample.doc_marshal Sample.doc_precommit parse
    unmarshal_text finish as_int64 as_uint64 as_timestamp
after_round_runs = refl

process_cross_txs-IsPending_example : HasRow tx_json list_node IsPending after_round.db "a"
process_cross_txs-IsPending_example =
    process_cross_txs-IsPending tx_json tx_json-IsTxJson list_node list_node-IsNode
      (list_prque CrossTx) (list_prque Executed) counting encoders flat sign_flat waiting_one
      after_round ("a" ∷ []) 0 "a" two_sent-Rows after_round_runs refl

process_cross_txs-Accounted_example :
    Accounted encoders
      (outside_of (list_prque CrossTx) counting)
      (outside_of-IsOutside (list_prque CrossTx) counting (list_prque-IsPrque CrossTx))
      flat
      sign_flat
      after_round.pending
      ("a" ∷ [])
      (fresh "a")
unfolding list_prque-IsPrque
process_cross_txs-Accounted_example =
    process_cross_txs-Accounted tx_json tx_json-IsTxJson list_node list_node-IsNode
      (list_prque CrossTx) (list_prque Executed) counting encoders flat sign_flat
      (list_prque-IsPrque CrossTx) waiting_one after_round ("a" ∷ []) (fresh "a") after_round_runs
      (0, refl)
