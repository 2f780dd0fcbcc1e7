-- ===== src/Courier/Tests.antt =====
-- Runs of the store and of UpdateCrossTx.
use crosshub.Prelude.{
  panic, ◌≡◌, refl, ap, sym, List, [], ◌∷◌, String, Option, none, some, ok, pos, arith,
  ok-injective, ◌⊎◌, inl, inr, ◌∙◌,
}
use crosshub.Contract.Status.{to_string, parse, unmarshal_text, pending, finished}
use crosshub.Contract.Defs.{PrecommitContract, precommit, commit, empty_core}
use crosshub.Contract.Json.{JsonError, reloaded, rebuild_as, rebuild_icontract}
use crosshub.Contract.Sample
use crosshub.Contract.Sample.{Doc, doc_json, doc_json-IsJson}
use crosshub.Courier.Tx.{
  CrossTx, CrossTxReceipt, unmarshal_tx, unmarshal_fields, rebuilt, unmarshal_tx-marshal_tx,
  unmarshal_tx_panics,
}
use crosshub.Courier.Store.{
  save, save_txs, save_new, save_known, updates, with_transaction, update_rows, one_tx, finish,
}
use crosshub.Courier.Laws.{Row}
use crosshub.Courier.Advance.{advance, finishes}
use crosshub.Courier.Replays.{save-advance}
use crosshub.Courier.Step.{Rows, HasRow}
use crosshub.Courier.Receipts.{
  last_of, receipt_updater, receipt_updaters, update_cross_tx, Relayed, relayed, Receipted,
  update_cross_tx-last_receipt,
}
use crosshub.Courier.Sample.{
  TxDoc, row, tx_json, tx_json-IsTxJson, list_find, list_node, list_node-IsNode, object_of,
  row_field, contract_doc, as_doc, as_int64, as_uint64, as_timestamp,
}

abbrev pub sent : String → CrossTx
sent id = record {
  contract = some (
      precommit
        (record { status = pending; contract_id = id; receipt = ""; contract_core = empty_core }));
  pk = pos 1;
  cross_id = id;
  tx_id = "t";
  block_number = 9;
  time_stamp = some (record { seconds = pos 100; nanos = pos 0 });
}

abbrev pub two_sent : List CrossTx
two_sent = sent "a" ∷ sent "b" ∷ []

abbrev pub arrived : String → String → CrossTxReceipt
arrived id r = record { cross_id = id; receipt = r; sequence = pos 0 }

abbrev two_updated : List CrossTx
two_updated =
    ((update_cross_tx tx_json list_node (arrived "a" "ra" ∷ arrived "b" "rb" ∷ []) two_sent)).0

sent_contract : String → PrecommitContract
sent_contract id = record {
  status = pending;
  contract_id = id;
  receipt = "";
  contract_core = empty_core;
}

sent-Relayed :
    (id : String) (c : CrossTx) (fault : Option JsonError)
    → unmarshal_tx tx_json (row (sent id)) ≡ ok (c, fault)
    → Relayed c
unfolding sent_contract reloaded
sent-Relayed id c fault h = relayed (sent_contract id) (
    ap (λ p. (p.0).contract)
      (ok-injective (
        sym h
        ∙ unmarshal_tx-marshal_tx tx_json tx_json-IsTxJson (sent id) (precommit (sent_contract id))
            (record { seconds = pos 100; nanos = pos 0 }) refl refl refl)))

two_sent-document :
    (id : String) (d : TxDoc)
    → list_find two_sent id ≡ ok d
    → (d ≡ row (sent "a")) ⊎ (d ≡ row (sent "b"))
unfolding list_find
two_sent-document id d h = ground arith

pub two_sent-Rows : Rows tx_json list_node Relayed two_sent
two_sent-Rows = record {
  holds = λ id c r. elim (two_sent-document id r.document r.found) [
    | inl e ↦ sent-Relayed "a" c none (ap (unmarshal_tx tx_json) (sym e) ∙ r.decoded)
    | inr e ↦ sent-Relayed "b" c none (ap (unmarshal_tx tx_json) (sym e) ∙ r.decoded)
  ];
}

two_updated-eq :
    update_cross_tx tx_json list_node (arrived "a" "ra" ∷ arrived "b" "rb" ∷ []) two_sent
    ≡ (two_updated, ok tt)
unfolding last_of update_cross_tx updates with_transaction update_rows one_tx list_find unmarshal_tx
    object_of unmarshal_fields row_field rebuilt rebuild_icontract Sample.doc_object contract_doc
    Sample.doc_string as_doc to_string rebuild_as Sample.doc_commit Sample.doc_marshal
    Sample.doc_precommit parse unmarshal_text receipt_updater receipt_updaters finish as_int64
    as_uint64 as_timestamp
two_updated-eq = refl

update_cross_tx-last_receipt_example : HasRow tx_json list_node (Receipted "rb") two_updated "a"
unfolding last_of
update_cross_tx-last_receipt_example =
    update_cross_tx-last_receipt tx_json tx_json-IsTxJson list_node list_node-IsNode
      (arrived "a" "ra") (arrived "b" "rb" ∷ []) two_sent two_updated two_sent-Rows two_updated-eq 0
      "a" refl

abbrev ended : String → CrossTx
ended id = record (sent id) {
  contract = some (commit (record { status = finished; contract_id = id }));
  pk = pos 0;
}

abbrev one_completed : List CrossTx
one_completed = (save tx_json list_node (ended "a" ∷ []) two_sent).0

one_completed-eq : save tx_json list_node (ended "a" ∷ []) two_sent ≡ (one_completed, ok tt)
unfolding save save_txs save_new save_known updates with_transaction update_rows one_tx list_find
    unmarshal_tx object_of unmarshal_fields row_field rebuilt rebuild_icontract Sample.doc_object
    contract_doc Sample.doc_string as_doc to_string rebuild_as Sample.doc_commit Sample.doc_marshal
    Sample.doc_precommit parse unmarshal_text receipt_updater finish as_int64 as_uint64 as_timestamp
one_completed-eq = refl

sent-Row : Row tx_json list_node two_sent "a" (sent "a")
unfolding list_find sent_contract reloaded
sent-Row = record {
  document = row (sent "a");
  found = refl;
  decoded =
      unmarshal_tx-marshal_tx tx_json tx_json-IsTxJson (sent "a") (precommit (sent_contract "a"))
        (record { seconds = pos 100; nanos = pos 0 }) refl refl refl;
}

save-advance_example :
    Row tx_json list_node one_completed "a" (advance (finishes "a" (ended "a" ∷ [])) (sent "a"))
save-advance_example =
    save-advance tx_json tx_json-IsTxJson list_node list_node-IsNode (ended "a" ∷ []) two_sent
      one_completed (refl, tt) one_completed-eq "a" (sent "a") sent-Row

unknown_id :
    (updates tx_json list_node
        ("a" ∷ "c" ∷ [])
        (receipt_updater (arrived "a" "ra") ∷ receipt_updater (arrived "c" "rc") ∷ [])
        two_sent).1
      ≡ ok tt
    → ⊥
unfolding save save_txs save_new save_known updates with_transaction update_rows one_tx list_find
    unmarshal_tx object_of unmarshal_fields row_field rebuilt rebuild_icontract Sample.doc_object
    contract_doc Sample.doc_string as_doc to_string rebuild_as Sample.doc_commit Sample.doc_marshal
    Sample.doc_precommit parse unmarshal_text receipt_updater finish as_int64 as_uint64 as_timestamp
unknown_id h = cc

unmarshal_tx-marshal_tx_example : unmarshal_tx tx_json (row (sent "a")) ≡ ok (sent "a", none)
unfolding sent_contract reloaded
unmarshal_tx-marshal_tx_example =
    unmarshal_tx-marshal_tx tx_json tx_json-IsTxJson (sent "a") (precommit (sent_contract "a"))
      (record { seconds = pos 100; nanos = pos 0 }) refl refl refl

abbrev unstamped : CrossTx
unstamped = record (sent "a") { time_stamp = none }

unmarshal_tx_panics_example : unmarshal_tx tx_json (row unstamped) ≡ panic
unfolding sent_contract
unmarshal_tx_panics_example =
    unmarshal_tx_panics tx_json tx_json-IsTxJson unstamped (precommit (sent_contract "a")) refl refl
