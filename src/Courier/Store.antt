-- ===== src/Courier/Store.antt =====
-- database.go: Store over a storm.Node, which is a parameter. A write transaction is a state of its own,
-- which Commit turns into the database's; Rollback drops it.
use crosshub.Prelude.{
  Bool, true, false, List, [], ◌∷◌, length, String, Option, none, some, Run, ok, err, panic,
  if◌then◌else◌, not, ◌==◌,
}
use crosshub.Prelude.Action.{Action, pure, fail, crash, lift, retag, ◌>>=◌, ◌>>◌}
use crosshub.Contract.Status.{completed}
use crosshub.Contract.Defs.{is_finished, update_status}
use crosshub.Contract.Json.{JsonError}
use crosshub.Courier.Tx.{CrossTx, zero_tx, TxJson, unmarshal_tx}

pub data StormError : Type 0 where
  not_found failed : StormError

-- An error of the store; the last four wrap another one.
pub data StoreError : Type 0 where
  storm : StormError → StoreError
  bad_json : JsonError → StoreError
  invalid_params : StoreError
  begin_failed save_failed query_failed update_failed : StoreError → StoreError

-- errors.Is(err, storm.ErrNotFound)
unfoldable pub is_not_found : StoreError → Bool
is_not_found (storm not_found) = true
is_not_found (storm failed) = false
is_not_found (bad_json e) = false
is_not_found invalid_params = false
is_not_found (begin_failed e) = is_not_found e
is_not_found (save_failed e) = is_not_found e
is_not_found (query_failed e) = is_not_found e
is_not_found (update_failed e) = is_not_found e

-- storm.Node on the bucket of CrossTx: `find` gives the document of a CrossID.
pub record Node (D : Type 0) : Type 1 where
  pub Db : Type 0
  pub begin : Db → Run StormError Db
  pub find : Db → String → Run StormError D
  pub save : CrossTx → Action Db StormError (Unit {0})
  pub update : CrossTx → Action Db StormError (Unit {0})
  pub commit : Db → Run StormError Db

module _ {D : Type 0} (json : TxJson D) (node : Node D) where
  -- `One(CrossIdIndex, id, &c)` on a zero c: the struct afterwards and the error.
  unfoldable pub one_tx : String → Action node.Db StoreError (CrossTx × Option StoreError)
  one_tx id tx = elim (node.find tx id) [
    | err e ↦ (tx, ok (zero_tx, some (storm e)))
    | panic ↦ (tx, panic)
    | ok d ↦ elim (unmarshal_tx json d) [
      | ok (c, none) ↦ (tx, ok (c, none))
      | ok (c, some e) ↦ (tx, ok (c, some (bad_json e)))
      | err e ↦ (tx, ok (zero_tx, some (bad_json e)))
      | panic ↦ (tx, panic)
    ]
  ]

  abbrev pub update_tx : CrossTx → Action node.Db StoreError (Unit {0})
  update_tx c tx = retag (λ e. update_failed (storm e)) (node.update c tx)

  -- `defer Rollback()` and the final `Commit()` around the body of a method.
  unfoldable pub finish :
      node.Db → node.Db × Run StoreError (Unit {0}) → node.Db × Run StoreError (Unit {0})
  finish db (tx, err e) = (db, err e)
  finish db (tx, panic) = (db, panic)
  finish db (tx, ok u) = elim (node.commit tx) [
    | ok db' ↦ (db', ok tt)
    | err e ↦ (db, err (storm e))
    | panic ↦ (db, panic)
  ]

  unfoldable pub with_transaction :
      Action node.Db StoreError (Unit {0}) → Action node.Db StoreError (Unit {0})
  unfolding finish
  with_transaction body db = elim (node.begin db) [
    | ok tx ↦ finish db (body tx)
    | err e ↦ (db, err (begin_failed (storm e)))
    | panic ↦ (db, panic)
  ]

  -- The three branches of Save. Logging asks for the status of the new contract, and panics on nil.
  unfoldable pub save_new : CrossTx → Action node.Db StoreError (Unit {0})
  save_new new_tx tx = elim new_tx.contract [
    | none ↦ (tx, panic)
    | some k ↦ retag (λ e. save_failed (storm e)) (node.save new_tx tx)
  ]

  unfoldable pub save_known : CrossTx → CrossTx → Action node.Db StoreError (Unit {0})
  save_known new_tx old_tx tx = elim old_tx.contract [
    | none ↦ (tx, ok tt)
    | some k ↦ elim new_tx.contract [
      | none ↦ (tx, panic)
      | some n ↦
          if is_finished n
          then update_tx (record old_tx { contract = some (update_status completed k) }) tx
          else (tx, ok tt)
    ]
  ]

  abbrev pub save_branch :
      CrossTx → CrossTx × Option StoreError → Action node.Db StoreError (Unit {0})
  save_branch new_tx (old_tx, some (storm not_found)) = save_new new_tx
  save_branch new_tx (old_tx, _) = save_known new_tx old_tx

  unfoldable pub save_txs : List CrossTx → Action node.Db StoreError (Unit {0})
  save_txs [] = pure tt
  save_txs (new_tx ∷ rest) = do
    found ← one_tx new_tx.cross_id
    save_branch new_tx found
    save_txs rest

  -- Store.Save
  unfoldable pub save : List CrossTx → Action node.Db StoreError (Unit {0})
  save tx_list = with_transaction (save_txs tx_list)

  abbrev pub query_checked : CrossTx × Option StoreError → Action node.Db StoreError CrossTx
  query_checked (c, none) = pure c
  query_checked (c, some e) = fail (query_failed e)

  -- The loop of Updates. An updater may panic.
  unfoldable pub update_rows :
      List String → List (CrossTx → Run StoreError CrossTx) → Action node.Db StoreError (Unit {0})
  update_rows [] updaters = pure tt
  update_rows (id ∷ ids) [] = crash
  update_rows (id ∷ ids) (updater ∷ updaters) = do
    found ← one_tx id
    c ← query_checked found
    c' ← lift (updater c)
    update_tx c'
    update_rows ids updaters

  -- Store.Updates
  unfoldable pub updates :
      List String → List (CrossTx → Run StoreError CrossTx) → Action node.Db StoreError (Unit {0})
  updates id_list updaters =
      if not (length id_list == length updaters)
      then fail invalid_params
      else with_transaction (update_rows id_list updaters)

  -- Store.One on the CrossID: nil on any error.
  unfoldable pub one : String → node.Db → Run StoreError (Option CrossTx)
  one id db = elim ((one_tx id db).1) [
    | ok (c, none) ↦ ok (some c)
    | ok (c, some e) ↦ ok none
    | err e ↦ ok none
    | panic ↦ panic
  ]
