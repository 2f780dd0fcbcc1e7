-- ===== src/Courier/Receipts.antt =====
-- txmanager.go: the updaters of ProcessCrossTxs and UpdateCrossTx. Under Go 1.14 a loop has one variable
-- for all its turns, so the closures of UpdateCrossTx all read the last receipt of the list.
use crosshub.Prelude.{
  sym, Option-cases, inl, inr, ℕ, zero, suc, ◌≡◌, refl, subst, ◌∙◌, List, [], ◌∷◌, map, get_elem?,
  String, none, some, Run, ok, panic, arith,
}
use crosshub.Prelude.Action.{Action}
use crosshub.Contract.Status.{CStatus, IsFlag, executed, pending}
use crosshub.Contract.Status
use crosshub.Contract.Defs.{
  PrecommitContract, IContract, precommit, commit, update_status, update_receipt,
}
use crosshub.Contract.Json.{reloaded}
use crosshub.Courier.Tx.{CrossTx, CrossTxReceipt, TxJson, IsTxJson}
use crosshub.Courier.Store.{StoreError, Node, updates, update_rows}
use crosshub.Courier.Laws.{IsNode, with_transaction-ok}
use crosshub.Courier.Step.{Settles, Rows, Row-same, HasRow, HasRow-same}
use crosshub.Courier.Loop.{AllSettle, Looped, update_rows-Looped, PutsContract, update_rows_found}

-- `c.UpdateStatus(s)`, a method of the embedded interface, which panics on nil.
unfoldable pub set_status : CStatus → CrossTx → Run StoreError CrossTx
set_status s c = elim c.contract [
  | none ↦ panic
  | some k ↦ ok (record c { contract = some (update_status s k) })
]

-- The body of the closure: a commit contract fails the type assertion and gets no receipt.
abbrev pub with_receipt : String → IContract → IContract
with_receipt r (precommit p) = precommit (update_receipt r (record p { status = Status.executed }))
with_receipt r (commit c) = commit (record c { status = Status.executed })

unfoldable pub receipt_updater : CrossTxReceipt → CrossTx → Run StoreError CrossTx
receipt_updater ctr c = elim c.contract [
  | none ↦ panic
  | some k ↦ ok (record c { contract = some (with_receipt ctr.receipt k) })
]

-- The value that the loop variable has once the loop is over.
unfoldable pub last_of : CrossTxReceipt → List CrossTxReceipt → CrossTxReceipt
last_of ctr [] = ctr
last_of ctr (next ∷ rest) = last_of next rest

abbrev pub receipt_id : CrossTxReceipt → String
receipt_id ctr = ctr.cross_id

unfoldable pub receipt_updaters : List CrossTxReceipt → List (CrossTx → Run StoreError CrossTx)
receipt_updaters [] = []
receipt_updaters (ctr ∷ ctrs) = map (λ _. receipt_updater (last_of ctr ctrs)) (ctr ∷ ctrs)

module _ {D : Type 0} (json : TxJson D) (node : Node D) where
  -- TxManager.UpdateCrossTx
  unfoldable pub update_cross_tx : List CrossTxReceipt → Action node.Db StoreError (Unit {0})
  unfolding receipt_updaters
  update_cross_tx ctrs = updates json node (map receipt_id ctrs) (receipt_updaters ctrs)

-- The contract of a transaction that waits for its receipt, and of one that has receipt `r`.
pub data Relayed : CrossTx → Type 0 where
  relayed : {c : CrossTx} (p : PrecommitContract) → c.contract ≡ some (precommit p) → Relayed c

pub record Receipted (r : String) (c : CrossTx) : Type 0 where
  pub contract_core : PrecommitContract
  pub is_contract : c.contract ≡ some (precommit contract_core)
  pub is_executed : contract_core.status ≡ Status.executed
  pub is_receipt : contract_core.receipt ≡ r

receipt_updater-Settles :
    (ctr : CrossTxReceipt) → Settles (receipt_updater ctr) Relayed (Receipted ctr.receipt)
unfolding receipt_updater reloaded
receipt_updater-Settles ctr = record {
  settled = λ c c' rel e. elim rel [
    | relayed p ec ↦ (
      with_receipt ctr.receipt (precommit p),
      ground arith,
      refl,
      relayed (update_receipt ctr.receipt (record p { status = Status.executed })) refl,
      record {
        contract_core = update_receipt ctr.receipt (record p { status = Status.executed });
        is_contract = refl;
        is_executed = refl;
        is_receipt = refl;
      },
    )
  ];
}

pub elem-map_constant {ℓ κ} :
    {A : Type ℓ} {B : Type κ} (b : B) (xs : List A) (n : ℕ) (y : B)
    → get_elem? (map (λ _. b) xs) n ≡ some y
    → b ≡ y
elem-map_constant b [] n y h = absurd (cc)
elem-map_constant b (x ∷ xs) zero y h = cc
elem-map_constant b (x ∷ xs) (suc n) y h = elem-map_constant b xs n y h

receipt_updaters-AllSettle :
    (ctr : CrossTxReceipt) (ctrs : List CrossTxReceipt)
    → AllSettle Relayed (Receipted (last_of ctr ctrs).receipt) (receipt_updaters (ctr ∷ ctrs))
unfolding receipt_updaters
receipt_updaters-AllSettle ctr ctrs n u e =
    let last = last_of ctr ctrs in
    subst (λ v. Settles v Relayed (Receipted last.receipt))
      (elem-map_constant (receipt_updater last) (ctr ∷ ctrs) n u e) (receipt_updater-Settles last)

module _ {D : Type 0} (json : TxJson D) (json_lawful : IsTxJson json) (node : Node D)
    (lawful : IsNode json node) where
  pub updates-Looped :
      (Q P : CrossTx → Type 0) (ids : List String) (us : List (CrossTx → Run StoreError CrossTx))
      (db db' : node.Db)
      → AllSettle Q P us
      → Rows json node Q db
      → updates json node ids us db ≡ (db', ok tt)
      → Looped json json_lawful node lawful Q P ids db db'
  unfolding updates
  updates-Looped Q P ids us db db' steps rows h =
      with_transaction-ok json node (update_rows json node ids us) db db' (ground arith)
        (λ s s' begun e done.
          let into = lawful.begin-find db s begun in
          let out = lawful.commit-find s' db' done in
          let loop =
            update_rows-Looped json json_lawful node lawful ids us s s' steps
              (record { holds = λ j c r. rows.holds j c (Row-same json node db s j c (into j) r) })
              e in
          record {
            rows = record {
              holds = λ j c r. loop.rows.holds j c (Row-same json node s' db' j c (out j) r);
            };
            kept = λ j has.
                HasRow-same json node P s' db' j (out j)
                  (loop.kept j (HasRow-same json node P db s j (into j) has));
            settled_rows = λ n id found.
                HasRow-same json node P s' db' id (out id) (loop.settled_rows n id found);
            others = λ j apart. out j ∙ loop.others j apart ∙ into j;
          })

  receipt_updater-PutsContract :
      (ctr : CrossTxReceipt) → PutsContract json json_lawful node lawful (receipt_updater ctr)
  unfolding receipt_updater
  receipt_updater-PutsContract ctr c c' e = elim (Option-cases c.contract) [
    | inl f ↦ absurd (ground arith)
    | inr (k, f) ↦ (with_receipt ctr.receipt k, ground arith)
  ]

  receipt_updaters-PutsContract :
      (ctrs : List CrossTxReceipt) (n : ℕ) (u : CrossTx → Run StoreError CrossTx)
      → get_elem? (receipt_updaters ctrs) n ≡ some u
      → PutsContract json json_lawful node lawful u
  unfolding receipt_updaters
  receipt_updaters-PutsContract [] n u e = absurd (cc)
  receipt_updaters-PutsContract (ctr ∷ ctrs) n u e =
      subst (PutsContract json json_lawful node lawful)
        (elem-map_constant (receipt_updater (last_of ctr ctrs)) (ctr ∷ ctrs) n u e)
        (receipt_updater-PutsContract (last_of ctr ctrs))

  -- An UpdateCrossTx that succeeds found the transaction of each receipt.
  pub update_cross_tx_found :
      (ctrs : List CrossTxReceipt) (db db' : node.Db)
      → update_cross_tx json node ctrs db ≡ (db', ok tt)
      → (n : ℕ) (id : String) → get_elem? (map receipt_id ctrs) n ≡ some id
      → (d : D) × (node.find db id ≡ ok d)
  unfolding update_cross_tx updates
  update_cross_tx_found ctrs db db' h n id e =
      let us = receipt_updaters ctrs in
      with_transaction-ok json node (update_rows json node (map receipt_id ctrs) us) db db'
        (ground arith)
        λ s s' begun ran done.
          let (d, found) =
            update_rows_found json json_lawful node lawful (map receipt_id ctrs) us s s'
              (receipt_updaters-PutsContract ctrs) ran n id e in
          (d, sym (lawful.begin-find db s begun id) ∙ found)

  -- Where all rows hold precommit contracts, an UpdateCrossTx that succeeds leaves each transaction it
  -- was called for Executed, with the receipt of the last entry of the list and not its own.
  pub update_cross_tx-last_receipt :
      (ctr : CrossTxReceipt) (ctrs : List CrossTxReceipt) (db db' : node.Db)
      → Rows json node Relayed db
      → update_cross_tx json node (ctr ∷ ctrs) db ≡ (db', ok tt)
      → (n : ℕ) (id : String) → get_elem? (map receipt_id (ctr ∷ ctrs)) n ≡ some id
      → HasRow json node (Receipted (last_of ctr ctrs).receipt) db' id
  unfolding update_cross_tx
  update_cross_tx-last_receipt ctr ctrs db db' rows h =
      (updates-Looped Relayed _ (map receipt_id (ctr ∷ ctrs)) (receipt_updaters (ctr ∷ ctrs)) db db'
        (receipt_updaters-AllSettle ctr ctrs) rows h).settled_rows
