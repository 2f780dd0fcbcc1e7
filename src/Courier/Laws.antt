-- ===== src/Courier/Laws.antt =====
-- What storm documents of the calls the store makes, and the decoded row of a CrossID.
use crosshub.Prelude.{
  pos, ap, ◌∙◌, ◌≡◌, refl, false, List, length, ◌==◌, Bool-cases, inl, inr, Run-cases, ◌∙◌, ap,
  String, str_eq, Option, none, some, Run, ok, err, panic, if◌then◌else◌, arith,
}
use crosshub.Contract.Defs.{IContract}
use crosshub.Contract.Json.{JsonError}
use crosshub.Courier.Tx.{CrossTx, TxJson, unmarshal_tx}
use crosshub.Courier.Store.{
  StoreError, Node, one_tx, finish, with_transaction, updates, update_rows,
}

-- The row of a CrossID decodes to a CrossTx.
pub record Row {D : Type 0} (json : TxJson D) (node : Node D) (s : node.Db) (id : String)
    (c : CrossTx) : Type 0 where
  pub document : D
  pub found : node.find s id ≡ ok document
  pub decoded : unmarshal_tx json document ≡ ok (c, none)

-- Begin and Commit keep the rows; One gives a row with the value that was asked for; Update writes
-- the row of the same primary key and refuses a zero key, here only with a new contract in it; Save of
-- a zero primary key takes a new one and writes the row of its own CrossID.
pub record IsNode {D : Type 0} (json : TxJson D) (node : Node D) : Type 0 where
  pub begin-find :
      (db tx : node.Db) → node.begin db ≡ ok tx → (j : String) → node.find tx j ≡ node.find db j
  pub commit-find :
      (tx db : node.Db) → node.commit tx ≡ ok db → (j : String) → node.find db j ≡ node.find tx j
  pub find-cross_id :
      (s : node.Db) (id : String) (c : CrossTx) → Row json node s id c → c.cross_id ≡ id
  pub update-find :
      (s s' : node.Db) (id : String) (c : CrossTx) (k : IContract)
      → Row json node s id c
      → node.update (record c { contract = some k }) s ≡ (s', ok tt)
      → (j : String)
      → node.find s' j ≡ (
          if str_eq id j
          then ok (json.marshal_tx (record c { contract = some k }))
          else node.find s j)
  pub update-others :
      (s s' : node.Db) (id : String) (d : D) (c : CrossTx) (fault : Option JsonError)
      (k : IContract)
      → node.find s id ≡ ok d
      → unmarshal_tx json d ≡ ok (c, fault)
      → node.update (record c { contract = some k }) s ≡ (s', ok tt)
      → (j : String) → str_eq id j ≡ false
      → node.find s' j ≡ node.find s j
  pub save-others :
      (s s' : node.Db) (c : CrossTx)
      → c.pk ≡ pos 0
      → node.save c s ≡ (s', ok tt)
      → (j : String) → str_eq c.cross_id j ≡ false
      → node.find s' j ≡ node.find s j

module _ {D : Type 0} (json : TxJson D) (node : Node D) where
  -- A read without an error found a row.
  pub one_tx-Row :
      (id : String) (s s' : node.Db) (c : CrossTx)
      → one_tx json node id s ≡ (s', ok (c, none))
      → Row json node s id c
  unfolding one_tx
  one_tx-Row id s s' c h =
      Run-cases (node.find s id) (λ d e. record { document = d; found = e; decoded = ground arith })
        (λ x e. absurd (ground arith)) (λ e. absurd (ground arith))

  pub one_tx_keeps :
      (id : String) (s s' : node.Db) (r : Run StoreError (CrossTx × Option StoreError))
      → one_tx json node id s ≡ (s', r)
      → s ≡ s'
  unfolding one_tx
  one_tx_keeps id s s' r h = ground arith

  finish-ok {ℓ} :
      {Q : Type ℓ} (db : node.Db) (r : node.Db × Run StoreError (Unit {0})) (db' : node.Db)
      → finish json node db r ≡ (db', ok tt)
      → ((s' : node.Db) → r ≡ (s', ok tt) → node.commit s' ≡ ok db' → Q)
      → Q
  unfolding finish
  finish-ok db (s, ok tt) db' h k =
      Run-cases (node.commit s) (λ x e. k s refl (ground arith)) (λ x e. absurd (ground arith))
        (λ e. absurd (ground arith))
  finish-ok db (s, err e) db' h k = absurd (ground arith)
  finish-ok db (s, panic) db' h k = absurd (ground arith)

  pub with_transaction-ok {ℓ} :
      {Q : Type ℓ} (body : node.Db → node.Db × Run StoreError (Unit {0})) (db db' : node.Db)
      → with_transaction json node body db ≡ (db', ok tt)
      → ((s s' : node.Db)
          → node.begin db ≡ ok s
          → body s ≡ (s', ok tt)
          → node.commit s' ≡ ok db'
          → Q)
      → Q
  unfolding with_transaction finish
  with_transaction-ok body db db' h k =
      Run-cases (node.begin db) (λ s e. finish-ok db (body s) db' (ground arith) (λ s'. k s s' e))
        (λ x e. absurd (ground arith)) (λ e. absurd (ground arith))

  -- A method that does not succeed leaves the database as it was.
  pub with_transaction_atomic :
      (body : node.Db → node.Db × Run StoreError (Unit {0})) (db : node.Db)
      → ((with_transaction json node body db).1 ≡ ok tt → ⊥)
      → (with_transaction json node body db).0 ≡ db
  unfolding with_transaction finish
  with_transaction_atomic body db h = ground arith

  -- An Updates that does not succeed leaves the database as it was.
  pub updates_atomic :
      (ids : List String) (updaters : List (CrossTx → Run StoreError CrossTx)) (db : node.Db)
      → ((updates json node ids updaters db).1 ≡ ok tt → ⊥)
      → (updates json node ids updaters db).0 ≡ db
  unfolding updates
  updates_atomic ids updaters db h = elim (Bool-cases (length ids == length updaters)) [
    | inl t ↦
        let ran : updates json node ids updaters db
            ≡ with_transaction json node (update_rows json node ids updaters) db =
          ground arith in
        ap (λ p. p.0) ran
        ∙ with_transaction_atomic (update_rows json node ids updaters) db
            (λ e. h (ap (λ p. p.1) ran ∙ e))
    | inr t ↦ ground arith
  ]
