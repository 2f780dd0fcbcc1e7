-- ===== src/Courier/Step.antt =====
-- What one update of a row does to the rows.
use crosshub.Prelude.{
  ◌≡◌, refl, sym, ◌∙◌, ap, true, false, subst, inl, inr, String, str_eq, eq_refl, Bool-cases, some,
  Run, ok, arith,
}
use crosshub.Contract.Defs.{IContract, get_status}
use crosshub.Contract.Status.{IsFlag}
use crosshub.Contract.Json.{reloaded}
use crosshub.Courier.Tx.{
  CrossTx, Timestamp, TxJson, IsTxJson, unmarshal_tx-stamped, unmarshal_tx-marshal_tx,
}
use crosshub.Courier.Store.{StoreError, Node}
use crosshub.Courier.Laws.{Row, IsNode}

-- An updater that puts a contract of a named status into a CrossTx on which `Q` holds, such that what
-- is read back has `Q` and `P`.
pub record Settles (u : CrossTx → Run StoreError CrossTx) (Q P : CrossTx → Type 0) : Type 0 where
  pub settled :
      (c c' : CrossTx)
      → Q c
      → u c ≡ ok c'
      → (k : IContract) × (c' ≡ record c { contract = some k })
        × IsFlag (get_status k)
        × Q (record c { contract = some (reloaded k) })
        × P (record c { contract = some (reloaded k) })

module _ {D : Type 0} (json : TxJson D) (node : Node D) where
  -- Every row that decodes has `Q`.
  pub record Rows (Q : CrossTx → Type 0) (s : node.Db) : Type 0 where
    pub holds : (id : String) (c : CrossTx) → Row json node s id c → Q c

  pub record HasRow (P : CrossTx → Type 0) (s : node.Db) (id : String) : Type 0 where
    pub tx : CrossTx
    pub row : Row json node s id tx
    pub property : P tx

  pub Row-same :
      (s s' : node.Db) (j : String) (c : CrossTx)
      → node.find s' j ≡ node.find s j
      → Row json node s' j c
      → Row json node s j c
  Row-same s s' j c e r = record {
    document = r.document;
    found = sym e ∙ r.found;
    decoded = r.decoded;
  }

  pub Row-unique :
      (s : node.Db) (j : String) (c d : CrossTx) → Row json node s j c → Row json node s j d → c ≡ d
  Row-unique s j c d r q =
      let e : r.document ≡ q.document = ground (arith, r.found, q.found) in
      ground (arith, r.decoded, q.decoded, e)

  pub HasRow-same :
      (P : CrossTx → Type 0) (s s' : node.Db) (j : String)
      → node.find s' j ≡ node.find s j
      → HasRow P s j
      → HasRow P s' j
  HasRow-same P s s' j e has = record {
    tx = has.tx;
    row = Row-same s' s j has.tx (sym e) has.row;
    property = has.property;
  }

module _ {D : Type 0} (json : TxJson D) (json_lawful : IsTxJson json) (node : Node D)
    (lawful : IsNode json node) where
  pub Row-marshal :
      (s : node.Db) (j : String) (c : CrossTx) (k : IContract)
      → IsFlag (get_status k)
      → (t : Timestamp) × (c.time_stamp ≡ some t)
      → node.find s j ≡ ok (json.marshal_tx (record c { contract = some k }))
      → Row json node s j (record c { contract = some (reloaded k) })
  Row-marshal s j c k f (t, stamped) e = record {
    document = json.marshal_tx (record c { contract = some k });
    found = e;
    decoded =
        unmarshal_tx-marshal_tx json json_lawful (record c { contract = some k }) k t refl stamped
          f;
  }

  -- The rows after one update.
  pub record Stepped (Q P : CrossTx → Type 0) (id : String) (s s' : node.Db) : Type 0 where
    pub rows : Rows json node Q s'
    pub settled_row : HasRow json node P s' id
    pub others : (j : String) → str_eq id j ≡ false → node.find s' j ≡ node.find s j
    pub kept : (j : String) → HasRow json node P s j → HasRow json node P s' j

  module _ {Q P : CrossTx → Type 0} {u : CrossTx → Run StoreError CrossTx}
      (step : Settles u Q P) where
    pub update_step :
        (s s' : node.Db) (id : String) (c c' : CrossTx)
        → Rows json node Q s
        → Row json node s id c
        → u c ≡ ok c'
        → node.update c' s ≡ (s', ok tt)
        → Stepped Q P id s s'
    update_step s s' id c c' rows r e h =
        let (k, ec, f, q, p) = step.settled c c' (rows.holds id c r) e in
        let now = lawful.update-find s s' id c k r (ap (λ x. node.update x s) (sym ec) ∙ h) in
        let there : (j : String)
            → str_eq id j ≡ true
            → Row json node s' j (record c { contract = some (reloaded k) }) =
          λ j t.
            Row-marshal s' j c k f (unmarshal_tx-stamped json r.document c r.decoded)
              (now j ∙ ground (arith, t)) in
        let elsewhere : (j : String) → str_eq id j ≡ false → node.find s' j ≡ node.find s j =
          λ j t. now j ∙ ground (arith, t) in
        record {
          rows = record {
            holds = λ j c2 r2. elim (Bool-cases (str_eq id j)) [
              | inl t ↦ subst Q (Row-unique json node s' j _ c2 (there j t) r2) q
              | inr t ↦ rows.holds j c2 (Row-same json node s s' j c2 (elsewhere j t) r2)
            ];
          };
          settled_row = record { tx = _; row = there id (eq_refl id); property = p };
          others = elsewhere;
          kept = λ j has. elim (Bool-cases (str_eq id j)) [
            | inl t ↦ record { tx = _; row = there j t; property = p }
            | inr t ↦ record {
              tx = has.tx;
              row = Row-same json node s' s j has.tx (sym (elsewhere j t)) has.row;
              property = has.property;
            }
          ];
        }
