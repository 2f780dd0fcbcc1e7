-- ===== src/Courier/Sample.antt =====
-- Documents that stand for JSON texts, and a node over a list of transactions.
use crosshub.Prelude.{
  or_else, panic, ℕ, ◌≡◌, refl, false, ap, sym, List, [], ◌∷◌, String, str_eq, eq_iff, Option, none,
  some, Run, ok, err, ℤ, if◌then◌else◌, arith, >>=-ok, ok-injective, Bool-cases, inl, inr, ◌∙◌,
}
use crosshub.Contract.Defs.{Contract}
use crosshub.Contract.Json.{Json, IsJson, JsonError}
use crosshub.Contract.Sample
use crosshub.Contract.Sample.{Doc, doc_json, doc_json-IsJson}
use crosshub.Courier.Tx.{
  CrossTx, Timestamp, TxJson, IsTxJson, unmarshal_tx, unmarshal_fields, rebuilt,
}
use crosshub.Courier.Store.{StormError, not_found, Node}
use crosshub.Courier.Laws.{IsNode}

pub data TxDoc : Type 0 where
  row : CrossTx → TxDoc
  text : String → TxDoc
  integer : ℤ → TxDoc
  natural : ℕ → TxDoc
  time : Timestamp → TxDoc
  contract : Doc → TxDoc

unfoldable pub as_doc : TxDoc → Doc
as_doc (contract d) = d
as_doc (text t) = Sample.quoted t
as_doc _ = Sample.null

unfoldable pub contract_doc : Contract → Doc
contract_doc none = Sample.null
contract_doc (some k) = Sample.inner k

abbrev stamp_doc : Option Timestamp → Option TxDoc
stamp_doc none = none
stamp_doc (some t) = some (time t)

unfoldable pub row_field : CrossTx → String → Option TxDoc
row_field c k =
    if str_eq k "PK"
    then some (integer c.pk)
    else if str_eq k "CrossID"
    then some (text c.cross_id)
    else if str_eq k "TxID"
    then some (text c.tx_id)
    else if str_eq k "BlockNumber"
    then some (natural c.block_number)
    else if str_eq k "TimeStamp"
    then stamp_doc c.time_stamp
    else if str_eq k "IContract"
    then some (contract (contract_doc c.contract))
    else none

unfoldable pub object_of : TxDoc → Option (String → Option TxDoc)
object_of (row c) = some (row_field c)
object_of (contract d) = elim (doc_json.object d) [
  | none ↦ none
  | some m ↦ some (λ k. elim (m k) [ none ↦ none | some x ↦ some (contract x) ])
]
object_of _ = none

abbrev contract_json : Json TxDoc
contract_json = record {
  object = object_of;
  string = λ d. doc_json.string (as_doc d);
  precommit_of = λ d. doc_json.precommit_of (as_doc d);
  commit_of = λ d. doc_json.commit_of (as_doc d);
  marshal = λ c. contract (doc_json.marshal c);
}

unfoldable pub as_int64 : TxDoc → Option ℤ
as_int64 (integer z) = some z
as_int64 _ = none

unfoldable pub as_uint64 : TxDoc → Option ℕ
as_uint64 (natural n) = some n
as_uint64 _ = none

unfoldable pub as_timestamp : TxDoc → Option Timestamp
as_timestamp (time t) = some t
as_timestamp _ = none

abbrev pub tx_json : TxJson TxDoc
tx_json = record {
  contracts = contract_json;
  int64 = as_int64;
  uint64 = as_uint64;
  timestamp = as_timestamp;
  marshal_tx = row;
}

contract_json-IsJson : IsJson contract_json
unfolding object_of as_doc Sample.doc_object Sample.doc_marshal Sample.doc_string
    Sample.doc_precommit Sample.doc_commit
contract_json-IsJson = record {
  inner = λ c. contract (Sample.inner c);
  outer_object = λ c. (_, refl, refl);
  inner_object = λ c. (_, _, refl, refl, refl);
  precommit_precommit = λ c. refl;
  precommit_commit = λ c. refl;
  commit_any = λ c. refl;
}

pub tx_json-IsTxJson : IsTxJson tx_json
unfolding object_of row_field as_int64 as_uint64 as_timestamp as_doc contract_json-IsJson
    contract_doc
tx_json-IsTxJson = record {
  contracts_lawful = contract_json-IsJson;
  tx_object = λ c k e. (
    row_field c,
    _,
    _,
    _,
    _,
    refl,
    (refl, refl),
    (refl, refl),
    (refl, refl),
    (refl, refl),
    λ t g. (time t, rw g refl, refl),
    λ g. rw g refl,
    rw e refl,
  );
}

unfoldable pub list_find : List CrossTx → String → Run StormError TxDoc
list_find [] id = err not_found
list_find (c ∷ cs) id =
    let rest = list_find cs id in if str_eq c.cross_id id then ok (row c) else rest

abbrev pub list_node : Node TxDoc
list_node = record {
  Db = List CrossTx;
  begin = λ db. ok db;
  find = list_find;
  save = λ c s. (c ∷ s, ok tt);
  update = λ c s. (c ∷ s, ok tt);
  commit = λ tx. ok tx;
}

row_cross_id :
    (c old : CrossTx) (fault : Option JsonError)
    → unmarshal_tx tx_json (row c) ≡ ok (old, fault)
    → c.cross_id ≡ old.cross_id
unfolding unmarshal_tx unmarshal_fields object_of row_field as_doc Sample.doc_string
row_cross_id c old fault h = >>=-ok (or_else (stamp_doc c.time_stamp) panic) _ h λ t e h1.
    >>=-ok (rebuilt tx_json (contract (contract_doc c.contract))) _ h1
      (λ r e2 h2. ap (λ p. (p.0).cross_id) (ok-injective h2))

list_find_cross_id :
    (s : List CrossTx) (id : String) (d : TxDoc) (c : CrossTx) (fault : Option JsonError)
    → list_find s id ≡ ok d
    → unmarshal_tx tx_json d ≡ ok (c, fault)
    → c.cross_id ≡ id
unfolding list_find
list_find_cross_id [] id d c fault e h = absurd (cc)
list_find_cross_id (b ∷ bs) id d c fault e h = elim (Bool-cases (str_eq b.cross_id id)) [
  | inl t ↦
      let same : row b ≡ d = ground arith in
      sym (row_cross_id b c fault (ap (unmarshal_tx tx_json) same ∙ h)) ∙ (eq_iff b.cross_id id).0 t
  | inr t ↦ list_find_cross_id bs id d c fault (ground arith) h
]

list_find_front :
    (c : CrossTx) (s : List CrossTx) (id j : String)
    → c.cross_id ≡ id
    → list_find (c ∷ s) j ≡ (if str_eq id j then ok (row c) else list_find s j)
unfolding list_find
list_find_front c s id j e = ap (λ i. if str_eq i j then ok (row c) else list_find s j) e

list_find_behind :
    (c : CrossTx) (s : List CrossTx) (id j : String)
    → c.cross_id ≡ id
    → str_eq id j ≡ false
    → list_find (c ∷ s) j ≡ list_find s j
list_find_behind c s id j e ne =
    list_find_front c s id j e ∙ ap (λ b. if b then ok (row c) else list_find s j) ne

pub list_node-IsNode : IsNode tx_json list_node
list_node-IsNode = record {
  begin-find = λ db tx e j. ap (λ d. list_find d j) (ok-injective (sym e));
  commit-find = λ tx db e j. ap (λ d. list_find d j) (ok-injective (sym e));
  find-cross_id = λ s id c r. list_find_cross_id s id r.document c none r.found r.decoded;
  update-find = λ s s' id c k r e j.
      ap (λ p. list_find (p.0) j) (sym e)
      ∙ list_find_front _ s id j (list_find_cross_id s id r.document c none r.found r.decoded);
  update-others = λ s s' id d c fault k e f h j ne.
      ap (λ p. list_find (p.0) j) (sym h)
      ∙ list_find_behind _ s id j (list_find_cross_id s id d c fault e f) ne;
  save-others = λ s s' c new h j ne.
      ap (λ p. list_find (p.0) j) (sym h) ∙ list_find_behind c s c.cross_id j refl ne;
}
