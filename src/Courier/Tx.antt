-- ===== src/Courier/Tx.antt =====
-- tx.go: CrossTx and its UnmarshalJSON. A database document is of a type `D`.
use crosshub.Prelude.{
  refl, sym, ap, ◌∙◌, >>=-ok, ok-injective, ℕ, ◌≡◌, String, ℤ, pos, Option, none, some, Run, ok,
  err, panic, or_else, ◌>>=◌,
}
use crosshub.Contract.Status.{IsFlag}
use crosshub.Contract.Defs.{IContract, Contract, get_status}
use crosshub.Contract.Json.{
  Json, IsJson, JsonError, syntax, rebuild_icontract, reloaded, rebuild_icontract-inner,
}

-- timestamp.Timestamp
pub record Timestamp : Type 0 where
  pub seconds : ℤ
  pub nanos : ℤ

-- The timestamp is a pointer and may be nil.
pub record CrossTx : Type 0 where
  pub contract : Contract
  pub pk : ℤ
  pub cross_id : String
  pub tx_id : String
  pub block_number : ℕ
  pub time_stamp : Option Timestamp

abbrev pub zero_tx : CrossTx
zero_tx = record {
  contract = none;
  pk = pos 0;
  cross_id = "";
  tx_id = "";
  block_number = 0;
  time_stamp = none;
}

pub record CrossTxReceipt : Type 0 where
  pub cross_id : String
  pub receipt : String
  pub sequence : ℤ

-- encoding/json on the fields of a CrossTx. `none` is an error, which leaves the field as it was. A null of the
-- document is a nil pointer in the map of its fields, so no field is read from a null.
pub record TxJson (D : Type 0) : Type 0 where
  pub contracts : Json D
  pub int64 : D → Option ℤ
  pub uint64 : D → Option ℕ
  pub timestamp : D → Option Timestamp
  pub marshal_tx : CrossTx → D

-- A document written from a CrossTx that has a contract holds each field under its name; a nil time stamp is
-- a null.
pub record IsTxJson {D : Type 0} (json : TxJson D) : Type 0 where
  pub contracts_lawful : IsJson json.contracts
  pub tx_object :
      (c : CrossTx) (k : IContract)
      → c.contract ≡ some k
      → (m : String → Option D) × (d1 d2 d3 d4 : D) × (json.contracts.object (json.marshal_tx c)
          ≡ some m)
        × ((m "PK" ≡ some d1) × (json.int64 d1 ≡ some c.pk))
        × ((m "CrossID" ≡ some d2) × (json.contracts.string d2 ≡ some c.cross_id))
        × ((m "TxID" ≡ some d3) × (json.contracts.string d3 ≡ some c.tx_id))
        × ((m "BlockNumber" ≡ some d4) × (json.uint64 d4 ≡ some c.block_number))
        × ((t : Timestamp)
            → c.time_stamp ≡ some t
            → (d : D) × (m "TimeStamp" ≡ some d) × (json.timestamp d ≡ some t))
        × (c.time_stamp ≡ none → m "TimeStamp" ≡ none)
        × (m "IContract" ≡ some (contracts_lawful.inner k))

-- A field after its Unmarshal, and whether that failed.
abbrev pub value_or {ℓ} : {A : Type ℓ} → Option A → A → A
value_or none a = a
value_or (some x) a = x

abbrev pub fault_of {ℓ} : {A : Type ℓ} → Option A → Option JsonError
fault_of none = some syntax
fault_of (some x) = none

-- The first of two errors.
abbrev pub first_fault : Option JsonError → Option JsonError → Option JsonError
first_fault none e = e
first_fault (some d) e = some d

module _ {D : Type 0} (json : TxJson D) where
  -- RebuildIContract in the list of calls: the contract is nil after an error.
  unfoldable pub rebuilt : D → Run JsonError (Contract × Option JsonError)
  rebuilt raw = elim (rebuild_icontract json.contracts raw) [
    | ok c ↦ ok (c, none)
    | err e ↦ ok (none, some e)
    | panic ↦ panic
  ]

  -- The calls behind the first one, each on `*objMap[key]`.
  unfoldable pub unmarshal_fields : (String → Option D) → Run JsonError (CrossTx × Option JsonError)
  unmarshal_fields m = do
    d1 ← or_else (m "PK") panic
    d2 ← or_else (m "CrossID") panic
    d3 ← or_else (m "TxID") panic
    d4 ← or_else (m "BlockNumber") panic
    d5 ← or_else (m "TimeStamp") panic
    d6 ← or_else (m "IContract") panic
    (c, fault) ← rebuilt d6
    ok (
      record {
        contract = c;
        pk = value_or (json.int64 d1) (pos 0);
        cross_id = value_or (json.contracts.string d2) "";
        tx_id = value_or (json.contracts.string d3) "";
        block_number = value_or (json.uint64 d4) 0;
        time_stamp = json.timestamp d5;
      },
      first_fault (fault_of (json.int64 d1)) (
          first_fault (fault_of (json.contracts.string d2)) (
            first_fault (fault_of (json.contracts.string d3)) (
              first_fault (fault_of (json.uint64 d4))
                (first_fault (fault_of (json.timestamp d5)) fault)))),
    )

  -- CrossTx.UnmarshalJSON on a zero value: the struct afterwards and the error. A text that is no
  -- object leaves objMap nil, which the next line follows.
  unfoldable pub unmarshal_tx : D → Run JsonError (CrossTx × Option JsonError)
  unmarshal_tx bytes = do m ← or_else (json.contracts.object bytes) panic; unmarshal_fields m

first_fault-none : (a b : Option JsonError) → first_fault a b ≡ none → (a ≡ none) × (b ≡ none)
first_fault-none none b h = (refl, h)
first_fault-none (some x) b h = absurd (cc)

fault_of-none : {A : Type 0} (o : Option A) → fault_of o ≡ none → (a : A) × (o ≡ some a)
fault_of-none none h = absurd (cc)
fault_of-none (some a) h = (a, refl)

module _ {D : Type 0} (json : TxJson D) where
  -- What is read without an error has a time stamp.
  pub unmarshal_tx-stamped :
      (d : D) (c : CrossTx)
      → unmarshal_tx json d ≡ ok (c, none)
      → (t : Timestamp) × (c.time_stamp ≡ some t)
  unfolding unmarshal_tx unmarshal_fields
  unmarshal_tx-stamped d c h = >>=-ok (or_else (json.contracts.object d) panic) _ h λ m e h0.
      >>=-ok (or_else (m "PK") panic) _ h0 λ d1 e1 h1.
        >>=-ok (or_else (m "CrossID") panic) _ h1 λ d2 e2 h2.
          >>=-ok (or_else (m "TxID") panic) _ h2 λ d3 e3 h3.
            >>=-ok (or_else (m "BlockNumber") panic) _ h3 λ d4 e4 h4.
              >>=-ok (or_else (m "TimeStamp") panic) _ h4 λ d5 e5 h5.
                >>=-ok (or_else (m "IContract") panic) _ h5 λ d6 e6 h6.
                  >>=-ok (rebuilt json d6) _ h6 λ r e7 h7.
                    let out = ok-injective h7 in
                    let f1 = first_fault-none (fault_of (json.int64 d1)) _ (ap (λ p. p.1) out) in
                    let f2 = first_fault-none (fault_of (json.contracts.string d2)) _ f1.1 in
                    let f3 = first_fault-none (fault_of (json.contracts.string d3)) _ f2.1 in
                    let f4 = first_fault-none (fault_of (json.uint64 d4)) _ f3.1 in
                    let f5 = first_fault-none (fault_of (json.timestamp d5)) r.1 f4.1 in
                    let (t, found) = fault_of-none (json.timestamp d5) f5.0 in
                    (t, sym (ap (λ p. (p.0).time_stamp) out) ∙ found)

module _ {D : Type 0} (json : TxJson D) (lawful : IsTxJson json) where
  -- What a CrossTx with a time stamp and a contract of a named status reads back as.
  pub unmarshal_tx-marshal_tx :
      (c : CrossTx) (k : IContract) (t : Timestamp)
      → c.contract ≡ some k
      → c.time_stamp ≡ some t
      → IsFlag (get_status k)
      → unmarshal_tx json (json.marshal_tx c) ≡ ok (record c { contract = some (reloaded k) }, none)
  unfolding unmarshal_tx unmarshal_fields rebuilt
  unmarshal_tx-marshal_tx c k t e g f =
      let (m, d1, d2, d3, d4, o, p1, p2, p3, p4, stamp, p5, p6) = lawful.tx_object c k e in
      let (d5, at, read) = stamp t g in
      let r = rebuild_icontract-inner json.contracts lawful.contracts_lawful k f in
      rw (
        o, unmarshal_tx, p1.0, p2.0, p3.0, p4.0, at, p6, r, p1.1, p2.1, p3.1, p4.1, read, g,
        unmarshal_fields, rebuilt,
      )

  -- A CrossTx with a contract and a nil time stamp cannot be read back: UnmarshalJSON panics on what it was
  -- written as.
  pub unmarshal_tx_panics :
      (c : CrossTx) (k : IContract)
      → c.contract ≡ some k
      → c.time_stamp ≡ none
      → unmarshal_tx json (json.marshal_tx c) ≡ panic
  unfolding unmarshal_tx unmarshal_fields
  unmarshal_tx_panics c k e g =
      let (m, d1, d2, d3, d4, o, p1, p2, p3, p4, stamp, p5, p6) = lawful.tx_object c k e in
      rw (o, p1.0, p2.0, p3.0, p4.0, p5 g) refl
