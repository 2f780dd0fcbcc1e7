-- ===== src/Courier/Marking.antt =====
-- What a round of ProcessCrossTxs does with the pending queue and the database.
use crosshub.Prelude.{
  ℕ, ◌≡◌, refl, sym, ap, ◌∙◌, subst, Bytes, List, map, get_elem?, String, Option, some, Run, ok,
  err, panic, Run-cases, arith,
}
use crosshub.Contract.Status
use crosshub.Contract.Defs.{PrecommitContract, precommit, update_status}
use crosshub.Contract.Json.{reloaded}
use crosshub.Transaction.Crypto.{Hash, Crypto}
use crosshub.Courier.Tx.{CrossTx, TxJson, IsTxJson}
use crosshub.Courier.Store.{StoreError, Node, updates}
use crosshub.Courier.Laws.{IsNode}
use crosshub.Courier.Step.{Settles, Rows, HasRow}
use crosshub.Courier.Loop.{AllSettle}
use crosshub.Courier.Receipts.{set_status, Relayed, relayed, elem-map_constant, updates-Looped}
use crosshub.Courier.Queue.{Prque, IsPrque, drain, drain-empties}
use crosshub.Courier.Relay.{Encoders, IsOutside, Relay, relay_all}
use crosshub.Courier.Accounted.{Accounted, relay_all-Accounted}
use crosshub.Courier.Manager.{
  Executed, Clients, outside_of, TxManager, mark_pending, mark_sent, process_cross_txs,
}

pub outside_of-IsOutside :
    (pq : Prque CrossTx) (clients : Clients) → IsPrque pq → IsOutside (outside_of pq clients)
outside_of-IsOutside pq clients lawful = record {
  Holds = lawful.Holds;
  push-Holds = λ q tx p. lawful.push-Holds q tx p;
  push_keeps = λ q tx p j h. lawful.push_keeps q tx p j h;
}

-- The status of the contract.
pub record IsPending (c : CrossTx) : Type 0 where
  pub contract : PrecommitContract
  pub is_contract : c.contract ≡ some (precommit contract)
  pub is_pending : contract.status ≡ Status.pending

set_status-Settles : Settles (set_status Status.pending) Relayed IsPending
unfolding set_status reloaded
set_status-Settles = record {
  settled = λ c c' rel e. elim rel [
    | relayed p ec ↦ (
      update_status Status.pending (precommit p),
      ground arith,
      refl,
      relayed (record p { status = Status.pending }) refl,
      record {
        contract = record p { status = Status.pending };
        is_contract = refl;
        is_pending = refl;
      },
    )
  ];
}

set_status-AllSettle :
    (ids : List String) → AllSettle Relayed IsPending (map (λ _. set_status Status.pending) ids)
set_status-AllSettle ids n u e =
    subst (λ v. Settles v Relayed IsPending)
      (elem-map_constant (set_status Status.pending) ids n u e) set_status-Settles

module _ {D : Type 0} (json : TxJson D) (json_lawful : IsTxJson json) (node : Node D)
    (lawful : IsNode json node) (pq : Prque CrossTx) (eq : Prque Executed) (clients : Clients)
    (enc : Encoders) (crypto : Crypto) (sign_hash : Hash → Option Bytes) where
  abbrev T : Type 0
  T = TxManager json node pq eq clients

  mark_pending-HasRow :
      (ids ids' : List String) (t t' : T) (n : ℕ) (id : String)
      → Rows json node Relayed t.db
      → mark_pending json node pq eq clients enc crypto sign_hash ids t ≡ (t', ok ids')
      → get_elem? ids' n ≡ some id
      → HasRow json node IsPending t'.db id
  unfolding mark_pending
  mark_pending-HasRow ids ids' t t' n id rows h at =
      Run-cases ((updates json node ids (map (λ _. set_status Status.pending) ids) t.db).1)
        (λ u e.
          let same : ids ≡ ids' = ground (arith, e) in
          let db : (updates json node ids (map (λ _. set_status Status.pending) ids) t.db).0
              ≡ t'.db =
            ground (arith, e) in
          let loop =
            updates-Looped json json_lawful node lawful Relayed IsPending ids
              (map (λ _. set_status Status.pending) ids) t.db t'.db (set_status-AllSettle ids) rows
              (λ i. (db i, e i)) in
          loop.settled_rows n id (ap (λ x. get_elem? x n) same ∙ at))
        (λ x e. absurd (ground (arith, e))) (λ e. absurd (ground (arith, e)))

  mark_sent-HasRow :
      (r : Run StoreError (List String)) (ids : List String) (t t' : T) (n : ℕ) (id : String)
      → Rows json node Relayed t.db
      → mark_sent json node pq eq clients enc crypto sign_hash r t ≡ (t', ok ids)
      → get_elem? ids n ≡ some id
      → HasRow json node IsPending t'.db id
  unfolding mark_sent
  mark_sent-HasRow (ok ids) ids' t t' n id rows h at =
      mark_pending-HasRow ids ids' t t' n id rows h at
  mark_sent-HasRow (err e) ids' t t' n id rows h at = absurd (cc)
  mark_sent-HasRow panic ids' t t' n id rows h at = absurd (cc)

  -- Where all rows hold precommit contracts, a round of ProcessCrossTxs that ends without a panic leaves
  -- each transaction on its success list Pending in the database.
  pub process_cross_txs-IsPending :
      (t t' : T) (ids : List String) (n : ℕ) (id : String)
      → Rows json node Relayed t.db
      → process_cross_txs json node pq eq clients enc crypto sign_hash t ≡ (t', ok ids)
      → get_elem? ids n ≡ some id
      → HasRow json node IsPending t'.db id
  unfolding process_cross_txs
  process_cross_txs-IsPending t t' ids n id rows h at =
      let loop =
        relay_all enc (outside_of pq clients) crypto sign_hash ((drain pq t.pending).0)
          (record { queue = (drain pq t.pending).1; client = t.out }) in
      mark_sent-HasRow (loop.1) ids (record t { pending = (loop.0).queue; out = (loop.0).client })
        t' n id rows h at

  mark_sent-ok :
      (r : Run StoreError (List String)) (ids : List String) (t t' : T)
      → mark_sent json node pq eq clients enc crypto sign_hash r t ≡ (t', ok ids)
      → (r ≡ ok ids) × (t'.pending ≡ t.pending)
  unfolding mark_sent mark_pending
  mark_sent-ok (ok xs) ids t t' h =
      Run-cases ((updates json node xs (map (λ _. set_status Status.pending) xs) t.db).1)
        (λ u e. (ground (arith, e), ground (arith, e))) (λ x e. absurd (ground (arith, e)))
        (λ e. absurd (ground (arith, e)))
  mark_sent-ok (err e) ids t t' h = absurd (cc)
  mark_sent-ok panic ids t t' h = absurd (cc)

  -- After a round of ProcessCrossTxs that ends without a panic, each transaction that was in the pending
  -- queue has no form on the other chain, is in the queue again, or is on the success list.
  pub process_cross_txs-Accounted :
      (p_lawful : IsPrque pq) (t t' : T) (ids : List String) (tx : CrossTx)
      → process_cross_txs json node pq eq clients enc crypto sign_hash t ≡ (t', ok ids)
      → p_lawful.Holds t.pending tx
      → Accounted enc
          (outside_of pq clients)
          (outside_of-IsOutside pq clients p_lawful)
          crypto
          sign_hash
          t'.pending
          ids
          tx
  unfolding process_cross_txs
  process_cross_txs-Accounted p_lawful t t' ids tx h held =
      let (n, at) = (drain-empties pq p_lawful t.pending tx held).1 in
      let start : Relay enc (outside_of pq clients) crypto sign_hash = record {
        queue = (drain pq t.pending).1;
        client = t.out;
      } in
      let loop =
        relay_all enc (outside_of pq clients) crypto sign_hash ((drain pq t.pending).0) start in
      let (e, q) =
        mark_sent-ok (loop.1) ids (record t { pending = (loop.0).queue; out = (loop.0).client }) t'
          h in
      subst
        (λ x.
          Accounted enc (outside_of pq clients) (outside_of-IsOutside pq clients p_lawful) crypto
            sign_hash x ids tx)
        (sym q)
        (relay_all-Accounted enc (outside_of pq clients) (outside_of-IsOutside pq clients p_lawful)
          crypto sign_hash ((drain pq t.pending).0) start (loop.0) ids (λ i. ((loop.0), e i)) n tx
          at)
