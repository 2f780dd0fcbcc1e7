-- ===== src/Courier/Advance.antt =====
-- What Save does to the row of a transaction that the database already has.
use crosshub.Prelude.{
  ◌≡◌, refl, sym, ◌∙◌, ap, subst, inl, inr, Bool, true, false, ◌&&◌, ◌||◌, Bool-cases, Option-cases,
  List, [], ◌∷◌, String, str_eq, eq_refl, Option, none, some, ok, Run-cases, arith,
}
use crosshub.Prelude.Action.{retag-ok}
use crosshub.Contract.Status.{IsFlag, completed}
use crosshub.Contract.Defs.{IContract, precommit, commit, get_status, is_finished, update_status}
use crosshub.Contract.Json.{JsonError, reloaded}
use crosshub.Courier.Tx.{CrossTx, zero_tx, TxJson, IsTxJson, unmarshal_tx, unmarshal_tx-stamped}
use crosshub.Courier.Store.{StoreError, storm, update_failed, Node, one_tx, save_known}
use crosshub.Courier.Laws.{Row, IsNode}
use crosshub.Courier.Step.{Row-marshal}

-- The contract of a transaction that was completed: what it reads back as.
unfoldable pub completed_contract : IContract → IContract
completed_contract k = reloaded (update_status completed k)

abbrev completed_of : Option IContract → Option IContract
completed_of none = none
completed_of (some k) = some (completed_contract k)

-- The transaction with a Completed contract, where `b` holds, and the same otherwise.
abbrev pub advance : Bool → CrossTx → CrossTx
advance true c = record c { contract = completed_of c.contract }
advance false c = c

abbrev pub is_finishing : Option IContract → Bool
is_finishing none = false
is_finishing (some k) = is_finished k

-- A transaction of that ID with a Finished contract is in the list.
abbrev pub finishes : String → List CrossTx → Bool
finishes j [] = false
finishes j (tx ∷ txs) = (str_eq tx.cross_id j && is_finishing tx.contract) || finishes j txs

completed_twice : (k : IContract) → completed_contract (completed_contract k) ≡ completed_contract k
unfolding completed_contract reloaded
completed_twice (precommit p) = refl
completed_twice (commit c) = refl

completed_of_twice : (o : Option IContract) → completed_of (completed_of o) ≡ completed_of o
completed_of_twice none = refl
completed_of_twice (some k) = ap some (completed_twice k)

pub advance_twice : (a b : Bool) (c : CrossTx) → advance b (advance a c) ≡ advance (a || b) c
advance_twice true true c =
    ap {B = CrossTx} (λ x. record c { contract = x }) (completed_of_twice c.contract)
advance_twice true false c = refl
advance_twice false b c = refl

update_status-IsFlag : (k : IContract) → IsFlag (get_status (update_status completed k))
update_status-IsFlag (precommit p) = refl
update_status-IsFlag (commit c) = refl

none-some {ℓ} : {A : Type ℓ} {x : A} → none ≡ some x → ⊥
none-some h = cc

zero_contract : (old : CrossTx) (k : IContract) → zero_tx ≡ old → old.contract ≡ some k → ⊥
zero_contract old k h e = none-some (ap (λ x. x.contract) h ∙ e)

with_contract :
    (c : CrossTx) {x y : Option IContract}
    → x ≡ y
    → ◌≡◌ {A = CrossTx} (record c { contract = x }) (record c { contract = y })
with_contract c e = ap {B = CrossTx} (λ x. record c { contract = x }) e

advance_nothing : (b : Bool) (c : CrossTx) → c.contract ≡ none → advance b c ≡ c
advance_nothing true c e = with_contract c (ap completed_of e ∙ sym e)
advance_nothing false c e = refl

advance_by :
    (b : Bool) (new_tx c : CrossTx) (n : IContract)
    → new_tx.contract ≡ some n
    → is_finished n ≡ b
    → advance (is_finishing new_tx.contract) c ≡ advance b c
advance_by b new_tx c n f t = ap (λ o. advance (is_finishing o) c) f ∙ ap (λ x. advance x c) t

module _ {D : Type 0} (json : TxJson D) (json_lawful : IsTxJson json) (node : Node D)
    (lawful : IsNode json node) where
  pub one_tx-found :
      (id : String) (s : node.Db) (c : CrossTx)
      → Row json node s id c
      → one_tx json node id s ≡ (s, ok (c, none))
  unfolding one_tx
  one_tx-found id s c r = rw (r.found, one_tx) (rw r.decoded refl)

  record Read (s : node.Db) (id : String) (c : CrossTx) : Type 0 where
    document : D
    found : node.find s id ≡ ok document
    fault : Option JsonError
    decoded : unmarshal_tx json document ≡ ok (c, fault)

  one_tx-Read :
      (id : String) (s s' : node.Db) (old : CrossTx) (fault : Option StoreError) (k : IContract)
      → one_tx json node id s ≡ (s', ok (old, fault))
      → old.contract ≡ some k
      → Read s id old
  unfolding one_tx
  one_tx-Read id s s' old fault k h e =
      Run-cases (node.find s id)
        (λ d f.
          Run-cases (unmarshal_tx json d)
            (λ x g. record {
              document = d;
              found = f;
              fault = x.1;
              decoded = g ∙ ap ok (ground arith);
            })
            (λ x g. absurd (zero_contract old k (ground arith) e)) (λ g. absurd (ground arith)))
        (λ x f. absurd (zero_contract old k (ground arith) e)) (λ f. absurd (ground arith))

  kept :
      {s s' : node.Db} (j : String) (c : CrossTx)
      → s ≡ s'
      → Row json node s j c
      → Row json node s' j c
  kept j c e r = subst (λ x. Row json node x j c) e r

  completed-Row :
      (s s' : node.Db) (j : String) (c : CrossTx) (k : IContract)
      → Row json node s j c
      → node.update (record c { contract = some (update_status completed k) }) s ≡ (s', ok tt)
      → Row json node s' j (record c { contract = some (completed_contract k) })
  unfolding completed_contract
  completed-Row s s' j c k r h =
      let now = lawful.update-find s s' j c (update_status completed k) r h in
      Row-marshal json json_lawful node lawful s' j c (update_status completed k)
        (update_status-IsFlag k) (unmarshal_tx-stamped json r.document c r.decoded)
        (now j ∙ ground (arith, eq_refl j))

  -- The row that Save found: it is completed by a Finished contract, and kept by any other.
  pub save_known-Row :
      (new_tx : CrossTx) (s s' : node.Db) (j : String) (c : CrossTx)
      → Row json node s j c
      → save_known json node new_tx c s ≡ (s', ok tt)
      → Row json node s' j (advance (is_finishing new_tx.contract) c)
  unfolding save_known
  save_known-Row new_tx s s' j c r h = elim (Option-cases c.contract) [
    | inl e ↦
        subst (Row json node s' j) (sym (advance_nothing (is_finishing new_tx.contract) c e))
          (kept j c (ground arith) r)
    | inr (k, e) ↦ elim (Option-cases new_tx.contract) [
      | inl f ↦ absurd (ground arith)
      | inr (n, f) ↦ elim (Bool-cases (is_finished n)) [
        | inl t ↦
            subst (Row json node s' j)
              (sym (advance_by true new_tx c n f t ∙ with_contract c (ap completed_of e)))
              (completed-Row s s' j c k r (
                retag-ok (λ x. update_failed (storm x))
                  (node.update (record c { contract = some (update_status completed k) }) s)
                  (ground arith)))
        | inr t ↦
            subst (Row json node s' j) (sym (advance_by false new_tx c n f t))
              (kept j c (ground arith) r)
      ]
    ]
  ]

  -- The rows of other IDs are kept.
  pub save_known_others :
      (new_tx old : CrossTx) (fault : Option StoreError) (s s1 s' : node.Db)
      → one_tx json node new_tx.cross_id s ≡ (s1, ok (old, fault))
      → save_known json node new_tx old s ≡ (s', ok tt)
      → (j : String) → str_eq new_tx.cross_id j ≡ false
      → node.find s' j ≡ node.find s j
  unfolding save_known
  save_known_others new_tx old fault s s1 s' read h j ne = elim (Option-cases old.contract) [
    | inl e ↦ ap (λ x. node.find x j) (ground arith)
    | inr (k, e) ↦ elim (Option-cases new_tx.contract) [
      | inl f ↦ absurd (ground arith)
      | inr (n, f) ↦ elim (Bool-cases (is_finished n)) [
        | inl t ↦
            let r = one_tx-Read new_tx.cross_id s s1 old fault k read e in
            lawful.update-others s s' new_tx.cross_id r.document old r.fault
              (update_status completed k) r.found r.decoded
              (retag-ok (λ x. update_failed (storm x))
                (node.update (record old { contract = some (update_status completed k) }) s)
                (ground arith))
              j ne
        | inr t ↦ ap (λ x. node.find x j) (ground arith)
      ]
    ]
  ]
