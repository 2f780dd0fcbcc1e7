-- ===== src/Courier/Sync/Parse.antt =====
-- syncer.go: processPreTxs, from the batches of the filter to the transaction manager.
use crosshub.Prelude.{
  ℕ, suc, ◌≡◌, refl, sym, ap, ◌∙◌, List, [], ◌∷◌, ◌++◌, append_assoc, map, length, take, replicate,
  length-append, append-nil, Option, none, some, pos, Run, ok, err, panic, arith,
}
use crosshub.Prelude.Action.{Action}
use crosshub.Contract.Status.{IsFlag}
use crosshub.Contract.Defs.{IContract, get_contract_id, get_status}
use crosshub.Contract.Json.{Json, IsJson, JsonError, unmarshal, reloaded, unmarshal-marshal}
use crosshub.Courier.Tx.{CrossTx, TxJson}
use crosshub.Courier.Store.{StoreError, Node}
use crosshub.Courier.Queue.{Prque}
use crosshub.Courier.Manager.{Executed, Clients, TxManager, add_cross_txs}
use crosshub.Courier.Sync.Filter.{PrepareCrossTx}

-- What is sent on errCh.
pub data SyncError : Type 0 where
  parse_error : JsonError → SyncError
  add_error : StoreError → SyncError

-- The literal of a CrossTx, with its contract.
abbrev pub cross_tx : {D : Type 0} → PrepareCrossTx D → IContract → CrossTx
cross_tx tx k = record {
  contract = some k;
  pk = pos 0;
  cross_id = get_contract_id k;
  tx_id = tx.tx_id;
  block_number = tx.block_number;
  time_stamp = tx.time_stamp;
}

-- The entries of crossTxs, all of which are there.
unfoldable pub all_some {ℓ} : {A : Type ℓ} → List (Option A) → Option (List A)
all_some [] = some []
all_some (none ∷ rest) = none
all_some (some a ∷ rest) = elim (all_some rest) [ none ↦ none | some xs ↦ some (a ∷ xs) ]

all_some-map {ℓ} : {A : Type ℓ} (xs : List A) → all_some (map some xs) ≡ some xs
unfolding all_some
all_some-map [] = refl
all_some-map (x ∷ xs) = ap (λ o. elim o [ none ↦ none | some l ↦ some (x ∷ l) ]) (all_some-map xs)

take-map-some {ℓ} : {A : Type ℓ} (xs : List A) → take (length xs) (map some xs) ≡ map some xs
take-map-some [] = refl
take-map-some (x ∷ xs) = ap (λ l. some x ∷ l) (take-map-some xs)

map-some-append {ℓ} :
    {A : Type ℓ} (xs : List A) (x : A) → map some xs ++ (some x ∷ []) ≡ map some (xs ++ (x ∷ []))
map-some-append [] x = refl
map-some-append (y ∷ xs) x = ap (λ l. some y ∷ l) (map-some-append xs x)

module _ {D : Type 0} (json : Json D) where
  -- The loop at the index `i`: `append(crossTxs[:i], crossTx)` cuts off the nil entries of make, and a
  -- contract that cannot be read ends the loop, with its error. GetContractID of a nil contract panics.
  unfoldable pub parse_turns :
      ℕ
      → List (Option CrossTx)
      → List (PrepareCrossTx D)
      → Run StoreError (List (Option CrossTx) × List SyncError)
  parse_turns i out [] = ok (out, [])
  parse_turns i out (tx ∷ rest) = elim (unmarshal json tx.payload) [
    | ok none ↦ panic
    | ok (some k) ↦ parse_turns (suc i) (take i out ++ (some (cross_tx tx k) ∷ [])) rest
    | err e ↦ ok (out, parse_error e ∷ [])
    | panic ↦ panic
  ]

  unfoldable pub parse_txs :
      List (PrepareCrossTx D) → Run StoreError (List (Option CrossTx) × List SyncError)
  parse_txs txs = parse_turns 0 (replicate (length txs) none) txs

  -- Each payload is the text of a contract, with one of the six statuses.
  pub data Written : List (PrepareCrossTx D) → List IContract → Type 0 where
    nil : Written [] []
    cons :
        (tx : PrepareCrossTx D) (k : IContract) (txs : List (PrepareCrossTx D))
        (ks : List IContract)
        → tx.payload ≡ json.marshal (some k)
        → IsFlag (get_status k)
        → Written txs ks
        → Written (tx ∷ txs) (k ∷ ks)

  -- The transactions with the contracts, one by one.
  unfoldable pub cross_txs : List (PrepareCrossTx D) → List IContract → List CrossTx
  cross_txs [] ks = []
  cross_txs (tx ∷ txs) [] = []
  cross_txs (tx ∷ txs) (k ∷ ks) = cross_tx tx (reloaded k) ∷ cross_txs txs ks

  module _ (lawful : IsJson json) where
    -- A turn on a payload that can be read.
    parse_turns-cons :
        (i : ℕ) (out : List (Option CrossTx)) (tx : PrepareCrossTx D)
        (rest : List (PrepareCrossTx D)) (k : IContract)
        → tx.payload ≡ json.marshal (some k)
        → IsFlag (get_status k)
        → parse_turns i out (tx ∷ rest)
          ≡ parse_turns (suc i) (take i out ++ (some (cross_tx tx (reloaded k)) ∷ [])) rest
    unfolding parse_turns
    parse_turns-cons i out tx rest k e f =
        let read : unmarshal json tx.payload ≡ ok (some (reloaded k)) =
          ap (unmarshal json) e ∙ unmarshal-marshal json lawful k f in
        ground (arith, read)

    parse_turns-Written :
        (txs : List (PrepareCrossTx D)) (ks : List IContract) (done : List CrossTx)
        → Written txs ks
        → parse_turns (length done) (map some done) txs
          ≡ ok (map some (done ++ cross_txs txs ks), [])
    unfolding parse_turns cross_txs
    parse_turns-Written [] [] done nil = ap (λ l. ok (map some l, [])) (sym (append-nil done))
    parse_turns-Written [] (k ∷ ks) done w = elim w [ ]
    parse_turns-Written (tx ∷ txs) [] done w = elim w [ ]
    parse_turns-Written (tx ∷ txs) (k ∷ ks) done (cons _ _ _ _ e f w) =
        let x = cross_tx tx (reloaded k) in
        parse_turns-cons (length done) (map some done) tx txs k e f
        ∙ ap (λ l. parse_turns (suc (length done)) (l ++ (some x ∷ [])) txs) (take-map-some done)
        ∙ ap (λ l. parse_turns (suc (length done)) l txs) (map-some-append done x)
        ∙ ap (λ n. parse_turns n (map some (done ++ (x ∷ []))) txs)
            (omega (arith, length-append done (x ∷ [])))
        ∙ parse_turns-Written txs ks (done ++ (x ∷ [])) w
        ∙ ap (λ l. ok (map some l, [])) (append_assoc done (x ∷ []) (cross_txs txs ks))

    parse_txs-Written :
        (txs : List (PrepareCrossTx D)) (ks : List IContract)
        → Written txs ks
        → parse_txs txs ≡ ok (map some (cross_txs txs ks), [])
    unfolding parse_txs parse_turns cross_txs
    parse_txs-Written [] [] nil = refl
    parse_txs-Written [] (k ∷ ks) w = elim w [ ]
    parse_txs-Written (tx ∷ txs) [] w = elim w [ ]
    parse_txs-Written (tx ∷ txs) (k ∷ ks) (cons _ _ _ _ e f w) =
        parse_turns-cons 0 (replicate (suc (length txs)) none) tx txs k e f
        ∙ parse_turns-Written txs ks (cross_tx tx (reloaded k) ∷ []) w

module _ {D : Type 0} (json : TxJson D) (node : Node D) (pq : Prque CrossTx) (eq : Prque Executed)
    (clients : Clients) where
  abbrev M : Type 0
  M = TxManager json node pq eq clients

  -- The errors of the loop and of AddCrossTxs.
  unfoldable pub added :
      List SyncError → M × Run StoreError (List CrossTx) → M × Run StoreError (List SyncError)
  added faults (t, ok txs) = (t, ok faults)
  added faults (t, err e) = (t, ok (faults ++ (add_error e ∷ [])))
  added faults (t, panic) = (t, panic)

  -- AddCrossTxs on what the loop leaves: it follows each entry, and panics on a nil one.
  unfoldable pub add_entries :
      Run StoreError (List (Option CrossTx) × List SyncError) → Action M StoreError (List SyncError)
  add_entries (ok (out, faults)) t = elim (all_some out) [
    | none ↦ (t, panic)
    | some txs ↦ added faults (add_cross_txs json node pq eq clients txs t)
  ]
  add_entries (err e) t = (t, err e)
  add_entries panic t = (t, panic)

  -- What processPreTxs does with a batch, and the errors that it sends on errCh.
  unfoldable pub process_pre_txs : List (PrepareCrossTx D) → Action M StoreError (List SyncError)
  process_pre_txs txs t = add_entries (parse_txs json.contracts txs) t

  -- A batch whose payloads are the texts of contracts is added as the transactions with these contracts,
  -- read back, in the order of the batch.
  pub process_pre_txs-Written :
      (lawful : IsJson json.contracts) (txs : List (PrepareCrossTx D)) (ks : List IContract) (t : M)
      → Written json.contracts txs ks
      → process_pre_txs txs t
        ≡ added [] (add_cross_txs json node pq eq clients (cross_txs json.contracts txs ks) t)
  unfolding process_pre_txs add_entries
  process_pre_txs-Written lawful txs ks t w =
      ap (λ r. add_entries r t) (parse_txs-Written json.contracts lawful txs ks w)
      ∙ ground (arith, all_some-map (cross_txs json.contracts txs ks))

  -- When the first contract of a batch cannot be read, processPreTxs panics: it adds as many nil
  -- transactions as the batch has entries.
  pub process_pre_txs_panics :
      (tx : PrepareCrossTx D) (rest : List (PrepareCrossTx D)) (e : JsonError) (t : M)
      → unmarshal json.contracts tx.payload ≡ err e
      → process_pre_txs (tx ∷ rest) t ≡ (t, panic)
  unfolding process_pre_txs parse_txs parse_turns add_entries all_some
  process_pre_txs_panics tx rest e t h = ground (arith, h)
