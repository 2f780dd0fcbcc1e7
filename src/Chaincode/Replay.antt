-- ===== src/Chaincode/Replay.antt =====
-- What a commit does to the ledger, and what it does when it is repeated.
use crosshub.Prelude.{
  ◌≡◌, refl, ap, ◌∙◌, ◌≢◌, List, ◌∷◌, String, str_eq, Option, none, some, ok, map_err-ok, subst,
  if◌then◌else◌, ◌==◌, Bool-cases, inl, inr, arith,
}
use crosshub.Prelude.Action.{lift, pure, and_then-ok, ◌>>◌}
use crosshub.Contract.Status.{finished}
use crosshub.Contract.Defs.{
  PrecommitContract, Contract, IContract, precommit, commit, update_receipt,
}
use crosshub.Contract.Json.{Json, unmarshal}
use crosshub.Chaincode.Stub.{
  Stub, IsStub, Strconv, Codec, bad_json, shim_error, Payload, nothing, put, emit, get,
}
use crosshub.Chaincode.Commit.{
  do_commit, settle, parsed, load_contract, commit_loaded, regular_commit,
}
use crosshub.Chaincode.Conservation.{put-ok, emit-ok}

module _ {D : Type 0} (stub : Stub D) (lawful : IsStub stub) (conv : Strconv D) (json : Json D)
    (codec : Codec D) where
  open stub use {State}
  open lawful use {committed, written}

  -- The contract that a commit leaves on the ledger.
  abbrev pub settled : String → PrecommitContract → IContract
  settled receipt c = precommit (update_receipt receipt (record c { status = finished }))

  -- What settle leaves, after the state `s1` that the contract's call reached.
  abbrev pub Settled : State → State → String → String → PrecommitContract → Type 0
  Settled s1 s' contract_id receipt c =
      ((j : String)
        → written s' j ≡ (
            if str_eq contract_id j
            then some (json.marshal (some (settled receipt c)))
            else written s1 j))
      × (lawful.event s'
          ≡ some (
            "commit",
            json.marshal (some (commit (record { status = finished; contract_id = contract_id }))),
          ))

  settle_effect :
      (s s' : State) (contract_id receipt : String) (c : PrecommitContract) (p : Payload D)
      → settle stub conv json codec contract_id receipt c s ≡ (s', ok p)
      → (s1 : State) × (do_commit stub conv json codec c s ≡ (s1, ok tt))
        × Settled s1 s' contract_id receipt c
  unfolding settle
  settle_effect s s' contract_id receipt c p h =
      let v = json.marshal (some (settled receipt c)) in
      let d =
        json.marshal (some (commit (record { status = finished; contract_id = contract_id }))) in
      and_then-ok (do_commit stub conv json codec c s)
        (λ _. put stub contract_id v >> (emit stub "commit" d >> pure nothing)) h
        λ s1 _ e1 k1.
          and_then-ok (put stub contract_id v s1) (λ _. emit stub "commit" d >> pure nothing) k1
            λ s2 _ e2 k2.
              and_then-ok (emit stub "commit" d s2) (λ _. pure nothing) k2
                λ s3 _ e3 k3.
                  let q1 = emit-ok stub lawful s2 s3 "commit" d e3 in
                  let q2 = put-ok stub lawful s1 s2 contract_id v e2 in
                  (
                    s1,
                    e1,
                    (
                      λ j. cc (
                        lawful.set_event-written s2 s3 "commit" d q1 j,
                        lawful.put_state-written s1 s2 contract_id v q2 j,
                      ),
                      cc (lawful.set_event-event s2 s3 "commit" d q1),
                    ),
                  )

  -- regularCommit found a contract under the id.
  abbrev pub Loaded : State → String → Contract → Type 0
  Loaded s contract_id c = (d : D) × (committed s contract_id ≡ some d) × (unmarshal json d ≡ ok c)

  parsed-ok :
      (o : Option D) (c : Contract)
      → parsed stub conv json codec o ≡ ok c
      → (d : D) × (o ≡ some d) × (unmarshal json d ≡ ok c)
  parsed-ok none c h = absurd (cc)
  parsed-ok (some d) c h = (d, refl, map_err-ok (λ _. bad_json) (unmarshal json d) h)

  load_contract-ok :
      (s s1 : State) (contract_id : String) (c : Contract)
      → load_contract stub conv json codec contract_id s ≡ (s1, ok c)
      → (s1 ≡ s) × Loaded s contract_id c
  unfolding load_contract
  load_contract-ok s s1 contract_id c h =
      and_then-ok (get stub contract_id s) (λ o. lift (parsed stub conv json codec o)) h
        λ s2 o e k.
          let got = map_err-ok shim_error (stub.get_state s contract_id) (ap (λ r. r.1) e) in
          let (d, is_some, parses) = parsed-ok o c (ap (λ r. r.1) k) in
          (
            cc (ap (λ r. r.0) k, ap (λ r. r.0) e),
            (d, lawful.get_state-ok s contract_id o got ∙ is_some, parses),
          )

  found_effect :
      (s s' : State) (contract_id receipt : String) (o : Contract)
      → Loaded s contract_id o
      → commit_loaded stub conv json codec contract_id receipt o s ≡ (s', ok nothing)
      → (c : PrecommitContract) × (s1 : State) × Loaded s contract_id (some (precommit c))
        × (c.status ≢ finished)
        × (do_commit stub conv json codec c s ≡ (s1, ok tt))
        × Settled s1 s' contract_id receipt c
  unfolding commit_loaded
  found_effect s s' contract_id receipt none found h = absurd (cc)
  found_effect s s' contract_id receipt (some (commit c)) found h = absurd (ground arith)
  found_effect s s' contract_id receipt (some (precommit c)) found h =
      elim (Bool-cases (c.status == finished)) [
        | inl e ↦ absurd (ground arith)
        | inr e ↦
            let (s1, called, left) =
              settle_effect s s' contract_id receipt c nothing (ground arith) in
            (c, s1, found, ground arith, called, left)
      ]

  -- A commit of contract `id` that succeeds with no payload finds a precommit contract that is not
  -- Finished, makes its call, and leaves under `id` that contract as Finished with the receipt; other
  -- keys are as the call left them, and the event is "commit" with a Finished commit contract.
  pub regular_commit_effect :
      (s s' : State) (contract_id receipt : String) (rest : List String)
      → regular_commit stub conv json codec (contract_id ∷ receipt ∷ rest) s ≡ (s', ok nothing)
      → (c : PrecommitContract) × (s1 : State) × Loaded s contract_id (some (precommit c))
        × (c.status ≢ finished)
        × (do_commit stub conv json codec c s ≡ (s1, ok tt))
        × Settled s1 s' contract_id receipt c
  unfolding regular_commit
  regular_commit_effect s s' contract_id receipt rest h =
      and_then-ok (load_contract stub conv json codec contract_id s)
        (commit_loaded stub conv json codec contract_id receipt) h
        λ s1 o e k.
          let (same, found) = load_contract-ok s s1 contract_id o e in
          found_effect s s' contract_id receipt o found (
            subst
              (λ x. commit_loaded stub conv json codec contract_id receipt o x ≡ (s', ok nothing))
              same k)
