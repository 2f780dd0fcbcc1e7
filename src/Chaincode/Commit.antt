-- ===== src/Chaincode/Commit.antt =====
-- contract.go: precommit and commit of cross-chain contracts.
use crosshub.Prelude.{
  List, [], ◌∷◌, String, str_eq, Option, none, some, Run, ok, err, panic, map_err, if◌then◌else◌,
  ◌==◌,
}
use crosshub.Prelude.Action.{Action, pure, fail, crash, lift, ◌>>=◌, ◌>>◌}
use crosshub.Contract.Status.{finished, out_once_completed}
use crosshub.Contract.Status
use crosshub.Contract.Defs.{
  ContractCore, PrecommitContract, Contract, IContract, precommit, commit, update_receipt,
}
use crosshub.Contract.Json.{Json, unmarshal}
use crosshub.Chaincode.Stub.{
  Stub, Strconv, Codec, CcError, undefined, unsupported_call, invalid_contract, not_precommit,
  bad_json, bad_id, Payload, nothing, replicate_call_commit, put, emit, get,
}
use crosshub.Chaincode.Transfer.{do_invoke}

module _ {D : Type 0} (stub : Stub D) (conv : Strconv D) (json : Json D) (codec : Codec D) where
  -- The error responses of creator are dropped: each of them is followed by a panic.
  unfoldable pub creator : Action stub.State CcError String
  creator s = elim (codec.index_any (stub.get_creator s)) [
    | none ↦ (s, panic)
    | some start ↦ elim (codec.pem_decode (codec.from start (stub.get_creator s))) [
      | none ↦ (s, panic)
      | some block ↦ elim (codec.common_name block) [ none ↦ (s, panic) | some name ↦ (s, ok name) ]
    ]
  ]

  -- genContractID
  abbrev pub gen_contract_id : ContractCore → Action stub.State CcError String
  gen_contract_id core s =
      (s, elim (codec.hash_core core (stub.tx_id s)) [ none ↦ err bad_id | some id ↦ ok id ])

  -- precommit from the parts of its arguments; `owner` is the first call argument.
  unfoldable pub precommit_call :
      String → String → String → String → List String → Action stub.State CcError (Payload D)
  precommit_call address amount description to_call [] = crash
  precommit_call address amount description to_call (owner ∷ rest) = do
    name ← creator
    let core : ContractCore = record {
      address = address;
      value = amount;
      description = description;
      owner = owner;
      to_call_func = to_call;
      args = owner ∷ rest;
      creator = name;
    }
    id ← gen_contract_id core
    let raw : D = json.marshal (
        some (
          precommit (record {
            status = Status.init;
            contract_id = id;
            receipt = "";
            contract_core = core;
          })))
    put stub id raw
    emit stub "precommit" raw
    pure nothing

  -- Fewer than five arguments are an index out of range.
  unfoldable pub precommit_tx : List String → Action stub.State CcError (Payload D)
  unfolding precommit_call
  precommit_tx (address ∷ amount ∷ description ∷ to_call ∷ call ∷ _) =
      precommit_call address amount description to_call (codec.split call)
  precommit_tx _ = crash

  unfoldable pub do_commit : PrecommitContract → Action stub.State CcError (Unit {0})
  do_commit c =
      if str_eq c.contract_core.to_call_func "invoke"
      then do_invoke stub conv c.contract_core.args
      else fail undefined

  -- The part of regularCommit behind its checks: the call, the new contract and the event.
  unfoldable pub settle :
      String → String → PrecommitContract → Action stub.State CcError (Payload D)
  settle contract_id receipt c = do
    do_commit c
    put stub contract_id
        (json.marshal (some (precommit (update_receipt receipt (record c { status = finished })))))
    emit stub "commit"
        (json.marshal (some (commit (record { status = finished; contract_id = contract_id }))))
    pure nothing

  -- regularCommit on a contract that was read; nil is the embedded interface, whose method panics.
  unfoldable pub commit_loaded :
      String → String → Option IContract → Action stub.State CcError (Payload D)
  commit_loaded contract_id receipt none = crash
  commit_loaded contract_id receipt (some (precommit c)) =
      if c.status == finished then pure replicate_call_commit else settle contract_id receipt c
  commit_loaded contract_id receipt (some (commit c)) =
      if c.status == finished then pure replicate_call_commit else fail not_precommit

  -- GetState and json.Unmarshal at the head of regularCommit, with their early returns.
  abbrev pub parsed : Option D → Run CcError Contract
  parsed none = err invalid_contract
  parsed (some d) = map_err (λ _. bad_json) (unmarshal json d)

  unfoldable pub load_contract : String → Action stub.State CcError Contract
  load_contract contract_id = do found ← get stub contract_id; lift (parsed found)

  unfoldable pub regular_commit : List String → Action stub.State CcError (Payload D)
  regular_commit (contract_id ∷ receipt ∷ _) = do
    contract ← load_contract contract_id
    commit_loaded contract_id receipt contract
  regular_commit _ = crash

  -- outchainCommit, on the arguments behind "outchain".
  unfoldable pub outchain_commit : List String → Action stub.State CcError (Unit {0})
  outchain_commit (contract_id ∷ call ∷ rest) =
      if str_eq call "invoke"
      then (do
        do_invoke stub conv rest
        emit stub "commit" (
            json.marshal
              (some (commit (record { status = out_once_completed; contract_id = contract_id })))))
      else fail unsupported_call
  outchain_commit _ = crash

  unfoldable pub commit_tx : List String → Action stub.State CcError (Payload D)
  commit_tx [] = crash
  commit_tx (a ∷ args) =
      if str_eq a "outchain"
      then (do outchain_commit args; pure nothing)
      else regular_commit (a ∷ args)
