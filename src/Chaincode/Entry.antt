-- ===== src/Chaincode/Entry.antt =====
-- chaincode_example02.go: Invoke, by the name of the function.
use crosshub.Prelude.{List, String, str_eq, if◌then◌else◌}
use crosshub.Prelude.Action.{Action, fail}
use crosshub.Contract.Json.{Json}
use crosshub.Chaincode.Stub.{Stub, Strconv, Codec, CcError, invalid_function, Payload}
use crosshub.Chaincode.Transfer.{invoke, delete, query}
use crosshub.Chaincode.Commit.{precommit_tx, commit_tx}

module _ {D : Type 0} (stub : Stub D) (conv : Strconv D) (json : Json D) (codec : Codec D) where
  unfoldable pub invoke_tx : String → List String → Action stub.State CcError (Payload D)
  invoke_tx function args =
      if str_eq function "invoke"
      then invoke stub conv args
      else if str_eq function "delete"
      then delete stub conv args
      else if str_eq function "query"
      then query stub conv args
      else if str_eq function "precommit"
      then precommit_tx stub conv json codec args
      else if str_eq function "commit"
      then commit_tx stub conv json codec args
      else fail invalid_function
