-- ===== src/Chaincode/Stub.antt =====
-- What the chaincode calls of its libraries. Ledger values and event payloads are of a type `D`; a Go
-- conversion between string and []byte keeps the bytes.
use crosshub.Prelude.{
  ℕ, ◌+◌, ◌-◌, ◌%◌, ◌^◌, ◌<◌, ◌≡◌, Bool, true, List, String, str_eq, Option, some, Run, ok, map_err,
  if◌then◌else◌,
}
use crosshub.Prelude.Action.{Action, retag}
use crosshub.Contract.Defs.{ContractCore}

-- An error of the shim, opaque to the code.
pub data ShimError : Type 0 where
  refused : ShimError

-- shim.ChaincodeStubInterface, for one transaction.
pub record Stub (D : Type 0) : Type 1 where
  pub State : Type 0
  pub tx_id : State → String
  pub get_creator : State → D
  pub get_state : State → String → Run ShimError (Option D)
  pub put_state : String → D → Action State ShimError (Unit {0})
  pub del_state : String → Action State ShimError (Unit {0})
  pub set_event : String → D → Action State ShimError (Unit {0})

-- What Fabric documents: GetState reads the committed ledger and none of the transaction's own writes;
-- the last write of a key counts; a transaction has one event, the last one set; a call that fails
-- changes nothing. `written` is the ledger after the transaction is committed.
pub record IsStub {D : Type 0} (stub : Stub D) : Type 0 where
  pub committed : stub.State → String → Option D
  pub written : stub.State → String → Option D
  pub event : stub.State → Option (String × D)
  pub get_state-ok :
      (s : stub.State) (k : String) (v : Option D) → stub.get_state s k ≡ ok v → committed s k ≡ v
  pub put_state-committed :
      (s s' : stub.State) (k : String) (d : D)
      → stub.put_state k d s ≡ (s', ok tt)
      → (j : String) → committed s' j ≡ committed s j
  pub put_state-written :
      (s s' : stub.State) (k : String) (d : D)
      → stub.put_state k d s ≡ (s', ok tt)
      → (j : String) → written s' j ≡ (if str_eq k j then some d else written s j)
  pub set_event-written :
      (s s' : stub.State) (k : String) (d : D)
      → stub.set_event k d s ≡ (s', ok tt)
      → (j : String) → written s' j ≡ written s j
  pub set_event-event :
      (s s' : stub.State) (k : String) (d : D)
      → stub.set_event k d s ≡ (s', ok tt)
      → event s' ≡ some (k, d)

-- strconv and fmt on a 64-bit int, which is its bit pattern. The Boolean is false where Atoi fails; the
-- number is what it returns all the same.
pub record Strconv (D : Type 0) : Type 0 where
  pub atoi : String → ℕ × Bool
  pub atoi_bytes : D → ℕ × Bool
  pub itoa : ℕ → D
  pub transfer_message : String → String → ℕ → D

pub record IsStrconv {D : Type 0} (conv : Strconv D) : Type 0 where
  pub atoi-itoa : (n : ℕ) → n < 2 ^ 64 → conv.atoi_bytes (conv.itoa n) ≡ (n, true)
  pub atoi_range : (t : String) → (conv.atoi t).0 < 2 ^ 64
  pub atoi_bytes_range : (d : D) → (conv.atoi_bytes d).0 < 2 ^ 64

-- bytes, encoding/pem, crypto/x509, crypto/sha256 and strings.Split as the contracts use them.
pub record Codec (D : Type 0) : Type 0 where
  pub index_any : D → Option ℕ
  pub from : ℕ → D → D
  pub pem_decode : D → Option D
  pub common_name : D → Option String
  pub hash_core : ContractCore → String → Option String
  pub split : String → List String

pub data CcError : Type 0 where
  arguments not_found bad_amount bad_number undefined unsupported_call invalid_function : CcError
  invalid_contract not_precommit bad_json bad_id : CcError
  shim_error : ShimError → CcError

-- The payload of a success response.
pub data Payload (D : Type 0) : Type 0 where
  nothing replicate_call_commit : Payload D
  value : D → Payload D

abbrev pub sub64 : ℕ → ℕ → ℕ
sub64 a b = (a + 2 ^ 64 - b) % 2 ^ 64

abbrev pub add64 : ℕ → ℕ → ℕ
add64 a b = (a + b) % 2 ^ 64

module _ {D : Type 0} (stub : Stub D) where
  -- A call of the shim inside a method, whose errors are the method's.
  abbrev pub put : String → D → Action stub.State CcError (Unit {0})
  put k d s = retag shim_error (stub.put_state k d s)

  abbrev pub del : String → Action stub.State CcError (Unit {0})
  del k s = retag shim_error (stub.del_state k s)

  abbrev pub emit : String → D → Action stub.State CcError (Unit {0})
  emit k d s = retag shim_error (stub.set_event k d s)

  abbrev pub get : String → Action stub.State CcError (Option D)
  get k s = (s, map_err shim_error (stub.get_state s k))
