-- ===== src/Chaincode/Transfer.antt =====
-- chaincode_example02.go: Init, doInvoke, invoke, delete and query. A success response is `ok`, an error
-- response `err`; the message of an error response is one constructor.
use crosshub.Prelude.{ℕ, Bool, List, [], ◌∷◌, String, none, some, ok, err, panic, if◌then◌else◌}
use crosshub.Prelude.Action.{Action, pure, fail, ◌>>=◌, ◌>>◌}
use crosshub.Chaincode.Stub.{
  Stub, Strconv, CcError, arguments, not_found, bad_amount, bad_number, Payload, nothing, value,
  sub64, add64, put, del, emit, get,
}

module _ {D : Type 0} (stub : Stub D) (conv : Strconv D) where
  -- GetState with the check for nil that follows it.
  abbrev pub get_entity : String → Action stub.State CcError D
  get_entity k = get stub k >>= λ o. elim o [ none ↦ fail not_found | some d ↦ pure d ]

  -- A result of Atoi whose error is checked.
  abbrev pub checked : ℕ × Bool → CcError → Action stub.State CcError ℕ
  checked (n, good) e = if good then pure n else fail e

  -- The Atoi errors of the two balances are dropped.
  unfoldable pub do_invoke : List String → Action stub.State CcError (Unit {0})
  do_invoke (a ∷ b ∷ amount ∷ []) = do
    a_bytes ← get_entity a
    b_bytes ← get_entity b
    x ← checked (conv.atoi amount) bad_amount
    put stub a (conv.itoa (sub64 (conv.atoi_bytes a_bytes).0 x))
    put stub b (conv.itoa (add64 (conv.atoi_bytes b_bytes).0 x))
    emit stub "evtTransfer" (conv.transfer_message a b x)
  do_invoke _ = fail arguments

  -- The error response that invoke makes is dropped: it returns success.
  unfoldable pub invoke : List String → Action stub.State CcError (Payload D)
  invoke args s =
      let (s', r) = do_invoke args s in
      (s', elim r [ ok _ ↦ ok nothing | err _ ↦ ok nothing | panic ↦ panic ])

  -- Init on the arguments that follow the function's name.
  unfoldable pub init : List String → Action stub.State CcError (Payload D)
  init (a ∷ a_text ∷ b ∷ b_text ∷ []) = do
    a_val ← checked (conv.atoi a_text) bad_number
    b_val ← checked (conv.atoi b_text) bad_number
    put stub a (conv.itoa a_val)
    put stub b (conv.itoa b_val)
    pure nothing
  init _ = fail arguments

  unfoldable pub delete : List String → Action stub.State CcError (Payload D)
  delete (a ∷ []) = do del stub a; pure nothing
  delete _ = fail arguments

  unfoldable pub query : List String → Action stub.State CcError (Payload D)
  query (a ∷ []) = do d ← get_entity a; pure (value d)
  query _ = fail arguments
