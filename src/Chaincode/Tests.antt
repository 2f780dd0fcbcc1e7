-- ===== src/Chaincode/Tests.antt =====
-- A stub over functions, and runs of the chaincode on it.
use crosshub.Prelude.{
  ℕ, ◌+◌, ◌%◌, ◌^◌, ◌<◌, ◌≡◌, refl, ap, sym, ◌≢◌, Bool, true, false, [], ◌∷◌, String, str_eq,
  eq_iff, Option, none, some, ok, err, if◌then◌else◌, arith,
}
use crosshub.Prelude.Action.{Action}
use crosshub.Contract.Status.{init, finished}
use crosshub.Contract.Defs.{PrecommitContract, precommit}
use crosshub.Contract.Json.{Json, unmarshal}
use crosshub.Contract.Sample.{
  Doc, null, outer, number, transferred, doc_json, doc_object, doc_string, doc_precommit,
}
use crosshub.Chaincode.Stub.{Stub, IsStub, ShimError, Strconv, IsStrconv, Codec, not_found, nothing}
use crosshub.Chaincode.Transfer.{do_invoke, invoke}
use crosshub.Chaincode.Commit.{regular_commit, commit_loaded, load_contract, settle, do_commit}
use crosshub.Chaincode.Conservation.{balance, do_invoke_conserves}
use crosshub.Chaincode.Replay.{Loaded, Settled, regular_commit_effect}

record Sim : Type 0 where
  committed : String → Option Doc
  written : String → Option Doc
  event : Option (String × Doc)

sim_put : String → Doc → Action Sim ShimError (Unit {0})
sim_put k d s = (record s { written = λ j. if str_eq k j then some d else s.written j }, ok tt)

sim_del : String → Action Sim ShimError (Unit {0})
sim_del k s = (record s { written = λ j. if str_eq k j then none else s.written j }, ok tt)

sim_event : String → Doc → Action Sim ShimError (Unit {0})
sim_event k d s = (record s { event = some (k, d) }, ok tt)

abbrev sim_stub : Stub Doc
sim_stub = record {
  State = Sim;
  tx_id = λ s. "tx1";
  get_creator = λ s. null;
  get_state = λ s k. ok (s.committed k);
  put_state = sim_put;
  del_state = sim_del;
  set_event = sim_event;
}

sim_stub-IsStub : IsStub sim_stub
unfolding sim_put sim_del sim_event
sim_stub-IsStub = record {
  committed = λ s. s.committed;
  written = λ s. s.written;
  event = λ s. s.event;
  get_state-ok = λ s k v h. cc;
  put_state-committed = λ s s' k d h j. ap (λ r. r.0.committed j) (sym h);
  put_state-written = λ s s' k d h j. ap (λ r. r.0.written j) (sym h);
  set_event-written = λ s s' k d h j. ap (λ r. r.0.written j) (sym h);
  set_event-event = λ s s' k d h. ap (λ r. r.0.event) (sym h);
}

doc_atoi : Doc → ℕ × Bool
doc_atoi (number n) = (n % 2 ^ 64, true)
doc_atoi _ = (0, false)

text_atoi : String → ℕ × Bool
text_atoi t = if str_eq t "10" then (10, true) else (0, false)

abbrev doc_conv : Strconv Doc
doc_conv = record {
  atoi = text_atoi;
  atoi_bytes = doc_atoi;
  itoa = number;
  transfer_message = transferred;
}

doc_atoi_range : (d : Doc) → (doc_atoi d).0 < 2 ^ 64
unfolding doc_atoi
doc_atoi_range (number n) = omega arith
doc_atoi_range _ = omega arith

doc_conv-IsStrconv : IsStrconv doc_conv
unfolding doc_atoi text_atoi
doc_conv-IsStrconv = record {
  atoi-itoa = λ n h. ground arith;
  atoi_range = λ t. ground arith;
  atoi_bytes_range = doc_atoi_range;
}

abbrev doc_codec : Codec Doc
doc_codec = record {
  index_any = λ d. some 0;
  from = λ n d. d;
  pem_decode = λ d. some d;
  common_name = λ d. some "admin";
  hash_core = λ c t. some "c1";
  split = λ t. t ∷ [];
}

abbrev pay_ten : PrecommitContract
pay_ten = record {
  status = init;
  contract_id = "c1";
  receipt = "";
  contract_core = record {
    address = "x";
    value = "1";
    description = "";
    owner = "a";
    to_call_func = "invoke";
    args = "a" ∷ "b" ∷ "10" ∷ [];
    creator = "admin";
  };
}

abbrev accounts : String → Option Doc
accounts k =
    if str_eq k "a"
    then some (number 90)
    else if str_eq k "b"
    then some (number 5)
    else if str_eq k "c1"
    then some (outer (precommit pay_ten))
    else none

start : Sim
start = record { committed = accounts; written = accounts; event = none }

-- The state that a transfer from "a" leaves, and the one that a commit of "c1" leaves.
after_transfer : String → Sim
unfolding start do_invoke sim_put sim_event doc_atoi text_atoi
after_transfer b = (do_invoke sim_stub doc_conv ("a" ∷ b ∷ "10" ∷ []) start).0

after_commit : Sim
unfolding start regular_commit
after_commit = (regular_commit sim_stub doc_conv doc_json doc_codec ("c1" ∷ "r1" ∷ []) start).0

transfer_run :
    do_invoke sim_stub doc_conv ("a" ∷ "b" ∷ "10" ∷ []) start ≡ (after_transfer "b", ok tt)
unfolding after_transfer
transfer_run = refl

self_run : do_invoke sim_stub doc_conv ("a" ∷ "a" ∷ "10" ∷ []) start ≡ (after_transfer "a", ok tt)
unfolding after_transfer
self_run = refl

commit_run :
    regular_commit sim_stub doc_conv doc_json doc_codec ("c1" ∷ "r1" ∷ []) start
    ≡ (after_commit, ok nothing)
unfolding after_commit load_contract unmarshal doc_object crosshub.Contract.Json.rebuild_icontract
    doc_string crosshub.Contract.Status.to_string commit_loaded doc_precommit
    crosshub.Contract.Status.unmarshal_text crosshub.Contract.Status.parse settle do_commit
    do_invoke text_atoi sim_put sim_event
commit_run = refl

do_invoke_conserves_example :
    ((balance doc_conv ((after_transfer "b").written "a")
          + balance doc_conv ((after_transfer "b").written "b"))
        % 2 ^ 64
      ≡ 95)
    × ((j : String) → j ≢ "a" → j ≢ "b" → (after_transfer "b").written j ≡ start.written j)
unfolding start doc_atoi sim_stub-IsStub
do_invoke_conserves_example =
    do_invoke_conserves sim_stub sim_stub-IsStub doc_conv doc_conv-IsStrconv start
      (after_transfer "b") "a" "b" "10" (ground (arith, eq_iff "a" "b")) transfer_run

-- The transaction that follows the commit.
next_block : Sim
unfolding after_commit
next_block = record {
  committed = after_commit.written;
  written = after_commit.written;
  event = none;
}

regular_commit_effect_example :
    (c : PrecommitContract) × (s1 : Sim) × Loaded sim_stub sim_stub-IsStub doc_conv doc_json
      doc_codec start "c1"
      (some (precommit c))
    × (c.status ≢ finished)
    × (do_commit sim_stub doc_conv doc_json doc_codec c start ≡ (s1, ok tt))
    × Settled sim_stub sim_stub-IsStub doc_conv doc_json doc_codec s1 after_commit "c1" "r1" c
regular_commit_effect_example =
    regular_commit_effect sim_stub sim_stub-IsStub doc_conv doc_json doc_codec start after_commit
      "c1" "r1" [] commit_run

missing_run : do_invoke sim_stub doc_conv ("a" ∷ "z" ∷ "10" ∷ []) start ≡ (start, err not_found)
unfolding do_invoke start
missing_run = refl

-- A transfer that fails is answered with success.
silent_run : invoke sim_stub doc_conv ("a" ∷ "z" ∷ "10" ∷ []) start ≡ (start, ok nothing)
unfolding invoke do_invoke start
silent_run = refl
