-- ===== src/Courier/Sync/Tests.antt =====
-- Runs of the block sync on a chain of one block.
use crosshub.Prelude.{
  ℕ, ◌≡◌, ◌↔◌, refl, true, Bytes, List, [], ◌∷◌, get_elem?, take, drop, ◌⊎◌, String, Option, some,
  pos, Run, ok, err, panic, if◌then◌else◌, ◌==◌, arith,
}
use Prim.Native.String.{◌++◌ as str_append}
use crosshub.Contract.Status.{init}
use crosshub.Contract.Defs.{precommit, IContract}
use crosshub.Contract.Json.{unmarshal}
use crosshub.Courier.Tx.{CrossTx}
use crosshub.Courier.Manager.{Executed, add_cross_txs}
use crosshub.Courier.Sample.{TxDoc, text, tx_json, tx_json-IsTxJson, list_node}
use crosshub.Courier.ManagerTests.{list_prque, counting, Manager, manager}
use crosshub.Courier.Sync.Filter.{
  ChaincodeEvent, Block, Protos, PrepareCrossTx, get_prepare_cross_txs, prepare_all,
  prepare_flagged, prepare_tx, parse_envelope_payload, get_channel_header, endorsed, get_tx_events,
  to_filtered_actions, filter_action, action_event, with_header, with_event, prepared, some_txs,
}
use crosshub.Courier.Sync.Blocks.{
  Source, BlockSync, is_supported, new_block_sync, sync_block, after_set, after_query, after_filter,
  timed, apply, tick, Reach, here, next,
}
use crosshub.Courier.Sync.Chosen.{Among, Found, get_prepare_cross_txs_iff}
use crosshub.Courier.Sync.Faults.{get_prepare_cross_txs-err}
use crosshub.Courier.Sync.Passed.{Passed, IsSent, IsIgnored, Reach-Passed}
use crosshub.Courier.Sync.Restart.{IsSource, restart_covered}
use crosshub.Courier.Sync.Parse.{
  nil, cons, cross_txs, added, process_pre_txs, process_pre_txs-Written, process_pre_txs_panics,
}
use crosshub.Courier.RelayTests.{three_args}

abbrev deal : IContract
deal =
    precommit
      (record { status = init; contract_id = "d"; receipt = ""; contract_core = three_args })

-- The first byte of an envelope is its header; the others are the action, whose event can be read when there
-- is one byte.
abbrev read_events : Bytes → Run String (ChaincodeEvent TxDoc)
read_events [] = err "no events"
read_events (b ∷ bs) = ok (record {
  chaincode_id = "mycc";
  event_name = "precommit";
  payload = tx_json.contracts.marshal (some deal);
})

abbrev plain : Protos TxDoc
plain = record {
  Envelope = Bytes;
  get_envelope = λ b. ok b;
  get_payload = λ b. ok (record { header = some (take 1 b); content = drop 1 b });
  get_transaction = λ b. ok (b ∷ []);
  get_chaincode_action_payload = λ b. ok (some b);
  get_proposal_response_payload = λ b. ok b;
  get_chaincode_action = λ b. ok b;
  get_chaincode_events = read_events;
  unmarshal_channel_header = λ b. ok (record {
    header_type = 3;
    tx_id = "t1";
    time_stamp = some (record { seconds = pos 100; nanos = pos 0 });
  });
  endorser_transaction = 3;
  valid = 0;
  transactions_filter = 2;
  itoa = λ n. "1";
}

abbrev block_of : List (Option Bytes) → Block
block_of envelopes = record {
  header = some 1;
  metadata = some ([] ∷ [] ∷ (0 ∷ 0 ∷ []) ∷ []);
  envelopes = some envelopes;
}

abbrev batch : PrepareCrossTx TxDoc
batch = record {
  block_number = 1;
  tx_id = "t1";
  time_stamp = some (record { seconds = pos 100; nanos = pos 0 });
  event_name = "precommit";
  payload = tx_json.contracts.marshal (some deal);
}

-- The second transaction has an event that cannot be read.
abbrev two_envelopes : List (Option Bytes)
two_envelopes = some (3 ∷ 1 ∷ []) ∷ some (3 ∷ []) ∷ []

two_envelopes_run :
    get_prepare_cross_txs plain (block_of two_envelopes) is_supported ≡ ok (batch ∷ [])
unfolding get_prepare_cross_txs prepare_all prepare_flagged prepare_tx parse_envelope_payload
    get_channel_header endorsed get_tx_events to_filtered_actions filter_action action_event
    with_header with_event prepared some_txs
two_envelopes_run = refl

get_prepare_cross_txs_iff_example :
    Among plain 1 is_supported (0 ∷ 0 ∷ []) batch (batch ∷ [])
    ↔ Found plain 1 is_supported (0 ∷ 0 ∷ []) 0 two_envelopes batch
get_prepare_cross_txs_iff_example =
    get_prepare_cross_txs_iff plain 1 is_supported (0 ∷ 0 ∷ []) (block_of two_envelopes)
      ([] ∷ [] ∷ (0 ∷ 0 ∷ []) ∷ []) two_envelopes (batch ∷ []) batch refl refl refl refl
      two_envelopes_run

abbrev unread : List (Option Bytes)
unread = some (3 ∷ []) ∷ []

unread_run :
    get_prepare_cross_txs plain (block_of unread) is_supported
    ≡ err (str_append "ignore block " "1")
unfolding get_prepare_cross_txs prepare_all prepare_flagged prepare_tx parse_envelope_payload
    get_channel_header endorsed get_tx_events to_filtered_actions filter_action action_event
    with_header with_event prepared some_txs
unread_run = refl

get_prepare_cross_txs-err_example :
    ((i : ℕ) × (ebytes : Option Bytes) × (get_elem? unread i ≡ some ebytes)
      × (parse_envelope_payload plain i ebytes ≡ err (str_append "ignore block " "1")))
    ⊎ (str_append "ignore block " "1" ≡ str_append "ignore block " "1")
unfolding parse_envelope_payload
get_prepare_cross_txs-err_example =
    get_prepare_cross_txs-err plain 1 is_supported (0 ∷ 0 ∷ []) refl (block_of unread)
      ([] ∷ [] ∷ (0 ∷ 0 ∷ []) ∷ []) unread (str_append "ignore block " "1") refl refl refl refl
      unread_run

abbrev chain : Source
chain = record {
  State = ℕ;
  get_number = λ n. n;
  set_number = λ n s. (n, ok tt);
  query_block =
      λ n s. (s, if n == 1 then ok (block_of two_envelopes) else err "Entry not found in index");
}

chain-IsSource : IsSource chain
chain-IsSource = record {
  set_ok = λ n s e. refl;
  set_err = λ n s x e. cc;
  query_keeps = λ n s. refl;
}

abbrev Sync : Type 0
Sync = BlockSync plain chain is_supported

abbrev started : Sync
started = new_block_sync plain chain is_supported 0

abbrev after_one : Sync
after_one = (sync_block plain chain is_supported started).0

abbrev after_two : Sync
after_two = (sync_block plain chain is_supported after_one).0

after_one_run : sync_block plain chain is_supported started ≡ (after_one, ok tt)
unfolding sync_block after_set after_query new_block_sync after_filter get_prepare_cross_txs
    prepare_all prepare_flagged prepare_tx parse_envelope_payload with_header get_channel_header
    endorsed with_event get_tx_events to_filtered_actions filter_action apply timed action_event
    prepared some_txs
after_one_run = refl

after_two_run : sync_block plain chain is_supported after_one ≡ (after_two, ok tt)
unfolding sync_block after_set after_query new_block_sync after_filter get_prepare_cross_txs
    prepare_all prepare_flagged prepare_tx parse_envelope_payload with_header get_channel_header
    endorsed with_event get_tx_events to_filtered_actions filter_action apply timed action_event
    prepared some_txs
after_two_run = refl

armed_one : started.armed ≡ true
unfolding new_block_sync
armed_one = refl

armed_two : after_one.armed ≡ true
unfolding sync_block after_set after_query new_block_sync after_filter get_prepare_cross_txs
    prepare_all prepare_flagged prepare_tx parse_envelope_payload with_header get_channel_header
    endorsed with_event get_tx_events to_filtered_actions filter_action apply timed action_event
    prepared some_txs
armed_two = refl

two_turns : Reach plain chain is_supported started 2 after_two
two_turns =
    next (next here (tick started after_one armed_one after_one_run))
      (tick after_one after_two armed_two after_two_run)

Reach-Passed_example : Passed plain chain is_supported 1 2 after_two
unfolding new_block_sync
Reach-Passed_example = Reach-Passed plain chain is_supported 0 2 after_two (omega arith) two_turns

first_start : started.block_num ≡ 1
unfolding new_block_sync
first_start = refl

second_start : (new_block_sync plain chain is_supported after_two.state).block_num ≡ 2
unfolding sync_block after_set after_query new_block_sync after_filter get_prepare_cross_txs
    prepare_all prepare_flagged prepare_tx parse_envelope_payload with_header get_channel_header
    endorsed with_event get_tx_events to_filtered_actions filter_action apply timed action_event
    prepared some_txs
second_start = refl

restart_covered_example :
    IsSent plain chain is_supported after_two.sent 1
    ⊎ IsIgnored plain chain is_supported after_two.ignored 1
restart_covered_example =
    restart_covered plain chain chain-IsSource is_supported 0 2 after_two 1
      (omega (arith, first_start, second_start)) two_turns
      (omega (arith, first_start, second_start)) (omega (arith, first_start, second_start))

abbrev idle : Manager
idle = manager [] []

process_pre_txs-Written_example :
    process_pre_txs tx_json list_node
      (list_prque CrossTx)
      (list_prque Executed)
      counting
      (batch ∷ [])
      idle
    ≡ added tx_json list_node (list_prque CrossTx) (list_prque Executed) counting [] (
        add_cross_txs tx_json list_node
          (list_prque CrossTx)
          (list_prque Executed)
          counting
          (cross_txs tx_json.contracts (batch ∷ []) (deal ∷ []))
          idle)
process_pre_txs-Written_example =
    process_pre_txs-Written tx_json list_node (list_prque CrossTx) (list_prque Executed) counting
      tx_json-IsTxJson.contracts_lawful (batch ∷ []) (deal ∷ []) idle
      (cons batch deal [] [] refl refl nil)

process_pre_txs_panics_example :
    process_pre_txs tx_json list_node
      (list_prque CrossTx)
      (list_prque Executed)
      counting
      (record batch { payload = text "x" } ∷ [])
      idle
    ≡ (idle, panic)
unfolding unmarshal crosshub.Courier.Sample.object_of
process_pre_txs_panics_example =
    process_pre_txs_panics tx_json list_node (list_prque CrossTx) (list_prque Executed) counting
      (record batch { payload = text "x" }) [] _ idle refl
