-- ===== src/Courier/Sync/Filter.antt =====
-- filter.go: from a block to the events that the courier relays. An error is its text, and the messages of
-- Fabric are a parameter.
use Prim.Native.String.{◌++◌ as str_append}
use text.Mathlib.Text.{find?}
use crosshub.Prelude.{
  ℕ, suc, Bool, true, false, Bytes, List, [], ◌∷◌, get_elem?, String, str_eq, Option, none, some,
  Run, ok, err, panic, ◌>>=◌, map_err, or_else, if◌then◌else◌, ◌==◌,
}
use crosshub.Courier.Tx.{Timestamp}

-- strings.Contains
abbrev pub contains : String → String → Bool
contains s t = elim (find? s t) [ none ↦ false | some i ↦ true ]

-- `fmt.Errorf("...: %w", err)`
abbrev pub wrap : {A : Type 0} → String → Run String A → Run String A
wrap message = map_err (str_append message)

-- The messages, with the fields that are read; a pointer may be nil. An event's payload is a document.
pub record ChaincodeEvent (D : Type 0) : Type 0 where
  pub chaincode_id : String
  pub event_name : String
  pub payload : D

pub record ChannelHeader : Type 0 where
  pub header_type : ℕ
  pub tx_id : String
  pub time_stamp : Option Timestamp

-- The field ChannelHeader of the payload's header, and the field Data.
pub record Payload : Type 0 where
  pub header : Option Bytes
  pub content : Bytes

-- The number of the header, the metadata and the field Data of the data.
pub record Block : Type 0 where
  pub header : Option ℕ
  pub metadata : Option (List Bytes)
  pub envelopes : Option (List (Option Bytes))

-- The readers of utils/common.go: a transaction is the payloads of its actions, an action payload its
-- ProposalResponsePayload, that one its extension, and a chaincode action its events.
pub record Protos (D : Type 0) : Type 1 where
  pub Envelope : Type 0
  pub get_envelope : Bytes → Run String Envelope
  pub get_payload : Envelope → Run String Payload
  pub get_transaction : Bytes → Run String (List Bytes)
  pub get_chaincode_action_payload : Bytes → Run String (Option Bytes)
  pub get_proposal_response_payload : Bytes → Run String Bytes
  pub get_chaincode_action : Bytes → Run String Bytes
  pub get_chaincode_events : Bytes → Run String (ChaincodeEvent D)
  pub unmarshal_channel_header : Bytes → Run String ChannelHeader
  pub endorser_transaction : ℕ
  pub valid : ℕ
  pub transactions_filter : ℕ
  pub itoa : ℕ → String

pub record PrepareCrossTx (D : Type 0) : Type 0 where
  pub block_number : ℕ
  pub tx_id : String
  pub time_stamp : Option Timestamp
  pub event_name : String
  pub payload : D

abbrev pub cons_some {ℓ} : {A : Type ℓ} → Option A → List A → List A
cons_some none xs = xs
cons_some (some x) xs = x ∷ xs

module _ {D : Type 0} (protos : Protos D) where
  -- An action payload whose action is not nil.
  unfoldable pub action_event : Bytes → Run String (Option (ChaincodeEvent D))
  action_event response = do
    extension ←
        wrap "error unmarshal proposal response payload for block event: "
          (protos.get_proposal_response_payload response)
    events ←
        wrap "error unmarshal chaincode action for block event: "
          (protos.get_chaincode_action extension)
    event ←
        wrap "error unmarshal chaincode event for block event: "
          (protos.get_chaincode_events events)
    ok (if str_eq event.chaincode_id "" then none else some event)

  -- One turn of toFilteredActions.
  unfoldable pub filter_action : Bytes → Run String (Option (ChaincodeEvent D))
  filter_action payload = do
    action ←
        wrap "error unmarshal transaction action payload for block event: "
          (protos.get_chaincode_action_payload payload)
    elim action [ none ↦ ok none | some response ↦ action_event response ]

  unfoldable pub to_filtered_actions : List Bytes → Run String (List (ChaincodeEvent D))
  to_filtered_actions [] = ok []
  to_filtered_actions (payload ∷ rest) = do
    event ← filter_action payload
    events ← to_filtered_actions rest
    ok (cons_some event events)

  -- The name and the payload of the first event.
  unfoldable pub get_tx_events : Bytes → Run String (String × D)
  get_tx_events payload = do
    actions ←
        wrap "error unmarshal transaction payload for block event: "
          (protos.get_transaction payload)
    events ← to_filtered_actions actions
    elim events [
      | [] ↦ err "no chaincode event"
      | event ∷ rest ↦ ok (event.event_name, event.payload)
    ]

  unfoldable pub endorsed : ChannelHeader → Run String ChannelHeader
  endorsed chdr =
      if chdr.header_type == protos.endorser_transaction
      then ok chdr
      else err "not HeaderType_ENDORSER_TRANSACTION"

  unfoldable pub get_channel_header : Bytes → Run String ChannelHeader
  get_channel_header header = do chdr ← protos.unmarshal_channel_header header; endorsed chdr

  -- ParseEnvelopePayload
  unfoldable pub parse_envelope_payload : ℕ → Option Bytes → Run String (Bytes × Bytes)
  parse_envelope_payload i ebytes = do
    bytes ← or_else ebytes (err (str_append "got nil data bytes for tx " (protos.itoa i)))
    env ← wrap "error getting tx from block: " (protos.get_envelope bytes)
    payload ← wrap "could not extract payload from envelope: " (protos.get_payload env)
    header ← or_else payload.header (err "transaction payload header is nil")
    ok (header, payload.content)

  -- The literal of the entry: `chdr` is followed here, and is nil after an error of getChannelHeader that
  -- is not about the header's type.
  unfoldable pub prepared :
      ℕ → Option ChannelHeader → String × D → Run String (Option (PrepareCrossTx D))
  prepared number none event = panic
  prepared number (some chdr) event = ok (
      some (record {
        block_number = number;
        tx_id = chdr.tx_id;
        time_stamp = chdr.time_stamp;
        event_name = event.0;
        payload = event.1;
      }))

  -- The event, and then the filter; the error of getTxEvents is looked at behind the filter.
  unfoldable pub with_event :
      ℕ
      → (String → Bool)
      → Option ChannelHeader
      → Run String (String × D)
      → Run String (Option (PrepareCrossTx D))
  with_event number accept chdr (ok event) =
      if accept event.0 then prepared number chdr event else ok none
  with_event number accept chdr (err e) =
      if contains e "no chaincode event" then ok none else if accept "" then err e else ok none
  with_event number accept chdr panic = panic

  unfoldable pub with_header :
      ℕ
      → (String → Bool)
      → Bytes
      → Run String ChannelHeader
      → Run String (Option (PrepareCrossTx D))
  with_header number accept payload (ok chdr) =
      with_event number accept (some chdr) (get_tx_events payload)
  with_header number accept payload (err e) =
      if contains e "HeaderType_ENDORSER_TRANSACTION"
      then ok none
      else with_event number accept none (get_tx_events payload)
  with_header number accept payload panic = panic

  unfoldable pub prepare_tx :
      ℕ → (String → Bool) → ℕ → Option Bytes → Run String (Option (PrepareCrossTx D))
  prepare_tx number accept i ebytes = do
    (header, payload) ← parse_envelope_payload i ebytes
    with_header number accept payload (get_channel_header header)

  -- One turn of the loop: txsFltr.Flag panics out of range.
  unfoldable pub prepare_flagged :
      ℕ → (String → Bool) → Bytes → ℕ → Option Bytes → Run String (Option (PrepareCrossTx D))
  prepare_flagged number accept flags i ebytes = do
    flag ← or_else (get_elem? flags i) panic
    if flag == protos.valid then prepare_tx number accept i ebytes else ok none

  unfoldable pub prepare_all :
      ℕ → (String → Bool) → Bytes → ℕ → List (Option Bytes) → Run String (List (PrepareCrossTx D))
  prepare_all number accept flags i [] = ok []
  prepare_all number accept flags i (ebytes ∷ rest) = do
    tx ← prepare_flagged number accept flags i ebytes
    txs ← prepare_all number accept flags (suc i) rest
    ok (cons_some tx txs)

  -- The end of GetPrepareCrossTxs.
  unfoldable pub some_txs : ℕ → List (PrepareCrossTx D) → Run String (List (PrepareCrossTx D))
  some_txs number [] = err (str_append "ignore block " (protos.itoa number))
  some_txs number (tx ∷ txs) = ok (tx ∷ txs)

  unfoldable pub get_prepare_cross_txs :
      Block → (String → Bool) → Run String (List (PrepareCrossTx D))
  get_prepare_cross_txs block accept = do
    metadata ← or_else block.metadata panic
    flags ← or_else (get_elem? metadata protos.transactions_filter) panic
    number ← or_else block.header panic
    envelopes ← or_else block.envelopes panic
    txs ← prepare_all number accept flags 0 envelopes
    some_txs number txs
