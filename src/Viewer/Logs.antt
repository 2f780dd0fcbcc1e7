-- ===== src/Viewer/Logs.antt =====
-- chainview.go: EventLog, from the logs of the contract to the stores and the events for the other hubs.
use crosshub.Prelude.{
  Bool, eq_bytes, ℕ, ℤ, pos, Bytes, List, [], ◌∷◌, Option, some, Run, ok, err, panic, if◌then◌else◌,
}
use crosshub.Prelude.Action.{Action, and_then}
use crosshub.Transaction.Crypto.{Hash, Crypto}
use crosshub.Transaction.Ctx.{CrossTransaction, new_cross_transaction, new_ctx_signer, sign_ctx}
use crosshub.Transaction.Rtx.{
  ReceptTransaction, new_recept_transaction, new_rtx_signer, sign_rtx, rtx_id_of,
}

-- What the viewer calls of IndexDB: Write and Deletes.
pub record CtxStore : Type 1 where
  pub Store : Type 0
  pub Error : Type 0
  pub write : CrossTransaction → Store → Store × Run Error (Unit {0})
  pub deletes : List Hash → Store → Store × Run Error (Unit {0})

pub record CrossMakerTx : Type 0 where
  pub tx_id : Hash
  pub value : ℤ
  pub dest_value : ℤ
  pub from : Bytes
  pub to : Bytes
  pub purpose : ℕ
  pub payload : Bytes

-- `from` and `to` are the texts of the addresses.
pub record CrossTakerTx : Type 0 where
  pub tx_id : Hash
  pub from : Bytes
  pub to : Bytes
  pub taker : Bytes
  pub purpose : ℕ
  pub payload : Bytes

pub record CrossMakerFinish : Type 0 where
  pub tx_id : Hash

-- types.Log
pub record Log : Type 0 where
  pub topics : List Hash
  pub content : Bytes
  pub tx_hash : Hash
  pub block_hash : Hash

-- The contract's ABI: the ids of three events, and what Unpack leaves in the arguments, also after an
-- error; and whether that leaves Value or DestValue of a CrossMakerTx nil.
pub record Abi : Type 0 where
  pub maker_tx : Hash
  pub taker_tx : Hash
  pub maker_finish : Hash
  pub unpack_maker_tx : Bytes → CrossMakerTx
  pub nil_amounts : Bytes → Bool
  pub unpack_taker_tx : Bytes → CrossTakerTx
  pub unpack_maker_finish : Bytes → CrossMakerFinish

-- What is sent on eventCh.
pub data Event : Type 0 where
  ctx_event : CrossTransaction → Event
  rtx_event : ReceptTransaction → Event

-- The cases of the switch.
pub data Topic : Type 0 where
  maker_topic taker_topic finish_topic other_topic : Topic

unfoldable pub topic_of : Abi → Hash → Topic
topic_of abi t =
    if eq_bytes t abi.maker_tx
    then maker_topic
    else if eq_bytes t abi.taker_tx
    then taker_topic
    else if eq_bytes t abi.maker_finish
    then finish_topic
    else other_topic

-- The chain ids of the signers that the viewer makes.
abbrev pub hub_chain : Option ℤ
hub_chain = some (pos 11)

module _ (abi : Abi) (crypto : Crypto) (sign_hash : Hash → Option Bytes) (db : CtxStore) where
  -- The fields of Viewer that EventLog changes; `events` is what was sent, the last one first.
  pub record Hub : Type 0 where
    pub local_store : db.Store
    pub remote_store : db.Store
    pub events : List Event

  -- An error of a store is logged only.
  abbrev pub logged : db.Store × Run db.Error (Unit {0}) → db.Store × Run db.Error (Unit {0})
  logged (s, ok u) = (s, ok tt)
  logged (s, err e) = (s, ok tt)
  logged (s, panic) = (s, panic)

  -- LocalStore.Write and the event. SignCtx gives nil with its error, and Write follows it.
  unfoldable pub stored_event :
      CrossTransaction → db.Store × Run db.Error (Unit {0}) → Action Hub db.Error (Unit {0})
  stored_event ctms (s, ok u) h =
      (record h { local_store = s; events = ctx_event ctms ∷ h.events }, ok tt)
  stored_event ctms (s, err e) h =
      (record h { local_store = s; events = ctx_event ctms ∷ h.events }, ok tt)
  stored_event ctms (s, panic) h = (record h { local_store = s }, panic)

  -- SignCtx of the transaction of the log, and what follows it.
  unfoldable pub sign_maker_tx : Log → Action Hub db.Error (Unit {0})
  sign_maker_tx event h =
      let args = abi.unpack_maker_tx event.content in
      let ctm =
        new_cross_transaction args.value args.dest_value args.from args.to 2 args.purpose args.tx_id
          event.tx_hash event.block_hash args.payload in
      elim (sign_ctx crypto ctm (new_ctx_signer hub_chain) sign_hash) [
        | ok ctms ↦ stored_event ctms (db.write ctms h.local_store) h
        | err e ↦ (h, panic)
        | panic ↦ (h, panic)
      ]

  -- The case MakerTx. The hashing in SignCtx panics on a nil number.
  unfoldable pub on_maker_tx : Log → Action Hub db.Error (Unit {0})
  on_maker_tx event h = if abi.nil_amounts event.content then (h, panic) else sign_maker_tx event h

  unfoldable pub deleted_event :
      ReceptTransaction → db.Store × Run db.Error (Unit {0}) → Action Hub db.Error (Unit {0})
  deleted_event rtms (s, ok u) h =
      (record h { remote_store = s; events = rtx_event rtms ∷ h.events }, ok tt)
  deleted_event rtms (s, err e) h =
      (record h { remote_store = s; events = rtx_event rtms ∷ h.events }, ok tt)
  deleted_event rtms (s, panic) h = (record h { remote_store = s }, panic)

  -- The case TakerTx.
  unfoldable pub on_taker_tx : Log → Action Hub db.Error (Unit {0})
  on_taker_tx event h =
      let args = abi.unpack_taker_tx event.content in
      let rtm =
        new_recept_transaction args.tx_id event.tx_hash args.from args.to args.taker 2 args.purpose
          args.payload in
      elim (sign_rtx crypto rtm (new_rtx_signer hub_chain) sign_hash) [
        | ok rtms ↦ deleted_event rtms (db.deletes (rtx_id_of rtms ∷ []) h.remote_store) h
        | err e ↦ (h, panic)
        | panic ↦ (h, panic)
      ]

  -- The case MakerFinish.
  unfoldable pub on_maker_finish : Log → Action Hub db.Error (Unit {0})
  on_maker_finish event h =
      let (s, r) =
        logged (db.deletes ((abi.unpack_maker_finish event.content).tx_id ∷ []) h.local_store) in
      (record h { local_store = s }, r)

  unfoldable pub on_topic : Topic → Log → Action Hub db.Error (Unit {0})
  on_topic maker_topic event h = on_maker_tx event h
  on_topic taker_topic event h = on_taker_tx event h
  on_topic finish_topic event h = on_maker_finish event h
  on_topic other_topic event h = (h, ok tt)

  -- A turn: `event.Topics[0]` panics where there is none.
  unfoldable pub one_log : Log → Action Hub db.Error (Unit {0})
  one_log event h = elim event.topics [
    | [] ↦ (h, panic)
    | t ∷ rest ↦ on_topic (topic_of abi t) event h
  ]

  -- EventLog
  unfoldable pub event_log : List Log → Action Hub db.Error (Unit {0})
  event_log [] h = (h, ok tt)
  event_log (event ∷ rest) h = and_then (one_log event h) (λ u. event_log rest)
