-- ===== src/Viewer/Messages.antt =====
-- chainview.go: the messages of other hubs in loop, and createTransaction.
use crosshub.Prelude.{
  String, eq_bytes, ℕ, Bool, false, ◌||◌, Bytes, List, [], ◌∷◌, replicate, ℤ, pos, Option, none,
  some, Run, ok, err, panic, if◌then◌else◌,
}
use crosshub.Prelude.Action.{Action}
use crosshub.Transaction.Crypto.{Hash, Address, Crypto, SignError}
use crosshub.Transaction.Ctx.{CrossTransaction, new_ctx_signer, sign_simple_ctx, ctx_sender}
use crosshub.Transaction.Rtx.{
  ReceptTransaction, Recept, construct_recept_data, new_rtx_signer, rtx_sender,
}
use crosshub.Viewer.Logs.{CtxStore, hub_chain}

-- `this.Anchors[from]`
unfoldable pub is_anchor : Address → List Address → Bool
is_anchor a [] = false
is_anchor a (b ∷ rest) = let others = is_anchor a rest in eq_bytes a b || others

-- The chain id of this chain.
abbrev pub local_chain : Option ℤ
local_chain = some (pos 2)

-- CtxSender and RtxSender give the zero address with an error, which is logged only.
abbrev pub or_zero : Run SignError Address → Run SignError Address
or_zero (ok a) = ok a
or_zero (err e) = ok (replicate 20 0)
or_zero panic = panic

-- The node: the nonce of the account, 0 after an error, and SendTransaction, which gets nil after an error of
-- createTransaction. The ABI's Pack and the signed transaction are the library's.
pub record Node : Type 1 where
  pub State : Type 0
  pub Transaction : Type 0
  pub pending_nonce : State → ℕ
  pub pack : String → Recept → Option Bytes
  pub sign_transaction : ℕ → Bytes → Option Transaction
  pub send_transaction : Option Transaction → State → State × Run SignError (Unit {0})

pub data Message : Type 0 where
  ctx_message : CrossTransaction → Message
  rtx_message : ReceptTransaction → Message

-- createTransaction
unfoldable pub create_transaction :
    Crypto → (node : Node) → ReceptTransaction → node.State → Option node.Transaction
create_transaction crypto node rtm s = elim (construct_recept_data crypto node.pack rtm) [
  | none ↦ none
  | some content ↦ node.sign_transaction (node.pending_nonce s) content
]

module _ (crypto : Crypto) (sign_hash : Hash → Option Bytes) (db : CtxStore) (node : Node) where
  -- What the messages change: the remote store and the node.
  pub record Inbox : Type 0 where
    pub remote_store : db.Store
    pub chain : node.State

  -- RemoteStore.Write, whose error is logged.
  unfoldable pub written :
      Inbox → db.Store × Run db.Error (Unit {0}) → Inbox × Run SignError (Unit {0})
  written b (s, ok u) = (record b { remote_store = s }, ok tt)
  written b (s, err e) = (record b { remote_store = s }, ok tt)
  written b (s, panic) = (record b { remote_store = s }, panic)

  -- SignSimpleCtx gives nil with its error, and Write follows it.
  unfoldable pub write_signed : Run SignError CrossTransaction → Action Inbox SignError (Unit {0})
  write_signed (ok ctms) b = written b (db.write ctms b.remote_store)
  write_signed (err e) b = (b, panic)
  write_signed panic b = (b, panic)

  unfoldable pub store_ctx :
      List Address → CrossTransaction → Run SignError Address → Action Inbox SignError (Unit {0})
  store_ctx anchors ctm (ok from) b =
      if is_anchor from anchors
      then write_signed (sign_simple_ctx crypto ctm (new_ctx_signer local_chain) sign_hash) b
      else (b, ok tt)
  store_ctx anchors ctm (err e) b = (b, err e)
  store_ctx anchors ctm panic b = (b, panic)

  -- SendTransaction, whose error is logged.
  unfoldable pub sent :
      Inbox → node.State × Run SignError (Unit {0}) → Inbox × Run SignError (Unit {0})
  sent b (s, ok u) = (record b { chain = s }, ok tt)
  sent b (s, err e) = (record b { chain = s }, ok tt)
  sent b (s, panic) = (record b { chain = s }, panic)

  unfoldable pub send_rtx :
      List Address → ReceptTransaction → Run SignError Address → Action Inbox SignError (Unit {0})
  send_rtx anchors rtm (ok from) b =
      if is_anchor from anchors
      then sent b (node.send_transaction (create_transaction crypto node rtm b.chain) b.chain)
      else (b, ok tt)
  send_rtx anchors rtm (err e) b = (b, err e)
  send_rtx anchors rtm panic b = (b, panic)

  -- The case of messageCh.
  unfoldable pub handle_message : List Address → Message → Action Inbox SignError (Unit {0})
  handle_message anchors (ctx_message ctm) b =
      let (cached, from) = ctx_sender crypto (new_ctx_signer hub_chain) ctm in
      store_ctx anchors cached (or_zero from) b
  handle_message anchors (rtx_message rtm) b =
      let (cached, from) = rtx_sender crypto (new_rtx_signer hub_chain) rtm in
      send_rtx anchors cached (or_zero from) b
