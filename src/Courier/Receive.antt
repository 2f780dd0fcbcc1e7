-- ===== src/Courier/Receive.antt =====
-- txmanager.go: receive, and what the other chain asks for and is answered.
use crosshub.Prelude.{
  Bool, replicate, if◌then◌else◌, Bytes, List, [], ◌∷◌, String, ℤ, pos, Option, none, some, Run, ok,
  err, panic,
}
use crosshub.Prelude.Action.{Action}
use crosshub.Transaction.Crypto.{Hash, Crypto, SignError}
use crosshub.Transaction.Ctx.{CrossTransaction, ctx_id_of}
use crosshub.Transaction.Rtx.{
  ReceptTransaction, new_recept_transaction, new_rtx_signer, sign_rtx, rtx_id_of,
}
use crosshub.Courier.Tx.{CrossTxReceipt}
use crosshub.Courier.Relay.{simple_chain, fabric}

-- The texts of hashes, without and with the prefix 0x, HexToHash, the text of a number, and a Go string as
-- a text and back.
pub record Texts : Type 0 where
  pub plain_hex : Hash → String
  pub prefixed_hex : Hash → String
  pub hex_to_hash : String → Hash
  pub big_text : ℤ → String
  pub as_text : Bytes → String
  pub bytes_of : String → Bytes

-- The bucket outchain of the database, and the two clients, with whether their calls succeeded. Get leaves a
-- new receipt as it is when there is no row.
pub record Outchain : Type 1 where
  pub State : Type 0
  pub set : String → ReceptTransaction → State → State × Bool
  pub get : String → State → Option ReceptTransaction
  pub invoke : String → List String → State → State × Bool
  pub send : ReceptTransaction → State → State × Bool

-- tx.go
abbrev pub test_chain_code_prefix : String
test_chain_code_prefix = "outchain"

abbrev pub test_fabric_invoke : String
test_fabric_invoke = "invoke"

abbrev pub test_fabric_account : String
test_fabric_account = "a"

abbrev pub test_simple_chain_address : String
test_simple_chain_address = "0xdE1D7Acfd66eECC4512413d517f0484920491cAB"

-- `new(core.ReceptTransaction)`
abbrev pub zero_receipt : ReceptTransaction
zero_receipt = new_recept_transaction (replicate 32 0) (replicate 32 0) [] [] [] 0 0 []

-- What Recv of the client gives.
pub data Recv : Type 0 where
  rtx_recv : ReceptTransaction → Recv
  ctx_recv : CrossTransaction → Recv
  other_recv : Recv

module _ (texts : Texts) (out : Outchain) (crypto : Crypto) (sign_hash : Hash → Option Bytes) where
  -- The receipt that receive gives to AddCrossTxReceipt; it has no sequence.
  abbrev pub received_receipt : ReceptTransaction → CrossTxReceipt
  received_receipt rtx = record {
    cross_id = texts.plain_hex (rtx_id_of rtx);
    receipt = texts.plain_hex rtx.rtx.tx_hash;
    sequence = pos 0;
  }

  -- `req.Data.To = testFabricAccount`
  abbrev pub readdressed : CrossTransaction → CrossTransaction
  readdressed req = record req { ctx = record req.ctx { to = texts.bytes_of test_fabric_account } }

  abbrev pub pending_receipt : CrossTransaction → ReceptTransaction
  pending_receipt req =
      new_recept_transaction req.ctx.ctx_id (replicate 32 0) req.ctx.from req.ctx.to
        (texts.bytes_of test_simple_chain_address) fabric simple_chain req.ctx.payload

  -- processOutChainCtxReq: an error of Set or of InvokeChainCode is logged only.
  unfoldable pub process_out_chain_ctx_req : CrossTransaction → out.State → out.State
  process_out_chain_ctx_req req s =
      let receipt = pending_receipt req in
      let (s1, stored) = out.set (texts.prefixed_hex (rtx_id_of receipt)) receipt s in
      let (s2, invoked) =
        out.invoke "commit"
          (test_chain_code_prefix
            ∷ texts.prefixed_hex (ctx_id_of req)
            ∷ test_fabric_invoke
            ∷ texts.as_text req.ctx.to
            ∷ texts.as_text req.ctx.from
            ∷ texts.big_text req.ctx.charge
            ∷ [])
          s1 in
      s2

  -- The receipt that processOutChainCtxResp sends, with the hash of the response.
  abbrev pub answered_receipt : String → String → out.State → ReceptTransaction
  answered_receipt cross_id receipt s =
      let found : ReceptTransaction = elim (out.get cross_id s) [
        | none ↦ zero_receipt
        | some r ↦ r
      ] in
      record found { rtx = record found.rtx { tx_hash = texts.hex_to_hash receipt } }

  -- After an error of signTx its nil result is asserted to be a receipt, which panics.
  unfoldable pub send_answer :
      out.State → Run SignError ReceptTransaction → out.State × Run SignError (Unit {0})
  send_answer s (ok signed) = ((out.send signed s).0, ok tt)
  send_answer s (err e) = (s, panic)
  send_answer s panic = (s, panic)

  -- processOutChainCtxResp: an error of Set or of Send is logged only.
  unfoldable pub process_out_chain_ctx_resp :
      String → String → Action out.State SignError (Unit {0})
  process_out_chain_ctx_resp cross_id receipt s =
      let pending = answered_receipt cross_id receipt s in
      let (s1, stored) = out.set cross_id pending s in
      send_answer s1 (sign_rtx crypto pending (new_rtx_signer (some (pos 11))) sign_hash)

  -- A turn of receive: the receipt for AddCrossTxReceipt, and what the goroutine of a request does.
  unfoldable pub receive_one : Bool → Recv → out.State → Option CrossTxReceipt × out.State
  receive_one outchain (rtx_recv rtx) s = (some (received_receipt rtx), s)
  receive_one outchain (ctx_recv req) s =
      (none, if outchain then process_out_chain_ctx_req (readdressed req) s else s)
  receive_one outchain other_recv s = (none, s)
