-- ===== src/Viewer/Relaying.antt =====
-- From the log of one hub to the store of another.
use crosshub.Prelude.{
  ◌≡◌, ap, inl, inr, Bytes, List, ◌∷◌, Option, none, Option-cases, Bool-cases, Run, ok, err, panic,
  Run-cases, if◌then◌else◌, arith,
}
use crosshub.Transaction.Crypto.{Hash, Address, Crypto, IsCrypto, IsSigner}
use crosshub.Transaction.Ctx.{
  CrossTransaction, CtxSigner, new_cross_transaction, new_ctx_signer, ctx_preimage, ctx_signer_hash,
  sign_ctx, sign_simple_ctx, ctx_signer_sender, ctx_derive, ctx_sender, ctx_signer_equal,
}
use crosshub.Transaction.Sender.{sign_ctx-sender}
use crosshub.Viewer.Logs.{
  CtxStore, Abi, Log, ctx_event, Hub, hub_chain, stored_event, sign_maker_tx, on_maker_tx,
}
use crosshub.Viewer.Messages.{
  is_anchor, local_chain, or_zero, Node, ctx_message, Inbox, write_signed, store_ctx,
  handle_message,
}

-- CtxSender changes the cache only.
ctx_sender_data :
    (crypto : Crypto) (signer : CtxSigner) (tx : CrossTransaction)
    → ((ctx_sender crypto signer tx).0).ctx ≡ tx.ctx
unfolding ctx_sender ctx_derive
ctx_sender_data crypto signer tx =
    let derived : ((ctx_derive crypto signer tx).0).ctx ≡ tx.ctx =
      Run-cases (ctx_signer_sender crypto signer tx) (λ a e. ground (arith, e))
        (λ x e. ground (arith, e)) (λ e. ground (arith, e)) in
    elim (Option-cases tx.from_cache) [
      | inl n ↦ ground (arith, n, derived)
      | inr (sc, n) ↦ elim (Bool-cases (ctx_signer_equal sc.signer signer)) [
        | inl b ↦ ground (arith, n, b)
        | inr b ↦ ground (arith, n, b, derived)
      ]
    ]

module _ (crypto : Crypto) (lawful : IsCrypto crypto) (abi : Abi) (db : CtxStore)
    (sign_hash : Hash → Option Bytes) (account : Address)
    (signer : IsSigner crypto sign_hash account) where
  abbrev made : Log → CrossTransaction
  made event =
      new_cross_transaction (abi.unpack_maker_tx event.content).value
        (abi.unpack_maker_tx event.content).dest_value (abi.unpack_maker_tx event.content).from
        (abi.unpack_maker_tx event.content).to 2 (abi.unpack_maker_tx event.content).purpose
        (abi.unpack_maker_tx event.content).tx_id event.tx_hash event.block_hash
        (abi.unpack_maker_tx event.content).payload

  stored_event_events :
      (ctms : CrossTransaction) (w : db.Store × Run db.Error (Unit {0}))
      (h h' : Hub abi crypto sign_hash db)
      → stored_event abi crypto sign_hash db ctms w h ≡ (h', ok tt)
      → h'.events ≡ ctx_event ctms ∷ h.events
  unfolding stored_event
  stored_event_events ctms (s, ok u) h h' e = ground arith
  stored_event_events ctms (s, err x) h h' e = ground arith
  stored_event_events ctms (s, panic) h h' e = absurd (ground arith)

  unsigned :
      (event : Log) (h h' : Hub abi crypto sign_hash db)
      → sign_hash (ctx_signer_hash crypto (made event)) ≡ none
      → sign_maker_tx abi crypto sign_hash db event h ≡ (h', ok tt)
      → ⊥
  unfolding sign_maker_tx sign_ctx
  unsigned event h h' n e = ground (arith, n)

  on_maker_tx-sign_maker_tx :
      (event : Log) (h h' : Hub abi crypto sign_hash db)
      → on_maker_tx abi crypto sign_hash db event h ≡ (h', ok tt)
      → sign_maker_tx abi crypto sign_hash db event h ≡ (h', ok tt)
  unfolding on_maker_tx
  on_maker_tx-sign_maker_tx event h h' e = elim (Bool-cases (abi.nil_amounts event.content)) [
    | inl n ↦ absurd (ground (arith, n))
    | inr n ↦ ground (arith, n)
  ]

  -- The event that a hub sends for a MakerTx log, when it does not panic, is signed over the fields of the log:
  -- another hub that receives it signs it for its own chain and writes it when it has the account of the
  -- first hub as an anchor, and otherwise leaves everything as it is.
  pub handle_message-on_maker_tx :
      (event : Log) (h h' : Hub abi crypto sign_hash db) (other : CtxStore) (node : Node)
      (other_hash : Hash → Option Bytes) (anchors : List Address)
      (b : Inbox crypto other_hash other node)
      → on_maker_tx abi crypto sign_hash db event h ≡ (h', ok tt)
      → (ctms cached : CrossTransaction) × (h'.events ≡ ctx_event ctms ∷ h.events)
        × (ctx_preimage crypto ctms.ctx ≡ ctx_preimage crypto (made event).ctx)
        × (cached.ctx ≡ ctms.ctx)
        × (handle_message crypto other_hash other node anchors (ctx_message ctms) b ≡ (
            if is_anchor account anchors
            then write_signed crypto other_hash other node
                (sign_simple_ctx crypto cached (new_ctx_signer local_chain) other_hash)
                b
            else (b, ok tt)))
  unfolding sign_maker_tx handle_message store_ctx
  handle_message-on_maker_tx event h h' other node other_hash anchors b e =
      let run = on_maker_tx-sign_maker_tx event h h' e in
      elim (Option-cases (sign_hash (ctx_signer_hash crypto (made event)))) [
        | inl n ↦ absurd (unsigned event h h' n run)
        | inr (sig, s) ↦
            let (ctms, signed, same, from) =
              sign_ctx-sender crypto lawful 11 (made event) sign_hash account sig (omega arith)
                signer s in
            let result : stored_event abi crypto sign_hash db ctms (db.write ctms h.local_store) h
                ≡ (h', ok tt) =
              ground (arith, signed, run) in
            (
              ctms,
              (ctx_sender crypto (new_ctx_signer hub_chain) ctms).0,
              stored_event_events ctms (db.write ctms h.local_store) h h' result,
              same,
              ctx_sender_data crypto (new_ctx_signer hub_chain) ctms,
              ap
                  (λ r.
                    store_ctx crypto other_hash other node anchors
                      ((ctx_sender crypto (new_ctx_signer hub_chain) ctms).0) (or_zero r) b)
                  from,
            )
      ]
