-- ===== src/Transaction/Preimage.antt =====
-- What a signature of a cross transaction does not tell apart.
use crosshub.Prelude.{
  ◌≡◌, sym, arith, not, eq_ℤ, err, if◌then◌else◌, ap, ◌∙◌, ◌∷◌, ◌++◌, append_assoc, ◌-ℤ◌, pos,
  Bytes,
}
use crosshub.Transaction.Crypto.{Crypto, invalid_chain_id}
use crosshub.Transaction.Ctx.{
  CtxData, CtxSigner, fresh_ctx, ctx_preimage, ctx_signer_hash, ctx_signer_sender, ctx_derive,
  ctx_sender, ctx_hash,
}

module _ (crypto : Crypto) where
  ctx_preimage-moved :
      (d : CtxData) (a m b : Bytes)
      → ctx_preimage crypto (record d { from = a ++ m; to = b })
        ≡ ctx_preimage crypto (record d { from = a; to = m ++ b })
  unfolding ctx_preimage
  ctx_preimage-moved d a m b =
      let rest : Bytes = d.origin ∷ (d.purpose ∷ d.payload) in
      rw (append_assoc a m (b ++ rest), append_assoc m b rest)

  ctx_derive_outcome :
      (signer : CtxSigner) (d : CtxData)
      → (ctx_sender crypto signer (fresh_ctx d)).1 ≡ ctx_signer_sender crypto signer (fresh_ctx d)
  unfolding ctx_sender ctx_derive
  ctx_derive_outcome signer d = ground arith

  ctx_signer_sender-moved :
      (signer : CtxSigner) (d : CtxData) (a m b : Bytes)
      → ctx_signer_sender crypto signer (fresh_ctx (record d { from = a ++ m; to = b }))
        ≡ ctx_signer_sender crypto signer (fresh_ctx (record d { from = a; to = m ++ b }))
  unfolding ctx_signer_sender ctx_signer_hash
  ctx_signer_sender-moved signer d a m b =
      ap
        (λ h.
          if not (eq_ℤ (crypto.derive_chain_id d.v) signer.chain_id)
          then err invalid_chain_id
          else crypto.recover_plain h d.r d.s (d.v -ℤ signer.chain_id_mul -ℤ pos 8))
        (ap crypto.keccak (ctx_preimage-moved d a m b))

  -- Two cross transactions with the same signature, of which one has at the end of From the bytes that
  -- the other has at the start of To, have the same hash and the same sender for every signer.
  pub ctx_sender-moved_bytes :
      (signer : CtxSigner) (d : CtxData) (a m b : Bytes)
      → ((ctx_hash crypto (fresh_ctx (record d { from = a ++ m; to = b }))).1
          ≡ (ctx_hash crypto (fresh_ctx (record d { from = a; to = m ++ b }))).1)
        × ((ctx_sender crypto signer (fresh_ctx (record d { from = a ++ m; to = b }))).1
            ≡ (ctx_sender crypto signer (fresh_ctx (record d { from = a; to = m ++ b }))).1)
  unfolding ctx_hash
  ctx_sender-moved_bytes signer d a m b = (
    ap crypto.keccak (ctx_preimage-moved d a m b),
    ctx_derive_outcome signer _
        ∙ ctx_signer_sender-moved signer d a m b
        ∙ sym (ctx_derive_outcome signer _),
  )
