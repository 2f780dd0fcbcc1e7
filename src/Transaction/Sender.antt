-- ===== src/Transaction/Sender.antt =====
-- The sender of a signed transaction.
use crosshub.Prelude.{
  ℕ, ◌+◌, ◌*◌, ◌%◌, ◌≤◌, ◌<◌, ◌≡◌, refl, true, false, pos, ◌+ℤ◌, ◌-ℤ◌, eq_ℤ, Option, some, ok,
  Bytes, length, get_elem?, take, drop, arith,
}
use crosshub.Transaction.Crypto.{Hash, Address, Crypto, IsCrypto, IsSigner}
use crosshub.Transaction.Ctx.{
  CrossTransaction, fresh_ctx, new_ctx_signer, ctx_signature_values, ctx_preimage, ctx_signer_hash,
  ctx_with_signature, sign_ctx, ctx_signer_sender, ctx_derive, ctx_sender,
}
use crosshub.Transaction.Rtx.{
  ReceptTransaction, fresh_rtx, new_rtx_signer, rtx_signature_values, rtx_signer_hash,
  rtx_with_signature, sign_rtx, rtx_signer_sender, rtx_sender, rtx_derive,
}

-- V of a signature under chain id `c`, and what is left of it once the chain id is taken off.
v_of_chain : (c v : ℕ) → v ≤ 1 → pos ((v + 35) % 256) +ℤ (pos c +ℤ pos c) ≡ pos (v + 35 + c * 2)
unfolding ◌+ℤ◌
v_of_chain c v b = ground arith

v_off_chain : (c v : ℕ) → pos (v + 35 + c * 2) -ℤ (pos c +ℤ pos c) -ℤ pos 8 ≡ pos (v + 27)
unfolding ◌+ℤ◌ ◌-ℤ◌
v_off_chain c v = ground arith

eq_ℤ_pos : (c : ℕ) → eq_ℤ (pos c) (pos c) ≡ true
eq_ℤ_pos c = ground arith

eq_ℤ_zero : (c : ℕ) → 0 < c → eq_ℤ (pos c) (pos 0) ≡ false
eq_ℤ_zero c h = ground arith

module _ (crypto : Crypto) (lawful : IsCrypto crypto) where
  ctx_signature_values-eip155 :
      (c v : ℕ) (sig : Bytes)
      → 0 < c
      → length sig ≡ 65
      → get_elem? sig 64 ≡ some v
      → v ≤ 1
      → ctx_signature_values crypto (new_ctx_signer (some (pos c))) sig
        ≡ ok (
          pos (crypto.set_bytes (take 32 sig)),
          pos (crypto.set_bytes (take 32 (drop 32 sig))),
          pos (v + 35 + c * 2),
        )
  unfolding ctx_signature_values new_ctx_signer
  ctx_signature_values-eip155 c v sig h l e b =
      rw (l, ctx_signature_values, e, eq_ℤ_zero c h, v_of_chain c v b)

  rtx_signature_values-eip155 :
      (c v : ℕ) (sig : Bytes)
      → 0 < c
      → length sig ≡ 65
      → get_elem? sig 64 ≡ some v
      → v ≤ 1
      → rtx_signature_values crypto (new_rtx_signer (some (pos c))) sig
        ≡ ok (
          pos (crypto.set_bytes (take 32 sig)),
          pos (crypto.set_bytes (take 32 (drop 32 sig))),
          pos (v + 35 + c * 2),
        )
  unfolding rtx_signature_values new_rtx_signer
  rtx_signature_values-eip155 c v sig h l e b =
      rw (l, rtx_signature_values, e, eq_ℤ_zero c h, v_of_chain c v b)

  -- With a signing function of an account and a chain id above 0, a cross transaction that is signed
  -- keeps the bytes that were hashed, and CtxSender of the same signer gives the account.
  pub sign_ctx-sender :
      (c : ℕ) (tx : CrossTransaction) (sign_hash : Hash → Option Bytes) (account : Address)
      (sig : Bytes)
      → 0 < c
      → IsSigner crypto sign_hash account
      → sign_hash (ctx_signer_hash crypto tx) ≡ some sig
      → (tx' : CrossTransaction) × (sign_ctx crypto tx (new_ctx_signer (some (pos c))) sign_hash
          ≡ ok tx')
        × (ctx_preimage crypto tx'.ctx ≡ ctx_preimage crypto tx.ctx)
        × ((ctx_sender crypto (new_ctx_signer (some (pos c))) tx').1 ≡ ok account)
  unfolding sign_ctx ctx_with_signature ctx_sender ctx_derive ctx_signer_sender ctx_signer_hash
      ctx_preimage new_ctx_signer
  sign_ctx-sender c tx sign_hash account sig h signer e =
      let (v, at, b, back) = signer.sig_recovers _ sig e in
      let vals = ctx_signature_values-eip155 c v sig h (signer.sig_length _ sig e) at b in
      (
        fresh_ctx (record tx.ctx {
          v = pos (v + 35 + c * 2);
          r = pos (crypto.set_bytes (take 32 sig));
          s = pos (crypto.set_bytes (take 32 (drop 32 sig)));
        }),
        rw (e, sign_ctx, vals),
        refl,
        rw (
          ctx_sender,
          ctx_derive,
          ctx_signer_sender,
          lawful.derive_chain_id-eip155 c v b,
          eq_ℤ_pos c,
          v_off_chain c v,
          back,
        ),
      )

  -- The same of a receipt, whose hashed bytes do not have Origin.
  sign_rtx-sender :
      (c : ℕ) (tx : ReceptTransaction) (sign_hash : Hash → Option Bytes) (account : Address)
      (sig : Bytes)
      → 0 < c
      → IsSigner crypto sign_hash account
      → sign_hash (rtx_signer_hash crypto tx) ≡ some sig
      → (tx' : ReceptTransaction) × (sign_rtx crypto tx (new_rtx_signer (some (pos c))) sign_hash
          ≡ ok tx')
        × ((origin : ℕ)
            → (rtx_sender crypto
                (new_rtx_signer (some (pos c)))
                (record tx' { rtx = record tx'.rtx { origin = origin } })).1
              ≡ ok account)
  unfolding sign_rtx rtx_with_signature rtx_sender rtx_derive rtx_signer_sender rtx_signer_hash
      new_rtx_signer
  sign_rtx-sender c tx sign_hash account sig h signer e =
      let (v, at, b, back) = signer.sig_recovers _ sig e in
      let vals = rtx_signature_values-eip155 c v sig h (signer.sig_length _ sig e) at b in
      (
        fresh_rtx (record tx.rtx {
          v = pos (v + 35 + c * 2);
          r = pos (crypto.set_bytes (take 32 sig));
          s = pos (crypto.set_bytes (take 32 (drop 32 sig)));
        }),
        rw (e, sign_rtx, vals),
        λ origin. rw (
          rtx_sender,
          rtx_derive,
          rtx_signer_sender,
          lawful.derive_chain_id-eip155 c v b,
          eq_ℤ_pos c,
          v_off_chain c v,
          back,
        ),
      )
